-- ===== src/Corpus/Windows/Count.antt =====
-- How many windows `build_windows` returns: the limit, or all of them where they are fewer.
use mathlib.Core.Bool.{false≢true}
use shapleymcg.Common.{
  ℕ, zero, suc, min, ◌+◌, ◌≤◌, ◌<◌, ◌≡◌, refl, sym, ap, ◌∙◌, String, Bool, true, false, none, some,
  List, [], ◌∷◌, ◌++◌, arith, ltb, ltb→lt, ltb→le, nat_eq, length, length-append, Bool-cases,
  Option-cases, inl, inr, ◌⊎◌,
}
use shapleymcg.Common.Sums.{sum_of}
use shapleymcg.Corpus.Windows.{Window, Pools, Pass, pop, one_pass, passes}

some-ne-none {ℓ} : {A : Type ℓ} {a : A} → some a ≡ none → ⊥
some-ne-none h = cc

module _ {ℓ} {A : Type ℓ} where
  -- Only the empty list has nothing to pop.
  pop-none : (xs : List A) → pop xs ≡ none → xs ≡ []
  pop-none [] h = refl
  pop-none (x ∷ xs) h = elim (Option-cases (pop xs)) [
    | inl e ↦ absurd (some-ne-none (rw (e, pop) at h))
    | inr (_, e) ↦ absurd (some-ne-none (rw (e, pop) at h))
  ]

  pop-length :
      (xs : List A) {ys : List A} {y : A} → pop xs ≡ some (ys, y) → length xs ≡ suc (length ys)
  pop-length [] h = cc
  pop-length (x ∷ xs) {ys} {y} h = elim (Option-cases (pop xs)) [
    | inl e ↦
        let nil : xs ≡ [] = pop-none xs e in
        let one : [] ≡ ys = cc (rw (e, pop) at h) in omega (arith, ap length nil, ap length one)
    | inr ((zs, z), e) ↦
        let more : (x ∷ zs) ≡ ys = cc (rw (e, pop) at h) in
        omega (arith, pop-length xs e, ap length more)
  ]

module _ {T : Type 0} where
  -- How many windows are left.
  abbrev pub left_in : Pools T → ℕ
  left_in pools = sum_of (λ (e : String × List (Window T)). length e.1) pools

  -- What a pass does to the numbers: it loses no window, takes one if any is left, and stops at the limit.
  record IsPass (limit : ℕ) (pools : Pools T) (selected : List (Window T)) (advanced : Bool)
      (p : Pass T) : Type 0 where
    conserved : left_in p.pools + length p.selected ≡ left_in pools + length selected
    grows : length selected ≤ length p.selected
    within : length p.selected ≤ limit
    adds : (p.advanced ≡ advanced) ⊎ (length selected < length p.selected)
    stays : advanced ≡ true → p.advanced ≡ true
    idle : p.advanced ≡ false → left_in p.pools ≡ 0

  one_pass-IsPass :
      (limit : ℕ) (pools : Pools T) (selected : List (Window T)) (advanced : Bool)
      → length selected < limit
      → IsPass limit pools selected advanced (one_pass limit pools selected advanced)
  unfolding one_pass sum_of
  one_pass-IsPass limit [] selected advanced h = record {
    conserved = refl;
    grows = omega arith;
    within = omega arith;
    adds = inl refl;
    stays = λ e. e;
    idle = λ e. refl;
  }
  one_pass-IsPass limit ((domain, windows) ∷ pools) selected advanced h =
      elim (Option-cases (pop windows)) [
        | inl e ↦
            let rest = one_pass-IsPass limit pools selected advanced h in
            let nothing : length windows ≡ 0 = ap length (pop-none windows e) in
            rw (e, one_pass)
              (record {
                conserved = omega (arith, rest.conserved);
                grows = rest.grows;
                within = rest.within;
                adds = rest.adds;
                stays = rest.stays;
                idle = λ q. omega (arith, nothing, rest.idle q);
              })
        | inr ((left, window), e) ↦
            let fewer = pop-length windows e in
            let longer = length-append selected (window ∷ []) in
            elim (Bool-cases (nat_eq (length (selected ++ window ∷ [])) limit)) [
              | inl full ↦
                  rw (e, full, one_pass)
                    (record {
                      conserved = omega (arith, fewer, longer);
                      grows = omega (arith, longer);
                      within = omega (arith, longer, h);
                      adds = inr (omega (arith, longer));
                      stays = λ _. refl;
                      idle = λ q. absurd (false≢true (sym q));
                    })
              | inr more ↦
                  let room : length (selected ++ window ∷ []) < limit =
                    ground (arith, more, longer, h) in
                  let rest = one_pass-IsPass limit pools (selected ++ window ∷ []) true room in
                  rw (e, more, one_pass)
                    (record {
                      conserved = omega (arith, rest.conserved, fewer, longer);
                      grows = omega (arith, rest.grows, longer);
                      within = rest.within;
                      adds = inr (omega (arith, rest.grows, longer));
                      stays = λ _. rest.stays refl;
                      idle = λ q. absurd (false≢true (sym q ∙ rest.stays refl));
                    })
            ]
      ]

  -- With as many passes as the limit, what is selected is the limit, or everything.
  pub passes-length :
      (fuel limit : ℕ) (pools : Pools T) (selected : List (Window T))
      → length selected ≤ limit
      → limit ≤ length selected + fuel
      → length (passes fuel limit pools selected) ≡ min limit (length selected + left_in pools)
  unfolding passes
  passes-length zero limit pools selected h k = omega arith
  passes-length (suc fuel) limit pools selected h k =
      elim (Bool-cases (ltb (length selected) limit)) [
        | inr e ↦ rw (e, passes) (omega (arith, ltb→le (length selected) limit e))
        | inl e ↦
            let pass = one_pass limit pools selected false in
            let p = one_pass-IsPass limit pools selected false (ltb→lt (length selected) limit e) in
            elim (Bool-cases pass.advanced) [
              | inl q ↦
                  rw (e, q, passes)
                    (passes-length fuel limit pass.pools pass.selected p.within
                        (omega (arith, k, grew p q))
                      ∙ ap (min limit) (omega (arith, p.conserved)))
              | inr q ↦ rw (e, q, passes) (omega (arith, p.conserved, p.idle q, p.within))
            ]
      ]
    where
      grew :
          {pass : Pass T}
          → IsPass limit pools selected false pass
          → pass.advanced ≡ true
          → length selected < length pass.selected
      grew p q = elim p.adds [ inl e ↦ absurd (false≢true (sym e ∙ q)) | inr l ↦ l ]
