-- ===== src/Allocation/Fill/Complete.antt =====
-- A fill succeeds wherever some selection fits the budget, and reaches every selection that fits: some
-- final state costs and damages no more.
use shapleymcg.Common.{
  ℕ, ◌+◌, ◌≡◌, refl, sym, subst, true, false, List, [], ◌∷◌, arith, String, ◌∈◌, All, Some, Memᴰ,
}
use shapleymcg.Common.Result.{ok}
use shapleymcg.Common.Double.{Double, ◌≼◌, is_finite, is_finite_of_≼, ≼_trans}
use shapleymcg.Allocation.Candidate.{Candidate}
use shapleymcg.Common.Sums.{sum_of}
use shapleymcg.Allocation.Table.{Value, State, Table}
use shapleymcg.Allocation.Round.{round_reaches}
use shapleymcg.Allocation.Fill.{
  Groups, Picks, damage_from, damage_from_finite, Policy, reached, fill, is_empty,
}

-- The laws under which nothing is missed. Costs are compared by `Rel`: by `≤` where a cheaper state may
-- stand for a dearer one, by `≡` where the budget has to be met exactly.
pub record Covers {D M : Type 0} ⦃f : Double D⦄ (p : Policy D M) (Rel : ℕ → ℕ → Type 0)
    : Type 0 where
  pub better_le : (v w : Value D M) → p.better v w ≡ true → v.0 ≼ w.0
  pub worse_le : (v w : Value D M) → p.better v w ≡ false → w.0 ≼ v.0
  pub rel_trans : (a b c : ℕ) → Rel a b → Rel b c → Rel a c
  pub rel_add : (a b c d : ℕ) → Rel a b → Rel c d → Rel (a + c) (b + d)
  pub over_rel : (a b : ℕ) → Rel a b → p.over b ≡ false → p.over a ≡ false
  pub over_add : (a b : ℕ) → p.over (a + b) ≡ false → p.over a ≡ false
  pub pick_covers :
      (cs : List (Candidate D M)) (c : Candidate D M)
      → c ∈ cs
      → is_finite c.predicted_damage ≡ true
      → Some
          (λ b. Rel (p.cost b) (p.cost c) × (b.predicted_damage ≼ c.predicted_damage))
          (p.pick cs)
  pub tidy_covers :
      (t : Table D M) (x : State D M)
      → x ∈ t
      → is_finite x.1.0 ≡ true
      → Some (λ y. Rel y.0 x.0 × (y.1.0 ≼ x.1.0)) (p.tidy t)

mem-ne-empty {ℓ} : {A : Type ℓ} {x : A} (xs : List A) → x ∈ xs → is_empty xs ≡ false
mem-ne-empty [] m = elim m [ ]
mem-ne-empty (x ∷ xs) m = refl

module _ {D M E : Type 0} ⦃f : Double D⦄ (p : Policy D M) (infeasible : String → E)
    (Rel : ℕ → ℕ → Type 0) (laws : Covers p Rel) where
  -- Some entry is within the cost and the damage.
  abbrev pub Reaches : Table D M → ℕ → D → Type 0
  Reaches t u d = Some (λ x. Rel x.0 u × (x.1.0 ≼ d)) t

  -- A round reaches what a choice adds to what was reached.
  round-Reaches :
      (states : Table D M) (cs : List (Candidate D M)) (u : ℕ) (d : D) (c : Candidate D M)
      → Reaches states u d
      → c ∈ cs
      → is_finite c.predicted_damage ≡ true
      → p.over (u + p.cost c) ≡ false
      → Reaches (reached p states cs) (u + p.cost c) (f.add d c.predicted_damage)
  round-Reaches states cs u d c (s, ms, (le, dm)) mc fin fits =
      let (b, mb, (cheap, mild)) = laws.pick_covers cs c mc fin in
      let under = laws.rel_add s.0 u (p.cost b) (p.cost c) le cheap in
      let (x, mx, (at_cost, good)) =
        round_reaches p.better p.over p.cost laws.better_le laws.worse_le states (p.pick cs) s b ms
          mb (laws.over_rel (s.0 + p.cost b) (u + p.cost c) under fits) in
      (
        x,
        mx,
        (
          subst (λ k. Rel k (u + p.cost c)) (sym at_cost) under,
          ≼_trans x.1.0 (f.add s.1.0 b.predicted_damage) (f.add d c.predicted_damage) good
              (f.add_mono s.1.0 d b.predicted_damage c.predicted_damage dm mild),
        ),
      )

  tidy-Reaches :
      (t : Table D M) (u : ℕ) (d : D) → is_finite d ≡ true → Reaches t u d → Reaches (p.tidy t) u d
  tidy-Reaches t u d fin (x, mx, (le, dm)) =
      let (y, my, (cheap, mild)) = laws.tidy_covers t x mx (is_finite_of_≼ x.1.0 d dm fin) in
      (y, my, (laws.rel_trans y.0 x.0 u cheap le, ≼_trans y.1.0 x.1.0 d mild dm))

  -- A fill succeeds wherever a selection fits, and reaches that selection.
  pub fill_complete :
      (groups : Groups D M) (states : Table D M) (u : ℕ) (d : D) (rest : List (Candidate D M))
      → Reaches states u d
      → Picks groups rest
      → All (λ c. is_finite c.predicted_damage ≡ true) rest
      → p.over (u + sum_of p.cost rest) ≡ false
      → is_finite (damage_from d rest) ≡ true
      → (final : Table D M) × (fill p infeasible groups states ≡ ok final)
        × Reaches final (u + sum_of p.cost rest) (damage_from d rest)
  unfolding fill sum_of damage_from
  fill_complete [] states u d [] r q fin fits total =
      let zero_cost : u ≡ u + 0 = omega arith in
      (states, refl, subst (λ k. Reaches states k d) zero_cost r)
  fill_complete [] states u d (c ∷ rest) r q fin fits total = absurd q
  fill_complete (g ∷ groups) states u d [] r q fin fits total = absurd q
  fill_complete ((unit, cs) ∷ groups) states u d (c ∷ rest) r q fin fits total =
      let d' = f.add d c.predicted_damage in
      let assoc : u + (p.cost c + sum_of p.cost rest) ≡ u + p.cost c + sum_of p.cost rest =
        omega arith in
      let fits' : p.over (u + p.cost c + sum_of p.cost rest) ≡ false =
        subst (λ k. p.over k ≡ false) assoc fits in
      let once =
        round-Reaches states cs u d c r q.0 (fin c (Memᴰ.head refl))
          (laws.over_add (u + p.cost c) (sum_of p.cost rest) fits') in
      let kept =
        tidy-Reaches (reached p states cs) (u + p.cost c) d' (damage_from_finite d' rest total)
          once in
      let (final, e, reach) =
        fill_complete groups (p.tidy (reached p states cs)) (u + p.cost c) d' rest kept q.1
          (λ x m. fin x (Memᴰ.tail m)) fits' total in
      (
        final,
        rw (mem-ne-empty (reached p states cs) once.1) e,
        subst (λ k. Reaches final k (damage_from d' rest)) (sym assoc) reach,
      )
