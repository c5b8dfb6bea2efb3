-- ===== src/Allocation/Staircase.antt =====
-- The loop that walks candidates or states in the order of their cost and keeps those whose damage is
-- below all that it has met: `pareto_frontier`, and the pruning of the table of states.
use shapleymcg.Common.{
  ℕ, ◌≤◌, ◌≡◌, refl, true, false, ◌⊎◌, inl, inr, List, [], ◌∷◌, Bool-cases, if◌then◌else◌, ◌∈◌,
  Some, Memᴰ, mem_under,
}
use shapleymcg.Common.Sort.{sorted, IsAscending, sorted-mem, mem-sorted, sorted-IsAscending}
use shapleymcg.Common.Double.{Double, ◌≼◌, is_finite, ≼_refl}
use native.Mathlib.Nat.{le_refl}
use shapleymcg.Allocation.Candidate.{
  Candidate, candidate_lt, candidate_lt_rises, candidate_lt_falls,
}

module _ {D X : Type 0} ⦃f : Double D⦄ (damage : X → D) where
  -- `for x in xs: if damage(x) < best: keep(x); best = damage(x)`
  unfoldable pub staircase : D → List X → List X
  staircase best [] = []
  staircase best (x ∷ xs) =
      let below = f.lt (damage x) best in
      let rest = staircase (if below then damage x else best) xs in if below then x ∷ rest else rest

  staircase_keep :
      (best : D) (x : X) (xs : List X)
      → f.lt (damage x) best ≡ true
      → staircase best (x ∷ xs) ≡ x ∷ staircase (damage x) xs
  unfolding staircase
  staircase_keep best x xs e = rw e

  staircase_skip :
      (best : D) (x : X) (xs : List X)
      → f.lt (damage x) best ≡ false
      → staircase best (x ∷ xs) ≡ staircase best xs
  unfolding staircase
  staircase_skip best x xs e = rw e

  pub staircase-mem : (best : D) (xs : List X) {x : X} → x ∈ staircase best xs → x ∈ xs
  staircase-mem best [] m = unfold staircase in m
  staircase-mem best (y ∷ xs) {x} m = elim (Bool-cases (f.lt (damage y) best)) [
    | inl e ↦ mem_under (staircase-mem (damage y) xs) (rw (staircase_keep best y xs e) at m)
    | inr e ↦ Memᴰ.tail (staircase-mem best xs (rw (staircase_skip best y xs e) at m))
  ]

  module _ (cost : X → ℕ) where
    -- `y` costs no more than `x` and damages no more.
    abbrev pub Dominates : X → X → Type 0
    Dominates y x = (cost y ≤ cost x) × (damage y ≼ damage x)

    Some-head :
        (x y : X) (xs : List X)
        → cost y ≤ cost x
        → (damage y ≼ damage x) ⊎ Some (λ z. Dominates z x) xs
        → Some (λ z. Dominates z x) (y ∷ xs)
    Some-head x y xs h (inl p) = (y, Memᴰ.head refl, (h, p))
    Some-head x y xs h (inr (z, m, p)) = (z, Memᴰ.tail m, p)

    -- Every item is dominated by one that is kept, unless its damage was matched before.
    pub staircase-Dominates :
        (best : D) (xs : List X) (x : X)
        → IsAscending cost xs
        → x ∈ xs
        → (best ≼ damage x) ⊎ Some (λ y. Dominates y x) (staircase best xs)
    staircase-Dominates best [] x h m = elim m [ ]
    staircase-Dominates best (y ∷ xs) x h (Memᴰ.head e) = elim (Bool-cases (f.lt (damage y) best)) [
      | inl p ↦ inr (
          rw (staircase_keep best y xs p)
            (y, Memᴰ.head refl, (rw e (le_refl (cost y)), rw e (≼_refl (damage y)))))
      | inr p ↦ inl (rw e p)
    ]
    staircase-Dominates best (y ∷ xs) x h (Memᴰ.tail m) = elim (Bool-cases (f.lt (damage y) best)) [
      | inl p ↦ inr (
          rw (staircase_keep best y xs p) (
            Some-head x y (staircase (damage y) xs) (h.0 x m)
              (staircase-Dominates (damage y) xs x h.1 m)))
      | inr p ↦ rw (staircase_skip best y xs p) (staircase-Dominates best xs x h.1 m)
    ]

    -- From no minimum yet, every item with finite damage is dominated.
    pub staircase_complete :
        (xs : List X) (x : X)
        → IsAscending cost xs
        → x ∈ xs
        → is_finite (damage x) ≡ true
        → Some (λ y. Dominates y x) (staircase f.infinity xs)
    staircase_complete xs x h m fin = elim (staircase-Dominates f.infinity xs x h m) [
      | inl p ↦ cc
      | inr s ↦ s
    ]

module _ {D M : Type 0} ⦃f : Double D⦄ where
  unfoldable pub pareto_frontier : List (Candidate D M) → List (Candidate D M)
  unfolding staircase sorted candidate_lt
  pareto_frontier candidates =
      staircase (λ c. c.predicted_damage) f.infinity (sorted candidate_lt candidates)

  pub pareto_frontier-mem :
      (candidates : List (Candidate D M)) {c : Candidate D M}
      → c ∈ pareto_frontier candidates
      → c ∈ candidates
  pareto_frontier-mem candidates {c} m = mem-sorted candidate_lt candidates (
      staircase-mem (λ (c : Candidate D M). c.predicted_damage) f.infinity
        (sorted candidate_lt candidates) (unfold pareto_frontier in m))

  pub pareto_frontier_complete :
      (candidates : List (Candidate D M)) (c : Candidate D M)
      → c ∈ candidates
      → is_finite c.predicted_damage ≡ true
      → Some
          (λ b. (b.stored_bytes ≤ c.stored_bytes) × (b.predicted_damage ≼ c.predicted_damage))
          (pareto_frontier candidates)
  pareto_frontier_complete candidates c m fin =
      let all =
        staircase_complete (λ (c : Candidate D M). c.predicted_damage) (λ c. c.stored_bytes)
          (sorted candidate_lt candidates) c
          (sorted-IsAscending candidate_lt (λ c. c.stored_bytes) candidate_lt_rises
            candidate_lt_falls candidates)
          (sorted-mem candidate_lt candidates m) fin in
      unfold pareto_frontier in all
