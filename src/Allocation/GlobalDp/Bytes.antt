-- ===== src/Allocation/GlobalDp/Bytes.antt =====
-- Bytes and quanta: where the quantum divides the budget and every size, a cost within the divided budget
-- is a number of bytes within the budget.
use native.Mathlib.Nat.{div-add-mod}
use shapleymcg.Common.{
  ℕ, ◌*◌, ◌/◌, ◌%◌, ◌≤◌, ◌<◌, ◌≡◌, false, not, List, arith, nat_eq, ltb→le, All, any-false,
}
use shapleymcg.Common.Double.{Double}
use shapleymcg.Allocation.Candidate.{Candidate}
use shapleymcg.Common.Sums.{sum_of}
use shapleymcg.Allocation.Fill.{Policy, damage_from}
use shapleymcg.Allocation.GlobalDp.{policy, indivisible}
use shapleymcg.Allocation.GlobalDp.PolicyLaws.{sum_of_divided}
use shapleymcg.Allocation.GlobalDp.Selection.{IsSelection}

scale_le : (q a b : ℕ) → a ≤ b → q * a ≤ q * b
scale_le q a b h = grind arith

unscale_le : (q a b : ℕ) → 0 < q → q * a ≤ q * b → a ≤ b
unscale_le q a b p h = grind arith

module _ {D M : Type 0} ⦃f : Double D⦄ where
  -- `sum(choice.stored_bytes for choice in selection)`
  abbrev pub bytes_of : List (Candidate D M) → ℕ
  bytes_of sel = sum_of (λ (c : Candidate D M). c.stored_bytes) sel

  -- The damages of a selection, added in the order of its units.
  abbrev pub damage_of : List (Candidate D M) → D
  damage_of sel = damage_from f.zero_point sel

  -- the policy of a run with this budget and quantum
  abbrev pub scheme : ℕ → ℕ → Policy D M
  scheme byte_budget quantum = policy (byte_budget / quantum) quantum

  module _ (cs : List (Candidate D M)) (byte_budget quantum : ℕ) (pos : 0 < quantum)
      (divides : indivisible cs byte_budget quantum ≡ false) where
    member_divides :
        (sel : List (Candidate D M))
        → IsSelection cs sel
        → All (λ c. c.stored_bytes % quantum ≡ 0) sel
    member_divides sel s c m =
        let all =
          any-false (λ (c : Candidate D M). not (nat_eq (c.stored_bytes % quantum) 0)) cs
            (ground (arith, divides)) c (s.members c m) in
        ground (arith, all)

    budget_divides : quantum * (byte_budget / quantum) ≡ byte_budget
    budget_divides = ground (arith, divides, div-add-mod byte_budget quantum)

    -- A cost within the divided budget is a number of bytes within the budget, and conversely.
    pub bytes_within :
        (sel : List (Candidate D M))
        → IsSelection cs sel
        → sum_of (scheme byte_budget quantum).cost sel ≤ byte_budget / quantum
        → bytes_of sel ≤ byte_budget
    bytes_within sel s h = omega (
      arith,
      scale_le quantum (sum_of (scheme byte_budget quantum).cost sel) (byte_budget / quantum) h,
      sum_of_divided (byte_budget / quantum) quantum sel (member_divides sel s),
      budget_divides,
    )

    pub cost_within :
        (sel : List (Candidate D M))
        → IsSelection cs sel
        → bytes_of sel ≤ byte_budget
        → sum_of (scheme byte_budget quantum).cost sel ≤ byte_budget / quantum
    cost_within sel s h =
        unscale_le quantum (sum_of (scheme byte_budget quantum).cost sel) (byte_budget / quantum)
          pos
          (omega (
            arith,
            sum_of_divided (byte_budget / quantum) quantum sel (member_divides sel s),
            budget_divides,
          ))

module _ (D M : Type 0) ⦃f : Double D⦄ (byte_budget quantum : ℕ) where
  pub over_budget :
      (k : ℕ)
      → (scheme {D = D} {M = M} byte_budget quantum).over k ≡ false
      → k ≤ byte_budget / quantum
  unfolding policy
  over_budget k h = ltb→le (byte_budget / quantum) k h

  pub over_budget_of_le :
      (k : ℕ)
      → k ≤ byte_budget / quantum
      → (scheme {D = D} {M = M} byte_budget quantum).over k ≡ false
  unfolding policy
  over_budget_of_le k h = ground arith
