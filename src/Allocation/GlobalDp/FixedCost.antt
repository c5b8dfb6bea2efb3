-- ===== src/Allocation/GlobalDp/FixedCost.antt =====
-- `allocate_with_fixed_layer_cost`: the fixed bytes are charged once, and the rest is allocated optimally.
use shapleymcg.Common.{ℕ, ◌+◌, ◌-◌, ◌≤◌, ◌≡◌, refl, sym, List, arith, ltb, ltb→le, subst}
use shapleymcg.Common.Double.{Double}
use shapleymcg.Common.Result.{
  Result, ok, ◌>>=◌, ◌>>◌, raise_if, bind-eq-ok, raise_if-eq-ok, ok_injective, bind_ok,
  raise_if-false,
}
use shapleymcg.Allocation.Candidate.{Candidate, Allocation, AccountedAllocation}
use shapleymcg.Allocation.GlobalDp.{
  AllocationError, fixed_payload_exceeds_budget, accounted_total_exceeds_budget, allocate,
  allocate_with_fixed_layer_cost,
}
use shapleymcg.Allocation.GlobalDp.Optimal.{IsOptimal, allocate-IsOptimal}

module _ {D M : Type 0} ⦃f : Double D⦄ where
  -- the accounted allocation that a plain one gives
  abbrev pub accounted : ℕ → Allocation D M → AccountedAllocation D M
  accounted fixed a = record {
    choices = a.choices;
    variable_payload_bytes = a.stored_bytes;
    fixed_layer_shared_bytes = fixed;
    stored_bytes = a.stored_bytes + fixed;
    predicted_damage = a.predicted_damage;
  }

  -- the last test and the result
  account : ℕ → ℕ → Allocation D M → Result AllocationError (AccountedAllocation D M)
  account byte_budget fixed a =
      raise_if (ltb byte_budget (a.stored_bytes + fixed)) accounted_total_exceeds_budget
      >> ok (accounted fixed a)

  -- Where the fixed bytes fit the budget and the rest of the budget can be allocated, the fixed bytes are
  -- added to that allocation, and the test on the total, which would raise, passes: the total is within the
  -- budget.
  pub allocate_with_fixed_layer_cost_total :
      (cs : List (Candidate D M)) (byte_budget fixed quantum : ℕ) (a : Allocation D M)
      → fixed ≤ byte_budget
      → allocate cs (byte_budget - fixed) quantum ≡ ok a
      → (allocate_with_fixed_layer_cost cs byte_budget fixed quantum ≡ ok (accounted fixed a))
        × ((accounted fixed a).stored_bytes ≤ byte_budget)
  unfolding allocate_with_fixed_layer_cost account
  allocate_with_fixed_layer_cost_total cs byte_budget fixed quantum a fits h =
      let optimal = allocate-IsOptimal cs (byte_budget - fixed) quantum a h in
      let total : a.stored_bytes + fixed ≤ byte_budget = omega (arith, optimal.within) in
      (
        bind_ok (raise_if (ltb byte_budget fixed) fixed_payload_exceeds_budget)
            (λ _. allocate cs (byte_budget - fixed) quantum >>= account byte_budget fixed)
            (raise_if-false (ltb byte_budget fixed) fixed_payload_exceeds_budget (ground arith))
            (bind_ok (allocate cs (byte_budget - fixed) quantum) (account byte_budget fixed) h (
              bind_ok
                (raise_if (ltb byte_budget (a.stored_bytes + fixed)) accounted_total_exceeds_budget)
                (λ _. ok (accounted fixed a))
                (raise_if-false (ltb byte_budget (a.stored_bytes + fixed))
                  accounted_total_exceeds_budget (ground arith))
                refl)),
        total,
      )

  -- What it returns is the account of an optimal allocation of the budget less the fixed bytes, which are
  -- within the budget.
  pub allocate_with_fixed_layer_cost-IsOptimal :
      (cs : List (Candidate D M)) (byte_budget fixed quantum : ℕ) (r : AccountedAllocation D M)
      → allocate_with_fixed_layer_cost cs byte_budget fixed quantum ≡ ok r
      → (fixed ≤ byte_budget)
        × (a : Allocation D M) × IsOptimal cs (byte_budget - fixed) a
        × (r ≡ accounted fixed a)
        × (r.stored_bytes ≤ byte_budget)
  unfolding allocate_with_fixed_layer_cost account
  allocate_with_fixed_layer_cost-IsOptimal cs byte_budget fixed quantum r h =
      let (u, p, q) =
        bind-eq-ok (raise_if (ltb byte_budget fixed) fixed_payload_exceeds_budget)
          (λ _. allocate cs (byte_budget - fixed) quantum >>= account byte_budget fixed) {b = r}
          h in
      let (a, e, t) =
        bind-eq-ok (allocate cs (byte_budget - fixed) quantum) (account byte_budget fixed) {b = r}
          q in
      let (v, s, w) =
        bind-eq-ok
          (raise_if (ltb byte_budget (a.stored_bytes + fixed)) accounted_total_exceeds_budget)
          (λ _. ok (accounted fixed a)) {b = r} t in
      let same : r ≡ accounted fixed a = ground (arith, ok_injective w) in
      (
        ltb→le byte_budget fixed
            (raise_if-eq-ok (ltb byte_budget fixed) fixed_payload_exceeds_budget p),
        a,
        allocate-IsOptimal cs (byte_budget - fixed) quantum a e,
        same,
        subst (λ (z : AccountedAllocation D M). z.stored_bytes ≤ byte_budget) (sym same)
            (ltb→le byte_budget (a.stored_bytes + fixed) (
              raise_if-eq-ok (ltb byte_budget (a.stored_bytes + fixed))
                accounted_total_exceeds_budget s)),
      )
