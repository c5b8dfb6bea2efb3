-- ===== src/Allocation/GlobalDp.antt =====
-- `allocate` and `allocate_with_fixed_layer_cost` of src/quant_pipeline/allocation/global_dp.py.
pub mod Grouping
pub mod PolicyLaws
pub mod Selection
pub mod Bytes
pub mod Run
pub mod Optimal
pub mod Total
pub mod FixedCost
use shapleymcg.Common.{
  ℕ, ◌+◌, ◌-◌, ◌/◌, ◌%◌, String, Bool, true, false, not, ◌&&◌, ◌||◌, Option, none, some, List, [],
  ◌∷◌, ◌++◌, ltb, nat_eq, str_ltb, any, if◌then◌else◌, ◌==◌, string_keys,
}
use shapleymcg.Common.Dict.{Dict, get, put}
use shapleymcg.Common.Double.{Double, is_finite}
use shapleymcg.Common.Loops.{min_of}
use shapleymcg.Common.Result.{Result, ok, err, ◌>>=◌, ◌>>◌, raise_if}
use shapleymcg.Common.Sort.{sorted}
use shapleymcg.Allocation.Candidate.{Candidate, Allocation, AccountedAllocation}
use shapleymcg.Common.Sums.{sum_of}
use shapleymcg.Allocation.Staircase.{staircase, pareto_frontier}
use shapleymcg.Allocation.Table.{Value, State, Table}
use shapleymcg.Allocation.Fill.{Groups, Policy, fill}

-- The exceptions of the allocator, by what raises them.
pub data AllocationError : Type 0 where
  invalid_budget_or_quantum empty_unit_id empty_choice_id damage_not_finite : AllocationError
  not_divisible_by_quantum no_states : AllocationError
  budget_infeasible : String → AllocationError
  fixed_payload_exceeds_budget accounted_total_exceeds_budget : AllocationError

module _ {D M : Type 0} where
  abbrev pub key_lt : String × List (Candidate D M) → String × List (Candidate D M) → Bool
  key_lt a b = str_ltb a.0 b.0

  abbrev pub cost_lt : State D M → State D M → Bool
  cost_lt a b = ltb a.0 b.0

  -- the allocation that is built of the chosen state; `min` raises on an empty table
  abbrev pub chosen : Option (State D M) → Result AllocationError (Allocation D M)
  chosen none = err no_states
  chosen (some (used, (damage, selected))) = ok (record {
    choices = selected;
    stored_bytes = sum_of (λ c. c.stored_bytes) selected;
    predicted_damage = damage;
  })

module _ {D M : Type 0} ⦃f : Double D⦄ where
  -- `grouped.setdefault(candidate.unit_id, []).append(candidate)`
  unfoldable pub append_to :
      Candidate D M → Dict String (List (Candidate D M)) → Dict String (List (Candidate D M))
  append_to c grouped = elim (get c.unit_id grouped) [
    | none ↦ put c.unit_id (c ∷ []) grouped
    | some cs ↦ put c.unit_id (cs ++ c ∷ []) grouped
  ]

  -- `for candidate in candidates: grouped.setdefault(candidate.unit_id, []).append(candidate)`
  unfoldable pub group_all :
      List (Candidate D M) → Dict String (List (Candidate D M)) → Dict String (List (Candidate D M))
  unfolding append_to
  group_all [] grouped = grouped
  group_all (c ∷ cs) grouped = group_all cs (append_to c grouped)

  unfoldable pub check_candidate : Candidate D M → Result AllocationError (Unit {0})
  check_candidate c = do
    raise_if (c.unit_id == "") empty_unit_id
    raise_if (c.choice_id == "") empty_choice_id
    raise_if (not (is_finite c.predicted_damage)) damage_not_finite

  -- the loop that checks and groups the candidates
  unfoldable pub group_by_unit :
      List (Candidate D M)
      → Dict String (List (Candidate D M))
      → Result AllocationError (Dict String (List (Candidate D M)))
  unfolding append_to check_candidate
  group_by_unit [] grouped = ok grouped
  group_by_unit (c ∷ cs) grouped = do check_candidate c; group_by_unit cs (append_to c grouped)

  -- `new_damage < previous[0]`
  abbrev pub less_damage : Value D M → Value D M → Bool
  less_damage v w = f.lt v.0 w.0

  -- the loop over `sorted(new_states)`; it meets the costs in order, so that each write is a new last entry
  unfoldable pub prune : Table D M → Table D M
  unfolding staircase sorted
  prune new_states = staircase (λ (s : State D M). s.1.0) f.infinity (sorted cost_lt new_states)

  unfoldable pub policy : ℕ → ℕ → Policy D M
  unfolding prune pareto_frontier
  policy budget quantum = record {
    better = less_damage;
    over = λ used. ltb budget used;
    cost = λ c. c.stored_bytes / quantum;
    pick = pareto_frontier;
    tidy = prune;
  }

  -- `key=lambda item: (item[1][0], item[0])`
  unfoldable pub state_lt : State D M → State D M → Bool
  state_lt a b = f.lt a.1.0 b.1.0 || not (f.lt b.1.0 a.1.0) && ltb a.0 b.0

  -- `min(states.items(), key=...)`
  unfoldable pub choose : Table D M → Result AllocationError (Allocation D M)
  unfolding min_of state_lt sum_of
  choose states = chosen (min_of state_lt states)

  abbrev pub indivisible : List (Candidate D M) → ℕ → ℕ → Bool
  indivisible candidates byte_budget quantum =
      not (nat_eq (byte_budget % quantum) 0)
      || any (λ (c : Candidate D M). not (nat_eq (c.stored_bytes % quantum) 0)) candidates

  -- `{0: (0.0, ())}`
  abbrev pub first_states : Table D M
  first_states = (0, (f.zero_point, [])) ∷ []

  -- what follows the grouping
  unfoldable pub allocate_grouped :
      List (Candidate D M)
      → ℕ
      → ℕ
      → Dict String (List (Candidate D M))
      → Result AllocationError (Allocation D M)
  unfolding policy choose fill sorted
  allocate_grouped candidates byte_budget quantum [] =
      ok (record { choices = []; stored_bytes = 0; predicted_damage = f.zero_point })
  allocate_grouped candidates byte_budget quantum (g ∷ gs) = do
    raise_if (indivisible candidates byte_budget quantum) not_divisible_by_quantum
    states ←
        fill (policy (byte_budget / quantum) quantum) budget_infeasible (sorted key_lt (g ∷ gs))
          first_states
    choose states

  unfoldable pub allocate : List (Candidate D M) → ℕ → ℕ → Result AllocationError (Allocation D M)
  unfolding group_by_unit allocate_grouped
  allocate candidates byte_budget quantum = do
    raise_if (ltb quantum 1) invalid_budget_or_quantum
    grouped ← group_by_unit candidates []
    allocate_grouped candidates byte_budget quantum grouped

  unfoldable pub allocate_with_fixed_layer_cost :
      List (Candidate D M) → ℕ → ℕ → ℕ → Result AllocationError (AccountedAllocation D M)
  unfolding allocate
  allocate_with_fixed_layer_cost candidates byte_budget fixed_layer_shared_bytes quantum = do
    raise_if (ltb byte_budget fixed_layer_shared_bytes) fixed_payload_exceeds_budget
    result ← allocate candidates (byte_budget - fixed_layer_shared_bytes) quantum
    let total = result.stored_bytes + fixed_layer_shared_bytes
    raise_if (ltb byte_budget total) accounted_total_exceeds_budget
    ok (record {
      choices = result.choices;
      variable_payload_bytes = result.stored_bytes;
      fixed_layer_shared_bytes = fixed_layer_shared_bytes;
      stored_bytes = total;
      predicted_damage = result.predicted_damage;
    })
