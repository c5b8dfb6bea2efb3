-- ===== src/Allocation/GlobalDp/Total.antt =====
-- `allocate` returns whenever its input is valid and some selection with a finite damage fits the budget.
use shapleymcg.Common.{
  ℕ, ◌≤◌, ◌<◌, ◌≡◌, refl, String, true, false, Option, none, some, List, [], ◌∷◌, arith, ltb, ◌∈◌,
  All, Memᴰ, ◌==◌, string_keys,
}
use shapleymcg.Common.Dict.{Dict}
use shapleymcg.Common.Double.{Double, is_finite}
use shapleymcg.Common.Loops.{min_of, min_of_mem}
use shapleymcg.Common.Result.{ok, ◌>>=◌, raise_if, bind_ok, raise_if-false}
use shapleymcg.Common.Sort.{sorted}
use shapleymcg.Allocation.Candidate.{Candidate, Allocation}
use shapleymcg.Allocation.Table.{State, Table}
use shapleymcg.Allocation.Fill.{fill}
use shapleymcg.Allocation.GlobalDp.{
  invalid_budget_or_quantum, not_divisible_by_quantum, budget_infeasible, append_to,
  check_candidate, group_by_unit, key_lt, state_lt, choose, chosen, indivisible, first_states,
  allocate_grouped, allocate,
}
use shapleymcg.Allocation.GlobalDp.Grouping.{group_by_unit-IsGrouping, group_finite}
use shapleymcg.Allocation.GlobalDp.Bytes.{bytes_of, damage_of, scheme}
use shapleymcg.Allocation.GlobalDp.Selection.{IsSelection}
use shapleymcg.Allocation.GlobalDp.Run.{fill_reaches}

module _ {D M : Type 0} ⦃f : Double D⦄ where
  -- What the allocator asks of a candidate.
  pub record IsAdmissible (c : Candidate D M) : Type 0 where
    pub named_unit : (c.unit_id == "") ≡ false
    pub named_choice : (c.choice_id == "") ≡ false
    pub finite_damage : is_finite c.predicted_damage ≡ true

  check_candidate_ok : (c : Candidate D M) → IsAdmissible c → check_candidate c ≡ ok tt
  unfolding check_candidate
  check_candidate_ok c a = rw (a.named_unit, a.named_choice, a.finite_damage)

  group_by_unit_total :
      (cs : List (Candidate D M)) (d : Dict String (List (Candidate D M)))
      → All IsAdmissible cs
      → (g : Dict String (List (Candidate D M))) × (group_by_unit cs d ≡ ok g)
  unfolding group_by_unit
  group_by_unit_total [] d h = (d, refl)
  group_by_unit_total (c ∷ cs) d h =
      let (g, e) = group_by_unit_total cs (append_to c d) (λ x m. h x (Memᴰ.tail m)) in
      (
        g,
        bind_ok (check_candidate c) (λ _. group_by_unit cs (append_to c d))
            (check_candidate_ok c (h c (Memᴰ.head refl))) e,
      )

  chosen_some :
      (o : Option (State D M)) (x : State D M)
      → o ≡ some x
      → (a : Allocation D M) × (chosen o ≡ ok a)
  chosen_some none x e = absurd (cc)
  chosen_some (some (used, (damage, selected))) x e = (_, refl)

  choose_total :
      (states : Table D M) {x : State D M}
      → x ∈ states
      → (a : Allocation D M) × (choose states ≡ ok a)
  unfolding choose
  choose_total states m =
      let (x, e) = min_of_mem state_lt states m in chosen_some (min_of state_lt states) x e

  module _ (cs : List (Candidate D M)) (byte_budget quantum : ℕ) (pos : 0 < quantum)
      (divides : indivisible cs byte_budget quantum ≡ false) (sel : List (Candidate D M))
      (selection : IsSelection cs sel) (fits : bytes_of sel ≤ byte_budget)
      (total : is_finite (damage_of sel) ≡ true) where
    grouped_total :
        (g : Dict String (List (Candidate D M)))
        → group_by_unit cs [] ≡ ok g
        → (a : Allocation D M) × (allocate_grouped cs byte_budget quantum g ≡ ok a)
    unfolding allocate_grouped
    grouped_total [] h = (_, refl)
    grouped_total (e ∷ g) h =
        let (states, filled, (x, mx, _)) =
          fill_reaches cs byte_budget quantum pos divides (e ∷ g)
            (group_by_unit-IsGrouping cs (e ∷ g) h) sel selection (group_finite cs [] (e ∷ g) h)
            fits total in
        let (a, chose) = choose_total states mx in
        (
          a,
          bind_ok (raise_if (indivisible cs byte_budget quantum) not_divisible_by_quantum)
              (λ _.
                fill (scheme {D = D} {M = M} byte_budget quantum) budget_infeasible
                  (sorted key_lt (e ∷ g)) first_states
                >>= choose)
              (raise_if-false (indivisible cs byte_budget quantum) not_divisible_by_quantum divides)
              (bind_ok
                (fill (scheme {D = D} {M = M} byte_budget quantum) budget_infeasible
                  (sorted key_lt (e ∷ g)) first_states)
                choose filled chose),
        )

    -- On admissible candidates, with a positive quantum that divides the budget and every size, `allocate`
    -- returns an allocation whenever some selection of one candidate for each unit has its bytes within the
    -- budget and a finite damage.
    pub allocate_total :
        All IsAdmissible cs → (a : Allocation D M) × (allocate cs byte_budget quantum ≡ ok a)
    unfolding allocate
    allocate_total ok_cs =
        let (g, grouped) = group_by_unit_total cs [] ok_cs in
        let (a, e) = grouped_total g grouped in
        (
          a,
          bind_ok (raise_if (ltb quantum 1) invalid_budget_or_quantum)
              (λ _. group_by_unit cs [] >>= allocate_grouped cs byte_budget quantum)
              (raise_if-false (ltb quantum 1) invalid_budget_or_quantum (ground arith))
              (bind_ok (group_by_unit cs []) (allocate_grouped cs byte_budget quantum) grouped e),
        )
