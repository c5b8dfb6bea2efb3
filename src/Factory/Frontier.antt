-- ===== src/Factory/Frontier.antt =====
-- `_internal_frontier`: the private profiles of one compatibility domain. With `preserve_every_cost` it
-- keeps the best selection at every cost, and without it the Pareto frontier.
pub mod Covers
pub mod Profiles
use shapleymcg.Common.{
  ℕ, ◌%◌, ◌≡◌, String, Bool, true, false, not, ◌&&◌, ◌||◌, List, [], ◌∷◌, map, ltb, nat_eq, str_ltb,
  any, all, if◌then◌else◌, ◌==◌, string_keys,
}
use shapleymcg.Common.Dict.{Dict, keys, same_set}
use shapleymcg.Common.Double.{Double}
use shapleymcg.Common.Result.{Result, ok, err, ◌>>=◌, ◌>>◌, raise_if}
use shapleymcg.Common.Sort.{sorted}
use shapleymcg.Allocation.Candidate.{Candidate}
use shapleymcg.Allocation.Staircase.{pareto_frontier}
use shapleymcg.Allocation.Table.{State, Table, offer}
use shapleymcg.Allocation.Fill.{Policy, rounds}
use shapleymcg.Allocation.GlobalDp.{group_all, key_lt, cost_lt, less_damage, prune, first_states}
use shapleymcg.Factory.Metadata.{FactoryError, private_cost_not_divisible}

-- What the source keeps as a candidate of the unit "internal-profile", under a name that it does not read:
-- the bytes and the damage of a private selection, and the selection.
pub record Profile (D M : Type 0) : Type 0 where
  pub stored_bytes : ℕ
  pub predicted_damage : D
  pub selected_candidates : List (Candidate D M)

abbrev pub profile_of : {D M : Type 0} → State D M → Profile D M
profile_of (used, (damage, selected)) = record {
  stored_bytes = used;
  predicted_damage = damage;
  selected_candidates = selected;
}

module _ {D M : Type 0} ⦃f : Double D⦄ where
  -- `(a.predicted_damage, a.choice_id) < (b.predicted_damage, b.choice_id)`
  unfoldable pub cheaper : Candidate D M → Candidate D M → Bool
  cheaper a b =
      f.lt a.predicted_damage b.predicted_damage
      || not (f.lt b.predicted_damage a.predicted_damage) && str_ltb a.choice_id b.choice_id

  unfoldable pub fill_costs : List (Candidate D M) → Dict ℕ (Candidate D M) → Dict ℕ (Candidate D M)
  unfolding offer cheaper
  fill_costs [] best = best
  fill_costs (c ∷ cs) best = fill_costs cs (offer cheaper c.stored_bytes c best)

  -- `list(best_by_cost.values())`
  unfoldable pub best_by_cost : List (Candidate D M) → List (Candidate D M)
  unfolding fill_costs
  best_by_cost cs = map (λ (e : ℕ × Candidate D M). e.1) (fill_costs cs [])

  unfoldable pub frontier_policy : Bool → Policy D M
  unfolding best_by_cost pareto_frontier prune
  frontier_policy preserve_every_cost = record {
    better = less_damage;
    over = λ used. false;
    cost = λ c. c.stored_bytes;
    pick = λ cs. if preserve_every_cost then best_by_cost cs else pareto_frontier cs;
    tidy = λ t. if preserve_every_cost then t else prune t;
  }

  abbrev pub some_indivisible : Dict String (List (Candidate D M)) → ℕ → Bool
  some_indivisible grouped quantum =
      any
        (λ (e : String × List (Candidate D M)).
          any (λ (c : Candidate D M). not (nat_eq (c.stored_bytes % quantum) 0)) e.1)
        grouped

  -- the states after the last unit
  unfoldable pub frontier_states : Dict String (List (Candidate D M)) → Bool → Table D M
  unfolding frontier_policy rounds sorted
  frontier_states grouped preserve_every_cost =
      rounds (frontier_policy preserve_every_cost) (sorted key_lt grouped) first_states

  unfoldable pub internal_frontier :
      List (Candidate D M) → List String → ℕ → Bool → Result FactoryError (List (Profile D M))
  unfolding group_all frontier_states sorted
  internal_frontier candidates expected_units quantum preserve_every_cost =
      let grouped = group_all candidates [] in
      if not (same_set (keys grouped) expected_units) then ok [] else (do
        raise_if (ltb quantum 1 || some_indivisible grouped quantum) private_cost_not_divisible
        ok (map profile_of (sorted cost_lt (frontier_states grouped preserve_every_cost))))
