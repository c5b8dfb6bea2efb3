-- ===== src/Allocation/GlobalDp/Run.antt =====
-- A run of `allocate` over its groups: every state of the last table is a selection within the budget, and
-- every selection within the budget is reached.
use native.Mathlib.Nat.{zero-add, le_refl}
use shapleymcg.Common.{
  ℕ, ◌+◌, ◌/◌, ◌≤◌, ◌<◌, ◌≡◌, refl, sym, ap, ◌∙◌, subst, String, false, true, List, [], ◌++◌, arith,
  All, All-cons, Some, Memᴰ, mem_one,
}
use shapleymcg.Common.Dict.{Dict}
use shapleymcg.Common.Double.{Double, ◌≼◌, is_finite, ≼_refl}
use shapleymcg.Common.Result.{ok}
use shapleymcg.Common.Sort.{sorted}
use shapleymcg.Allocation.Candidate.{Candidate}
use shapleymcg.Common.Sums.{sum_of}
use shapleymcg.Allocation.Table.{State, Table}
use shapleymcg.Allocation.Fill.{Picks, damage_from, fill}
use shapleymcg.Allocation.Fill.Sound.{fill_sound, fill_within}
use shapleymcg.Allocation.Fill.Complete.{fill_complete}
use shapleymcg.Allocation.GlobalDp.{budget_infeasible, key_lt, indivisible, first_states}
use shapleymcg.Allocation.GlobalDp.Grouping.{IsGrouping}
use shapleymcg.Allocation.GlobalDp.PolicyLaws.{policy-KeepsItems, policy-Covers}
use shapleymcg.Allocation.GlobalDp.Bytes.{
  bytes_of, damage_of, scheme, bytes_within, cost_within, over_budget, over_budget_of_le,
}
use shapleymcg.Allocation.GlobalDp.Selection.{
  IsSelection, IsSelection_of_Picks, Picks-of_IsSelection,
}

module _ {D M : Type 0} ⦃f : Double D⦄ where
  module _ (cs : List (Candidate D M)) (byte_budget quantum : ℕ) (pos : 0 < quantum)
      (divides : indivisible cs byte_budget quantum ≡ false)
      (g : Dict String (List (Candidate D M))) (grouping : IsGrouping cs g) where
    -- What every state of the last table is.
    pub record IsFinal (x : State D M) : Type 0 where
      pub chosen : IsSelection cs x.1.1
      pub damage : x.1.0 ≡ damage_of x.1.1
      pub within : bytes_of x.1.1 ≤ byte_budget

    IsFinal-of_start :
        (x s : State D M) (rest : List (Candidate D M))
        → s ≡ (0, (f.zero_point, []))
        → Picks (sorted key_lt g) rest
        → x.0 ≡ s.0 + sum_of (scheme {D = D} {M = M} byte_budget quantum).cost rest
        → x.1.0 ≡ damage_from s.1.0 rest
        → x.1.1 ≡ s.1.1 ++ rest
        → (scheme {D = D} {M = M} byte_budget quantum).over x.0 ≡ false
        → IsFinal x
    IsFinal-of_start x s rest e p u d l w =
        let cost = (scheme {D = D} {M = M} byte_budget quantum).cost in
        let sel : x.1.1 ≡ rest = l ∙ ap (λ (z : State D M). z.1.1 ++ rest) e in
        let is_sel : IsSelection cs x.1.1 =
          subst (IsSelection cs) (sym sel) (IsSelection_of_Picks grouping rest p) in
        let used : x.0 ≡ sum_of cost x.1.1 =
          u
          ∙ ap (λ (z : State D M). z.0 + sum_of cost rest) e
          ∙ zero-add (sum_of cost rest)
          ∙ ap (sum_of cost) (sym sel) in
        record {
          chosen = is_sel;
          damage =
              d
              ∙ ap (λ (z : State D M). damage_from z.1.0 rest) e
              ∙ ap (damage_from f.zero_point) (sym sel);
          within = bytes_within cs byte_budget quantum pos divides x.1.1 is_sel (
              subst (λ k. k ≤ byte_budget / quantum) used
                (over_budget D M byte_budget quantum x.0 w));
        }

    pub All-IsFinal :
        (states : Table D M)
        → fill
            (scheme {D = D} {M = M} byte_budget quantum)
            budget_infeasible
            (sorted key_lt g)
            first_states
          ≡ ok states
        → All IsFinal states
    All-IsFinal states filled x m =
        let keeps = policy-KeepsItems (byte_budget / quantum) quantum in
        let c =
          fill_sound (scheme {D = D} {M = M} byte_budget quantum) budget_infeasible keeps
            (sorted key_lt g) first_states states filled x m in
        IsFinal-of_start x c.start c.rest (mem_one c.from_states) c.picks c.used c.damage c.selected
          (fill_within (scheme {D = D} {M = M} byte_budget quantum) budget_infeasible keeps
            (sorted key_lt g) first_states states
            (All-cons (over_budget_of_le D M byte_budget quantum 0 (omega arith))
              (λ y k. absurd (elim k [ ])))
            filled x m)

    -- Every selection within the budget whose total is finite is reached.
    pub fill_reaches :
        (sel : List (Candidate D M))
        → IsSelection cs sel
        → All (λ c. is_finite c.predicted_damage ≡ true) cs
        → bytes_of sel ≤ byte_budget
        → is_finite (damage_of sel) ≡ true
        → (states : Table D M) × (fill
              (scheme {D = D} {M = M} byte_budget quantum)
              budget_infeasible
              (sorted key_lt g)
              first_states
            ≡ ok states)
          × Some (λ x. x.1.0 ≼ damage_of sel) states
    fill_reaches sel s fin fits total =
        let cost = (scheme {D = D} {M = M} byte_budget quantum).cost in
        let (states, e, (x, mx, (_, dm))) =
          fill_complete (scheme {D = D} {M = M} byte_budget quantum) budget_infeasible ◌≤◌
            (policy-Covers (byte_budget / quantum) quantum) (sorted key_lt g) first_states 0
            f.zero_point sel
            ((0, (f.zero_point, [])), Memᴰ.head refl, (le_refl 0, ≼_refl f.zero_point))
            (Picks-of_IsSelection grouping sel s) (λ c m. fin c (s.members c m))
            (over_budget_of_le D M byte_budget quantum (0 + sum_of cost sel) (
              subst (λ k. k ≤ byte_budget / quantum) (sym (zero-add (sum_of cost sel)))
                (cost_within cs byte_budget quantum pos divides sel s fits)))
            total in
        (states, e, (x, mx, dm))
