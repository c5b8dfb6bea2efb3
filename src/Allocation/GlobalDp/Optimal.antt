-- ===== src/Allocation/GlobalDp/Optimal.antt =====
-- What `allocate` and `allocate_with_fixed_layer_cost` return: an optimal selection within the budget,
-- whenever there is one.
use shapleymcg.Common.{
  ℕ, ◌≤◌, ◌<◌, ◌≡◌, refl, sym, ap, ◌∙◌, subst, String, true, false, Option, none, some, List, [],
  ◌∷◌, arith, ltb, ltb→le, ◌∈◌, All, Bool-cases, inl, inr,
}
use shapleymcg.Common.Dict.{Dict}
use shapleymcg.Common.Double.{Double, ◌≼◌, is_finite, ≼_refl, ≼_trans}
use shapleymcg.Common.Loops.{min_of, min_of-All, min_of-Below}
use shapleymcg.Common.Result.{ok, ◌>>=◌, raise_if, bind-eq-ok, raise_if-eq-ok, ok_injective}
use shapleymcg.Common.Sort.{sorted}
use shapleymcg.Allocation.Candidate.{Candidate, Allocation}
use shapleymcg.Allocation.Table.{State, Table}
use shapleymcg.Allocation.Fill.{damage_from, fill}
use shapleymcg.Allocation.GlobalDp.{
  invalid_budget_or_quantum, not_divisible_by_quantum, budget_infeasible, group_by_unit, key_lt,
  state_lt, choose, chosen, indivisible, first_states, allocate_grouped, allocate,
}
use shapleymcg.Allocation.GlobalDp.Grouping.{IsGrouping, group_by_unit-IsGrouping, group_finite}
use shapleymcg.Allocation.GlobalDp.Bytes.{bytes_of, damage_of, scheme}
use shapleymcg.Allocation.GlobalDp.Selection.{
  IsSelection, IsSelection_of_Picks, Picks-of_IsSelection,
}
use shapleymcg.Allocation.GlobalDp.Run.{IsFinal, All-IsFinal, fill_reaches}

module _ {D M : Type 0} ⦃f : Double D⦄ where
  -- The allocation is a selection of the candidates within the budget, with its bytes and its damage, and
  -- no selection within the budget damages less.
  pub record IsOptimal (cs : List (Candidate D M)) (byte_budget : ℕ) (a : Allocation D M)
      : Type 0 where
    pub selection : IsSelection cs a.choices
    pub bytes : a.stored_bytes ≡ bytes_of a.choices
    pub damage : a.predicted_damage ≡ damage_of a.choices
    pub within : a.stored_bytes ≤ byte_budget
    pub least :
        (sel : List (Candidate D M))
        → IsSelection cs sel
        → bytes_of sel ≤ byte_budget
        → a.predicted_damage ≼ damage_of sel

  chosen_inv :
      (o : Option (State D M)) (a : Allocation D M)
      → chosen o ≡ ok a
      → (x : State D M) × (o ≡ some x)
        × (a.choices ≡ x.1.1)
        × (a.stored_bytes ≡ bytes_of x.1.1)
        × (a.predicted_damage ≡ x.1.0)
  chosen_inv none a h = absurd (cc)
  chosen_inv (some x) a h = (x, refl, ground (arith, h), ground (arith, h), ground (arith, h))

  state_lt_less : (a b : State D M) → state_lt a b ≡ true → a.1.0 ≼ b.1.0
  unfolding state_lt
  state_lt_less a b h = ground (arith, f.lt_asymm a.1.0 b.1.0)

  state_lt_not_less : (a b : State D M) → state_lt a b ≡ false → b.1.0 ≼ a.1.0
  unfolding state_lt
  state_lt_not_less a b h = ground arith

  -- The steps of a run that returns, from the groups on.
  grouped_inv :
      (cs : List (Candidate D M)) (byte_budget quantum : ℕ) (e : String × List (Candidate D M))
      (g : Dict String (List (Candidate D M))) (a : Allocation D M)
      → allocate_grouped cs byte_budget quantum (e ∷ g) ≡ ok a
      → (indivisible cs byte_budget quantum ≡ false)
        × (states : Table D M) × (fill
              (scheme byte_budget quantum)
              budget_infeasible
              (sorted key_lt (e ∷ g))
              first_states
            ≡ ok states)
        × (choose states ≡ ok a)
  unfolding allocate_grouped
  grouped_inv cs byte_budget quantum e g a h =
      let (u, p, q) =
        bind-eq-ok (raise_if (indivisible cs byte_budget quantum) not_divisible_by_quantum)
          (λ _.
            fill (scheme {D = D} {M = M} byte_budget quantum) budget_infeasible
              (sorted key_lt (e ∷ g)) first_states
            >>= choose)
          {b = a} h in
      let (states, r, s) =
        bind-eq-ok
          (fill (scheme {D = D} {M = M} byte_budget quantum) budget_infeasible
            (sorted key_lt (e ∷ g)) first_states)
          choose {b = a} q in
      (raise_if-eq-ok (indivisible cs byte_budget quantum) not_divisible_by_quantum p, states, r, s)

  -- No selection within the budget damages less than the least state.
  final_least :
      (cs : List (Candidate D M)) (byte_budget quantum : ℕ) (g : Dict String (List (Candidate D M)))
      (states : Table D M) (x : State D M)
      → 0 < quantum
      → indivisible cs byte_budget quantum ≡ false
      → IsGrouping cs g
      → All (λ c. is_finite c.predicted_damage ≡ true) cs
      → fill
          (scheme {D = D} {M = M} byte_budget quantum)
          budget_infeasible
          (sorted key_lt g)
          first_states
        ≡ ok states
      → min_of state_lt states ≡ some x
      → (sel : List (Candidate D M)) → IsSelection cs sel
      → bytes_of sel ≤ byte_budget
      → x.1.0 ≼ damage_of sel
  final_least cs byte_budget quantum g states x pos divides grouping fin filled least sel s fits =
      elim (Bool-cases (is_finite (damage_of sel))) [
        | inl total ↦
            let (states', filled', (y, my, dm)) =
              fill_reaches cs byte_budget quantum pos divides g grouping sel s fin fits total in
            let same : states' ≡ states = ok_injective (sym filled' ∙ filled) in
            let below =
              min_of-Below state_lt (λ (a b : State D M). a.1.0 ≼ b.1.0) (λ a. ≼_refl a.1.0)
                (λ a b c p q. ≼_trans a.1.0 b.1.0 c.1.0 p q) state_lt_less state_lt_not_less states
                least y (subst (λ t. y ∈ t) same my) in
            ≼_trans x.1.0 y.1.0 (damage_of sel) below dm
        | inr huge ↦ ≼_trans x.1.0 f.infinity (damage_of sel) (f.infinity_top x.1.0) huge
      ]

  -- The chosen state is as good as any.
  final-IsOptimal :
      (cs : List (Candidate D M)) (byte_budget quantum : ℕ) (g : Dict String (List (Candidate D M)))
      (states : Table D M) (a : Allocation D M)
      → 0 < quantum
      → indivisible cs byte_budget quantum ≡ false
      → IsGrouping cs g
      → All (λ c. is_finite c.predicted_damage ≡ true) cs
      → fill
          (scheme {D = D} {M = M} byte_budget quantum)
          budget_infeasible
          (sorted key_lt g)
          first_states
        ≡ ok states
      → choose states ≡ ok a
      → IsOptimal cs byte_budget a
  final-IsOptimal cs byte_budget quantum g states a pos divides grouping fin filled h =
      let (x, least, choices, bytes, damage) =
        chosen_inv (min_of state_lt states) a (unfold choose in h) in
      let final =
        min_of-All state_lt (IsFinal cs byte_budget quantum pos divides g grouping) states least
          (All-IsFinal cs byte_budget quantum pos divides g grouping states filled) in
      record {
        selection = subst (IsSelection cs) (sym choices) final.chosen;
        bytes = bytes ∙ ap bytes_of (sym choices);
        damage = damage ∙ final.damage ∙ ap damage_of (sym choices);
        within = subst (λ k. k ≤ byte_budget) (sym bytes) final.within;
        least = λ sel s fits.
            subst (λ d. d ≼ damage_of sel) (sym damage)
              (final_least cs byte_budget quantum g states x pos divides grouping fin filled least
                sel s fits);
      }

  nil_selection : (cs sel : List (Candidate D M)) → IsGrouping cs [] → IsSelection cs sel → sel ≡ []
  unfolding sorted
  nil_selection cs [] g s = refl
  nil_selection cs (c ∷ sel) g s = absurd (Picks-of_IsSelection g (c ∷ sel) s)

  empty_selection : (cs : List (Candidate D M)) → IsGrouping cs [] → IsSelection cs []
  unfolding sorted
  empty_selection cs g = IsSelection_of_Picks g [] tt

  -- No candidates, no units: the empty allocation.
  empty-IsOptimal :
      (cs : List (Candidate D M)) (byte_budget quantum : ℕ) (a : Allocation D M)
      → IsGrouping cs []
      → allocate_grouped cs byte_budget quantum [] ≡ ok a
      → IsOptimal cs byte_budget a
  unfolding allocate_grouped damage_from
  empty-IsOptimal cs byte_budget quantum a g h =
      let choices : a.choices ≡ [] = ground (arith, h) in
      let bytes : a.stored_bytes ≡ 0 = ground (arith, h) in
      let damage : a.predicted_damage ≡ f.zero_point = ground (arith, h) in
      record {
        selection = subst (IsSelection cs) (sym choices) (empty_selection cs g);
        bytes = bytes ∙ ap bytes_of (sym choices);
        damage = damage ∙ ap damage_of (sym choices);
        within = omega arith;
        least = λ sel s fits.
            subst (λ z. a.predicted_damage ≼ damage_of z) (sym (nil_selection cs sel g s))
              (subst (λ d. a.predicted_damage ≼ d) damage (≼_refl a.predicted_damage));
      }

  grouped-IsOptimal :
      (cs : List (Candidate D M)) (byte_budget quantum : ℕ) (g : Dict String (List (Candidate D M)))
      (a : Allocation D M)
      → 0 < quantum
      → group_by_unit cs [] ≡ ok g
      → allocate_grouped cs byte_budget quantum g ≡ ok a
      → IsOptimal cs byte_budget a
  grouped-IsOptimal cs byte_budget quantum [] a pos hg h =
      empty-IsOptimal cs byte_budget quantum a (group_by_unit-IsGrouping cs [] hg) h
  grouped-IsOptimal cs byte_budget quantum (e ∷ g) a pos hg h =
      let (divides, states, filled, c) = grouped_inv cs byte_budget quantum e g a h in
      final-IsOptimal cs byte_budget quantum (e ∷ g) states a pos divides
        (group_by_unit-IsGrouping cs (e ∷ g) hg) (group_finite cs [] (e ∷ g) hg) filled c

  -- The steps of a call that returns.
  allocate_inv :
      (cs : List (Candidate D M)) (byte_budget quantum : ℕ) (a : Allocation D M)
      → allocate cs byte_budget quantum ≡ ok a
      → (g : Dict String (List (Candidate D M))) × (0 < quantum)
        × (group_by_unit cs [] ≡ ok g)
        × (allocate_grouped cs byte_budget quantum g ≡ ok a)
  unfolding allocate
  allocate_inv cs byte_budget quantum a h =
      let (u, p, q) =
        bind-eq-ok (raise_if (ltb quantum 1) invalid_budget_or_quantum)
          (λ _. group_by_unit cs [] >>= allocate_grouped cs byte_budget quantum) {b = a} h in
      let (g, r, t) =
        bind-eq-ok (group_by_unit cs []) (allocate_grouped cs byte_budget quantum) {b = a} q in
      (g, ltb→le quantum 1 (raise_if-eq-ok (ltb quantum 1) invalid_budget_or_quantum p), r, t)

  -- What `allocate` returns is a selection of one candidate for each unit, in the order of the units, with
  -- the bytes and the damage that it states; its bytes are within the budget, and no selection whose bytes
  -- are within the budget has a smaller damage.
  pub allocate-IsOptimal :
      (cs : List (Candidate D M)) (byte_budget quantum : ℕ) (a : Allocation D M)
      → allocate cs byte_budget quantum ≡ ok a
      → IsOptimal cs byte_budget a
  allocate-IsOptimal cs byte_budget quantum a h =
      let (g, pos, grouped, rest) = allocate_inv cs byte_budget quantum a h in
      grouped-IsOptimal cs byte_budget quantum g a pos grouped rest
