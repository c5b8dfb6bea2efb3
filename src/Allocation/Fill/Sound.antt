-- ===== src/Allocation/Fill/Sound.antt =====
-- Every state that a fill ends with is a selection: one candidate for each unit, with its cost and damage.
use mathlib.Core.List.{append-nil, append_assoc}
use shapleymcg.Common.{
  ◌+◌, ◌≡◌, false, refl, sym, ap, ◌∙◌, subst, List, [], ◌∷◌, ◌++◌, arith, String, ◌∈◌, All,
}
use shapleymcg.Common.Result.{ok, raise_if, bind-eq-ok}
use shapleymcg.Common.Double.{Double}
use shapleymcg.Allocation.Candidate.{Candidate}
use shapleymcg.Common.Sums.{sum_of}
use shapleymcg.Allocation.Table.{State, Table}
use shapleymcg.Allocation.Round.{Extends, round_sound}
use shapleymcg.Allocation.Fill.{Groups, Picks, damage_from, Policy, reached, fill, is_empty}

-- What is tried and what is kept was there.
pub record KeepsItems {D M : Type 0} (p : Policy D M) : Type 0 where
  pub pick-mem : (cs : List (Candidate D M)) → All (λ c. c ∈ cs) (p.pick cs)
  pub tidy-mem : (t : Table D M) → All (λ x. x ∈ t) (p.tidy t)

module _ {D M E : Type 0} ⦃f : Double D⦄ (p : Policy D M) (infeasible : String → E) where
  -- What a state of the final table is: a state of the first one with a choice for each unit.
  pub record Completes (states : Table D M) (groups : Groups D M) (x : State D M) : Type 0 where
    pub start : State D M
    pub rest : List (Candidate D M)
    pub from_states : start ∈ states
    pub picks : Picks groups rest
    pub used : x.0 ≡ start.0 + sum_of p.cost rest
    pub damage : x.1.0 ≡ damage_from start.1.0 rest
    pub selected : x.1.1 ≡ start.1.1 ++ rest

  -- A successful fill went through the first unit's round.
  pub fill_step :
      (unit : String) (candidates : List (Candidate D M)) (groups : Groups D M)
      (states final : Table D M)
      → fill p infeasible ((unit, candidates) ∷ groups) states ≡ ok final
      → fill p infeasible groups (p.tidy (reached p states candidates)) ≡ ok final
  unfolding fill
  fill_step unit candidates groups states final h =
      let (_, _, e) =
        bind-eq-ok (raise_if (is_empty (reached p states candidates)) (infeasible unit))
          (λ _. fill p infeasible groups (p.tidy (reached p states candidates))) h in
      e

  fill_nil : (states final : Table D M) → fill p infeasible [] states ≡ ok final → states ≡ final
  unfolding fill
  fill_nil states final h = cc

  module _ (keeps : KeepsItems p) where
    Completes-Extends :
        (unit : String) (candidates : List (Candidate D M)) (groups : Groups D M)
        (states : Table D M) (x y : State D M)
        → Extends p.better p.over p.cost states (p.pick candidates) y
        → (rest : List (Candidate D M)) → Picks groups rest
        → x.0 ≡ y.0 + sum_of p.cost rest
        → x.1.0 ≡ damage_from y.1.0 rest
        → x.1.1 ≡ y.1.1 ++ rest
        → Completes states ((unit, candidates) ∷ groups) x
    unfolding sum_of damage_from
    Completes-Extends unit candidates groups states x y e rest q u d s = record {
      start = e.state;
      rest = e.choice ∷ rest;
      from_states = e.from_states;
      picks = (keeps.pick-mem candidates e.choice e.from_choices, q);
      used = omega (arith, u, ap (λ (z : State D M). z.0) e.result);
      damage = d ∙ ap (λ (z : State D M). damage_from z.1.0 rest) e.result;
      selected =
          s
          ∙ ap (λ (z : State D M). z.1.1 ++ rest) e.result
          ∙ append_assoc e.state.1.1 (e.choice ∷ []) rest;
    }

    -- Every final state completes a first one by a choice for each unit.
    pub fill_sound :
        (groups : Groups D M) (states final : Table D M)
        → fill p infeasible groups states ≡ ok final
        → All (Completes states groups) final
    fill_sound [] states final h x m = record {
      start = x;
      rest = [];
      from_states = subst (λ t. x ∈ t) (sym (fill_nil states final h)) m;
      picks = tt;
      used = unfold sum_of in omega arith;
      damage = unfold damage_from in refl;
      selected = sym (append-nil x.1.1);
    }
    fill_sound ((unit, candidates) ∷ groups) states final h x m =
        let c =
          fill_sound groups (p.tidy (reached p states candidates)) final
            (fill_step unit candidates groups states final h) x m in
        Completes-Extends unit candidates groups states x c.start
          (round_sound p.better p.over p.cost states (p.pick candidates) c.start
            (keeps.tidy-mem (reached p states candidates) c.start c.from_states))
          c.rest c.picks c.used c.damage c.selected

    -- Every final state is within the budget, if the first ones are.
    pub fill_within :
        (groups : Groups D M) (states final : Table D M)
        → All (λ x. p.over x.0 ≡ false) states
        → fill p infeasible groups states ≡ ok final
        → All (λ x. p.over x.0 ≡ false) final
    fill_within [] states final w h =
        subst (All (λ x. p.over x.0 ≡ false)) (fill_nil states final h) w
    fill_within ((unit, candidates) ∷ groups) states final w h =
        fill_within groups (p.tidy (reached p states candidates)) final
          (λ x m.
            (round_sound p.better p.over p.cost states (p.pick candidates) x
              (keeps.tidy-mem (reached p states candidates) x m)).within)
          (fill_step unit candidates groups states final h)
