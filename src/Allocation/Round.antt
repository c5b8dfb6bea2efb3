-- ===== src/Allocation/Round.antt =====
-- One round of an allocator: every state is extended by every choice of one unit, and the table keeps the
-- better of two states that use the same bytes. `over` is the test on the budget.
use shapleymcg.Common.{
  ℕ, ◌+◌, ◌≡◌, refl, inl, inr, Bool, true, false, List, [], ◌∷◌, ◌++◌, Bool-cases, if◌then◌else◌,
  ◌∈◌, All, Some, nat_keys,
}
use shapleymcg.Common.Dict.{get-mem}
use shapleymcg.Common.Double.{Double, ◌≼◌, ≼_refl, ≼_trans}
use shapleymcg.Common.Loops.{each_pair, each_pair-keeps, each_pair-hits}
use shapleymcg.Allocation.Candidate.{Candidate}
use shapleymcg.Allocation.Table.{
  Value, State, Table, offer, Holds, offer-Holds, offer-keeps, offer-All,
}

module _ {D M : Type 0} ⦃f : Double D⦄ (better : Value D M → Value D M → Bool) (over : ℕ → Bool)
    (cost : Candidate D M → ℕ) where
  abbrev pub extended : State D M → Candidate D M → State D M
  extended s choice =
      (s.0 + cost choice, (f.add s.1.0 choice.predicted_damage, s.1.1 ++ choice ∷ []))

  -- the body of the two loops over the states and the choices
  unfoldable pub relax : State D M → Candidate D M → Table D M → Table D M
  unfolding offer
  relax s choice t =
      if over (s.0 + cost choice)
      then t
      else offer better (s.0 + cost choice) (extended s choice).1 t

  unfoldable pub round : List (State D M) → List (Candidate D M) → Table D M
  unfolding relax each_pair
  round states choices = each_pair relax states choices []

  -- A state that a round makes extends a state by a choice, within the budget.
  pub record Extends (states : List (State D M)) (choices : List (Candidate D M)) (x : State D M)
      : Type 0 where
    pub state : State D M
    pub choice : Candidate D M
    pub from_states : state ∈ states
    pub from_choices : choice ∈ choices
    pub within : over x.0 ≡ false
    pub result : x ≡ extended state choice

  relax_over :
      (s : State D M) (c : Candidate D M) (t : Table D M)
      → over (s.0 + cost c) ≡ true
      → relax s c t ≡ t
  unfolding relax
  relax_over s c t h = rw h

  relax-offer :
      (s : State D M) (c : Candidate D M) (t : Table D M)
      → over (s.0 + cost c) ≡ false
      → relax s c t ≡ offer better (s.0 + cost c) (extended s c).1 t
  unfolding relax
  relax-offer s c t h = rw h

  pub round_sound :
      (states : List (State D M)) (choices : List (Candidate D M))
      → All (Extends states choices) (round states choices)
  round_sound states choices =
      unfold round in
      each_pair-keeps relax (All (Extends states choices)) states choices []
        (λ s c t ms mc h. elim (Bool-cases (over (s.0 + cost c))) [
          | inl p ↦ rw (relax_over s c t p) h
          | inr p ↦ rw (relax-offer s c t p) (
              offer-All better {P = Extends states choices} (s.0 + cost c) (extended s c).1 t h
                (record {
                  state = s;
                  choice = c;
                  from_states = ms;
                  from_choices = mc;
                  within = p;
                  result = refl;
                }))
        ])
        (λ x m. elim m [ ])

  module _ (better_le : (v w : Value D M) → better v w ≡ true → v.0 ≼ w.0)
      (worse_le : (v w : Value D M) → better v w ≡ false → w.0 ≼ v.0) where
    relax-keeps :
        (d : D) (k : ℕ) (s : State D M) (c : Candidate D M) (t : Table D M)
        → Holds better (λ w. w.0 ≼ d) k t
        → Holds better (λ w. w.0 ≼ d) k (relax s c t)
    relax-keeps d k s c t h = elim (Bool-cases (over (s.0 + cost c))) [
      | inl p ↦ rw (relax_over s c t p) h
      | inr p ↦ rw (relax-offer s c t p) (
          offer-keeps better (λ w. w.0 ≼ d) k (s.0 + cost c) (extended s c).1 t
            (λ v w b q. ≼_trans v.0 w.0 d (better_le v w b) q) h)
    ]

    relax-Holds :
        (s : State D M) (c : Candidate D M) (t : Table D M)
        → over (s.0 + cost c) ≡ false
        → Holds better (λ w. w.0 ≼ f.add s.1.0 c.predicted_damage) (s.0 + cost c) (relax s c t)
    relax-Holds s c t p =
        let d : D = f.add s.1.0 c.predicted_damage in
        rw (relax-offer s c t p) (
          offer-Holds better (λ w. w.0 ≼ d) (s.0 + cost c) (extended s c).1 t (≼_refl d)
            (λ w b. worse_le (extended s c).1 w b))

    round-Holds :
        (states : List (State D M)) (choices : List (Candidate D M)) (s : State D M)
        (c : Candidate D M)
        → s ∈ states
        → c ∈ choices
        → over (s.0 + cost c) ≡ false
        → Holds better
            (λ w. w.0 ≼ f.add s.1.0 c.predicted_damage)
            (s.0 + cost c)
            (round states choices)
    round-Holds states choices s c ms mc fits =
        let d : D = f.add s.1.0 c.predicted_damage in
        unfold round in
        each_pair-hits relax (Holds better (λ w. w.0 ≼ d) (s.0 + cost c)) states choices []
          (λ z y t _ _. relax-keeps d (s.0 + cost c) z y t) (λ t. relax-Holds s c t fits) ms mc

    -- Every extension within the budget is matched by an entry at its own cost.
    pub round_reaches :
        (states : List (State D M)) (choices : List (Candidate D M)) (s : State D M)
        (c : Candidate D M)
        → s ∈ states
        → c ∈ choices
        → over (s.0 + cost c) ≡ false
        → Some
            (λ x. (x.0 ≡ s.0 + cost c) × (x.1.0 ≼ f.add s.1.0 c.predicted_damage))
            (round states choices)
    round_reaches states choices s c ms mc fits =
        let (w, g, p) = round-Holds states choices s c ms mc fits in
        ((s.0 + cost c, w), get-mem (s.0 + cost c) (round states choices) g, (refl, p))
