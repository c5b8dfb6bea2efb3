-- ===== src/Allocation/Fill/Rounds.antt =====
-- The loop that raises nothing: where the raising one returns it has the same result, and where that one
-- raises it ends with an empty table.
use shapleymcg.Common.{
  ◌≡◌, refl, ap, ◌∙◌, String, ◌⊎◌, inl, inr, true, List, [], ◌∷◌, ◌∈◌, All, Bool-cases, Memᴰ, subst,
  sym,
}
use shapleymcg.Common.Double.{Double}
use shapleymcg.Common.Result.{ok, ok_injective}
use shapleymcg.Allocation.Candidate.{Candidate}
use shapleymcg.Allocation.Table.{Table}
use shapleymcg.Allocation.Round.{round}
use shapleymcg.Allocation.Fill.{Groups, Policy, reached, fill, is_empty, rounds}
use shapleymcg.Allocation.Fill.Sound.{KeepsItems, Completes, fill_sound, fill_step}

nil_of_is_empty {ℓ} : {A : Type ℓ} (xs : List A) → is_empty xs ≡ true → xs ≡ []
nil_of_is_empty [] h = refl
nil_of_is_empty (x ∷ xs) h = absurd (cc)

nil_of_none {ℓ} : {A : Type ℓ} (xs : List A) → All (λ x. x ∈ []) xs → xs ≡ []
nil_of_none [] h = refl
nil_of_none (x ∷ xs) h = absurd (elim (h x (Memᴰ.head refl)) [ ])

module _ {D M : Type 0} ⦃f : Double D⦄ (p : Policy D M) (keeps : KeepsItems p) where
  tidy-nil : p.tidy [] ≡ []
  tidy-nil = nil_of_none (p.tidy []) (keeps.tidy-mem [])

  reached-nil : (cs : List (Candidate D M)) → reached p [] cs ≡ []
  unfolding round
  reached-nil cs = refl

  rounds-nil : (groups : Groups D M) → rounds p groups [] ≡ []
  unfolding rounds
  rounds-nil [] = refl
  rounds-nil (g ∷ groups) =
      ap (rounds p groups) (ap p.tidy (reached-nil g.1) ∙ tidy-nil) ∙ rounds-nil groups

  module _ {E : Type 0} (infeasible : String → E) where
    fill-rounds :
        (groups : Groups D M) (states : Table D M)
        → (fill p infeasible groups states ≡ ok (rounds p groups states))
          ⊎ (rounds p groups states ≡ [])
    unfolding fill rounds
    fill-rounds [] states = inl refl
    fill-rounds ((unit, cs) ∷ groups) states = elim (Bool-cases (is_empty (reached p states cs))) [
      | inl e ↦ inr (
          ap (rounds p groups) (ap p.tidy (nil_of_is_empty (reached p states cs) e) ∙ tidy-nil)
          ∙ rounds-nil groups)
      | inr e ↦ rw e (fill-rounds groups (p.tidy (reached p states cs)))
    ]

    -- Every last state completes a first one by a choice for each unit.
    pub rounds_sound :
        (groups : Groups D M) (states : Table D M)
        → All (Completes p infeasible states groups) (rounds p groups states)
    rounds_sound groups states = elim (fill-rounds groups states) [
      | inl e ↦ fill_sound p infeasible keeps groups states (rounds p groups states) e
      | inr e ↦
          subst (All (Completes p infeasible states groups)) (sym e) (λ x m. absurd (elim m [ ]))
    ]

module _ {D M E : Type 0} ⦃f : Double D⦄ (p : Policy D M) (infeasible : String → E) where
  -- Where the raising loop returns, this one has the same table.
  pub rounds_of_fill :
      (groups : Groups D M) (states final : Table D M)
      → fill p infeasible groups states ≡ ok final
      → rounds p groups states ≡ final
  unfolding fill rounds
  rounds_of_fill [] states final h = ok_injective h
  rounds_of_fill ((unit, cs) ∷ groups) states final h =
      rounds_of_fill groups (p.tidy (reached p states cs)) final
        (fill_step p infeasible unit cs groups states final h)
