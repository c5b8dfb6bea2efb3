-- ===== src/Allocation/Table.antt =====
-- The table of states that the allocators of src/quant_pipeline/allocation/global_dp.py and
-- src/quant_pipeline/candidates/factory_allocation.py share: for each amount of bytes, the damage and the
-- candidates of the best selection found. One round extends every state by every choice of one unit.
use shapleymcg.Common.{
  ℕ, ◌≡◌, ap, ◌∙◌, subst, Bool, true, false, ◌⊎◌, inl, inr, none, some, List, arith, Bool-cases,
  Option-cases, if◌then◌else◌, All, ◌==◌, nat_keys, nat_eq_iff,
}
use shapleymcg.Common.Dict.{Dict, get, put, get-put, get-put_self, put-All}
use shapleymcg.Allocation.Candidate.{Candidate}

-- The damage of a selection and the selection.
abbrev pub Value : Type 0 → Type 0 → Type 0
Value D M = D × List (Candidate D M)

abbrev pub State : Type 0 → Type 0 → Type 0
State D M = ℕ × Value D M

abbrev pub Table : Type 0 → Type 0 → Type 0
Table D M = Dict ℕ (Value D M)

module _ {V : Type 0} (better : V → V → Bool) where
  -- `previous = t.get(k); if previous is None or better(v, previous): t[k] = v`
  unfoldable pub offer : ℕ → V → Dict ℕ V → Dict ℕ V
  offer k v t = elim (get k t) [
    | none ↦ put k v t
    | some previous ↦ if better v previous then put k v t else t
  ]

  offer-none : (k : ℕ) (v : V) (t : Dict ℕ V) → get k t ≡ none → offer k v t ≡ put k v t
  unfolding offer
  offer-none k v t e = rw (e, offer)

  offer_better :
      (k : ℕ) (v w : V) (t : Dict ℕ V)
      → get k t ≡ some w
      → better v w ≡ true
      → offer k v t ≡ put k v t
  unfolding offer
  offer_better k v w t e b = rw (e, offer) (rw b)

  offer_worse :
      (k : ℕ) (v w : V) (t : Dict ℕ V) → get k t ≡ some w → better v w ≡ false → offer k v t ≡ t
  unfolding offer
  offer_worse k v w t e b = rw (e, offer) (rw b)

  -- An offer writes what is offered, or changes nothing because the entry is no worse.
  offer-cases :
      (k : ℕ) (v : V) (t : Dict ℕ V)
      → (offer k v t ≡ put k v t) × ((w : V) → get k t ≡ some w → better v w ≡ true)
        ⊎ (offer k v t ≡ t) × ((w : V) × (get k t ≡ some w) × (better v w ≡ false))
  offer-cases k v t = elim (Option-cases (get k t)) [
    | inl e ↦ inl (offer-none k v t e, λ w h. cc)
    | inr (w, e) ↦ split w e (Bool-cases (better v w))
  ]
    where
      split :
          (w : V)
          → get k t ≡ some w
          → (better v w ≡ true) ⊎ (better v w ≡ false)
          → (offer k v t ≡ put k v t) × ((w : V) → get k t ≡ some w → better v w ≡ true)
            ⊎ (offer k v t ≡ t) × ((w : V) × (get k t ≡ some w) × (better v w ≡ false))
      split w e (inl b) =
          inl (
            offer_better k v w t e b,
            λ z h. subst (λ x. better v x ≡ true) (ground (arith, e, h)) b,
          )
      split w e (inr b) = inr (offer_worse k v w t e b, (w, e, b))

  -- The table has a value of this kind at `k`.
  abbrev pub Holds : (V → Type 0) → ℕ → Dict ℕ V → Type 0
  Holds P k t = (w : V) × (get k t ≡ some w) × P w

  module _ (P : V → Type 0) where
    -- After an offer, the entry at the key is no worse than what was offered.
    pub offer-Holds :
        (k : ℕ) (v : V) (t : Dict ℕ V)
        → P v
        → ((w : V) → better v w ≡ false → P w)
        → Holds P k (offer k v t)
    offer-Holds k v t p keep = elim (offer-cases k v t) [
      | inl (e, _) ↦ (v, rw e (get-put_self k v t), p)
      | inr (e, (w, g, b)) ↦ (w, rw e g, keep w b)
    ]

    -- An offer at any key keeps what holds, if what is better satisfies it too.
    pub offer-keeps :
        (k j : ℕ) (v : V) (t : Dict ℕ V)
        → ((v w : V) → better v w ≡ true → P w → P v)
        → Holds P k t
        → Holds P k (offer j v t)
    offer-keeps k j v t up (w, g, p) = elim (offer-cases j v t) [
      | inl (e, b) ↦ written e b (Bool-cases (j == k))
      | inr (e, _) ↦ (w, rw e g, p)
    ]
      where
        written :
            offer j v t ≡ put j v t
            → ((w : V) → get j t ≡ some w → better v w ≡ true)
            → ((j == k) ≡ true) ⊎ ((j == k) ≡ false)
            → Holds P k (offer j v t)
        written e b (inl q) = (
          v,
          rw e (get-put j k v t ∙ ap (λ c. if c then some v else get k t) q),
          up v w (b w (rw ((nat_eq_iff j k).0 q) g)) p,
        )
        written e b (inr q) =
            (w, rw e (get-put j k v t ∙ ap (λ c. if c then some v else get k t) q ∙ g), p)

  -- Every entry was there before, or is what was offered.
  pub offer-All :
      {P : ℕ × V → Type 0} (k : ℕ) (v : V) (t : Dict ℕ V) → All P t → P (k, v) → All P (offer k v t)
  offer-All k v t h p = elim (offer-cases k v t) [
    | inl (e, _) ↦ rw e (put-All k v t h p)
    | inr (e, _) ↦ rw e h
  ]
