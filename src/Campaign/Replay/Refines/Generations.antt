-- ===== src/Campaign/Replay/Refines/Generations.antt =====
-- The event that supersedes a generation: the stages from the allocation on are no longer completed.
use shapleymcg.Common.{
  some_injective, ℕ, suc, ◌<◌, ◌≡◌, refl, sym, ap, ◌∙◌, String, Bool, true, false, not, ◌||◌,
  Option, none, some, List, [], ◌∷◌, take, arith, Bool-cases, Option-cases, inl, inr, string_keys,
  ◌==◌, leb→lt,
}
use shapleymcg.Common.Dict.{Dict, get, keys}
use shapleymcg.Common.Json.{
  Numbers, Json, Fields, text, get_field, get_or_null, get_default, as_mapping, as_list, object,
  is_unhashable, end,
}
use shapleymcg.Common.Result.{
  Result, ok, bind-eq-ok, ok_injective, err-ne-ok, or_raise, or_raise-eq-ok, Result-cases,
}
use shapleymcg.Campaign.Files.{RunnerError, missing_key, no_allocation_stage, unhashable}
use shapleymcg.Campaign.Gates.{Artifact, identity_state}
use shapleymcg.Campaign.Replay.{
  State, Context, Attempt, text_of, has_key, stage_order, drop_key, drop_keys,
}
use shapleymcg.Campaign.Replay.Generations.{
  from_stage, completed_of, is_pending, generation_refused, failed_gate, decisions_of,
  binding_refused, next_generation, check_invalidation, gate_refused, replay_invalidation,
  replay_replan, supersede, replay_superseded,
}
use shapleymcg.Campaign.Replay.Machine.{Machine, machine_of, remove_key, remove_keys, present}
use shapleymcg.Campaign.Replay.Refines.{refused}

-- The machine after a generation is superseded.
abbrev pub after_supersession : List String → Machine → Machine
after_supersession later m = record m {
  completed = remove_keys (present m.completed later) m.completed;
  generation = suc m.generation;
  complete = false;
  supersession = none;
}

keys-drop_key {ℓ} :
    {V : Type ℓ} (key : String) (d : Dict String V)
    → keys (drop_key key d) ≡ remove_key key (keys d)
keys-drop_key key [] = refl
keys-drop_key key ((k, v) ∷ d) = elim (Bool-cases (k == key)) [
  | inl e ↦ rw e (keys-drop_key key d)
  | inr e ↦ rw e (ap (λ ks. k ∷ ks) (keys-drop_key key d))
]

keys-drop_keys {ℓ} :
    {V : Type ℓ} (js : List String) (d : Dict String V)
    → keys (drop_keys js d) ≡ remove_keys js (keys d)
keys-drop_keys [] d = refl
keys-drop_keys (j ∷ js) d =
    keys-drop_keys js (drop_key j d) ∙ ap (remove_keys js) (keys-drop_key j d)

completed_of-present :
    (d : Dict String Artifact) (ids : List String) → completed_of d ids ≡ present (keys d) ids
completed_of-present d [] = refl
completed_of-present d (id ∷ ids) = elim (Bool-cases (has_key id d)) [
  | inl e ↦ rw e (ap (λ is. id ∷ is) (completed_of-present d ids))
  | inr e ↦ rw e (completed_of-present d ids)
]

or_false : (a b : Bool) → a || b ≡ false → (a ≡ false) × (b ≡ false)
or_false true b h = absurd (cc)
or_false false b h = (refl, h)

some_of_ok {ℓ} :
    {E : Type 0} {A : Type ℓ} {a : A} → ◌≡◌ {A = Result E (Option A)} (ok none) (ok (some a)) → ⊥
some_of_ok h = cc

module _ {N L P : Type 0} ⦃n : Numbers N⦄ (context : Context N L P) where
  next_generation_machine :
      (event details : Fields N) (later : List String) (s t : State N)
      → next_generation context event details (completed_of s.completed later) s ≡ ok t
      → (t.failures ≡ s.failures) × (machine_of t ≡ after_supersession later (machine_of s))
  unfolding next_generation
  next_generation_machine event details later s t h =
      let ids = completed_of s.completed later in
      let (state_hash, _, q) =
        bind-eq-ok (identity_state context.system (drop_keys ids s.completed)) _ {b = t} h in
      let (own, _, r) =
        bind-eq-ok (or_raise (get_field "event_sha256" event) (missing_key "event_sha256")) _
          {b = t} q in
      let same = ok_injective r in
      (
        ap (λ (z : State N). z.failures) (sym same),
        ap machine_of (sym same)
            ∙ ap (λ ks. record (after_supersession later (machine_of s)) { completed = ks })
                (keys-drop_keys ids s.completed
                  ∙ ap (λ is. remove_keys is (keys s.completed))
                      (completed_of-present s.completed later)),
      )

  replay_invalidation_machine :
      (event details : Fields N) (invalidated : List (Json N)) (s t : State N)
      → replay_invalidation context event details invalidated s ≡ ok t
      → t.failures ≡ []
      → (s.failures ≡ [])
        × (later : List String) × (from_stage "allocation" (stage_order context.plan) ≡ some later)
        × (machine_of t ≡ after_supersession later (machine_of s))
  unfolding replay_invalidation
  replay_invalidation_machine event details invalidated s t h e =
      let (later, p, q) =
        bind-eq-ok
          (or_raise (from_stage "allocation" (stage_order context.plan)) no_allocation_stage) _
          {b = t} h in
      elim (Result-cases
        (check_invalidation context invalidated (completed_of s.completed later) s)) [
          | inl (what, r) ↦ absurd (refused _ s {t = t} (rw r at q) e)
          | inr (_, r) ↦
              let (same, moved) = next_generation_machine event details later s t (rw r at q) in
              (sym same ∙ e, later, or_raise-eq-ok _ no_allocation_stage p, moved)
        ]

  pending_of :
      (o : Option String) (id : String) → is_pending context o (text id) ≡ true → o ≡ some id
  pending_of none id h = absurd (cc)
  pending_of (some gate) id h = ap some (sym ((string_keys.same_iff id gate).0 h))

  generation_bound :
      (event : Fields N) (attempt : Attempt) (details : Fields N) (s : State N) (bound : ℕ)
      → generation_refused context bound event attempt details s ≡ false
      → suc s.generation < bound
  unfolding generation_refused
  generation_bound event attempt details s bound h =
      leb→lt bound (suc s.generation) (ground (arith, h))

  gate_pending :
      (id : String) (event : Fields N) (s : State N)
      → gate_refused context id event s ≡ false
      → s.pending_supersession ≡ some id
  unfolding gate_refused
  gate_pending id event s h = pending_of s.pending_supersession id (ground (arith, h))

  failed_gate_facts :
      (event : Fields N) (attempt : Attempt) (details : Fields N) (s : State N) (id : String)
      (rows : List (Json N))
      → failed_gate context event attempt details s ≡ ok (some (id, rows))
      → (suc s.generation < context.plan.definition.max_generations)
        × (s.pending_supersession ≡ some id)
  unfolding failed_gate
  failed_gate_facts event attempt details s id rows h =
      let gate = get_or_null "failed_gate_stage_id" details in
      let bound = context.plan.definition.max_generations in
      elim (Bool-cases (generation_refused context bound event attempt details s)) [
        | inl p ↦ absurd (some_of_ok (rw (p, failed_gate) at h))
        | inr p ↦ elim (Option-cases (as_list (get_or_null "invalidated_artifacts" details))) [
          | inl q ↦ absurd (some_of_ok (rw (p, q, failed_gate) at h))
          | inr (invalidated, q) ↦ elim (Option-cases (text_of gate)) [
            | inl r ↦ elim (Bool-cases (is_unhashable gate)) [
              | inl u ↦ absurd (err-ne-ok unhashable _ (rw (p, q, r, u, failed_gate) at h))
              | inr u ↦ absurd (some_of_ok (rw (p, q, r, u, failed_gate) at h))
            ]
            | inr (i, r) ↦ elim (Bool-cases (gate_refused context i event s)) [
              | inl u ↦ absurd (some_of_ok (rw (p, q, r, u, failed_gate) at h))
              | inr u ↦
                  let same : ◌≡◌ {A = Result RunnerError (Option (String × List (Json N)))}
                      (ok (some (i, invalidated))) (ok (some (id, rows))) =
                    rw (p, q, r, u, failed_gate) at h in
                  (
                    generation_bound event attempt details s bound p,
                    gate_pending i event s u
                        ∙ ap some (ap (λ z. z.0) (some_injective (ok_injective same))),
                  )
            ]
          ]
        ]
      ]

  replay_replan_machine :
      (index : ℕ) (event details : Fields N) (gate : String) (invalidated : List (Json N))
      (s t : State N)
      → replay_replan context index event details gate invalidated s ≡ ok t
      → t.failures ≡ []
      → (s.failures ≡ [])
        × (later : List String) × (from_stage "allocation" (stage_order context.plan) ≡ some later)
        × (machine_of t ≡ after_supersession later (machine_of s))
  unfolding replay_replan
  replay_replan_machine index event details gate invalidated s t h e =
      only_decision (decisions_of context gate s.generation (take index context.events)) refl
    where
      only_decision :
          (ds : List (Fields N))
          → decisions_of context gate s.generation (take index context.events) ≡ ds
          → (s.failures ≡ [])
            × (later : List String) × (from_stage "allocation" (stage_order context.plan)
                ≡ some later)
            × (machine_of t ≡ after_supersession later (machine_of s))
      only_decision [] p = absurd (refused _ s {t = t} (rw (p, replay_replan) at h) e)
      only_decision (d ∷ d' ∷ ds) p = absurd (refused _ s {t = t} (rw (p, replay_replan) at h) e)
      only_decision (d ∷ []) p =
          let (artifact, _, q) =
            bind-eq-ok (or_raise (get gate s.completed) (missing_key gate)) _ {b = t}
              (rw (p, replay_replan) at h) in
          let (unbound, _, r) =
            bind-eq-ok
              (binding_refused context event details d artifact
                (not (has_key gate s.completion_events)))
              _ {b = t} q in
          elim (Bool-cases unbound) [
            | inl u ↦ absurd (refused _ s {t = t} (rw u at r) e)
            | inr u ↦ replay_invalidation_machine event details invalidated s t (rw u at r) e
          ]

  -- A supersession that is accepted follows the gate that asked for it, within the bound on the generations.
  pub replay_superseded_machine :
      (index : ℕ) (event : Fields N) (attempt : Attempt) (s t : State N)
      → replay_superseded context index event attempt s ≡ ok t
      → t.failures ≡ []
      → (s.failures ≡ [])
        × (id : String) × (later : List String) × (s.pending_supersession ≡ some id)
        × (suc s.generation < context.plan.definition.max_generations)
        × (from_stage "allocation" (stage_order context.plan) ≡ some later)
        × (machine_of t ≡ after_supersession later (machine_of s))
  unfolding replay_superseded supersede
  replay_superseded_machine index event attempt s t h e =
      elim (Option-cases (as_mapping (get_default "details" (object end) event))) [
        | inl p ↦ absurd (refused _ s {t = t} (rw (p, replay_superseded) at h) e)
        | inr (details, p) ↦
            let (gate, q, r) =
              bind-eq-ok (failed_gate context event attempt details s) _ {b = t}
                (rw (p, replay_superseded) at h) in
            found details gate q r
      ]
    where
      found :
          (details : Fields N) (gate : Option (String × List (Json N)))
          → failed_gate context event attempt details s ≡ ok gate
          → supersede context index event details gate s ≡ ok t
          → (s.failures ≡ [])
            × (id : String) × (later : List String) × (s.pending_supersession ≡ some id)
            × (suc s.generation < context.plan.definition.max_generations)
            × (from_stage "allocation" (stage_order context.plan) ≡ some later)
            × (machine_of t ≡ after_supersession later (machine_of s))
      found details none q r = absurd (refused _ s {t = t} r e)
      found details (some (id, rows)) q r =
          let (bound, pending) = failed_gate_facts event attempt details s id rows q in
          let (clean, later, at, moved) =
            replay_replan_machine index event details id rows s t r e in
          (clean, id, later, pending, bound, at, moved)
