-- ===== src/Campaign/Replay/Refines/Decisions.antt =====
-- The event that decides a gate: the decision is recorded, and no gate awaits one.
use shapleymcg.Common.{
  ◌≡◌, refl, sym, ap, ◌∙◌, String, Bool, true, false, none, some, [], ◌∷◌, Bool-cases, Option-cases,
  inl, inr, if◌then◌else◌, string_keys, ◌==◌,
}
use shapleymcg.Common.Dict.{get}
use shapleymcg.Common.Json.{
  Numbers, Fields, end, get_or_null, get_default, as_mapping, is_unhashable, object,
}
use shapleymcg.Common.Result.{ok, bind-eq-ok, ok_injective, err-ne-ok}
use shapleymcg.Campaign.Definition.{contains, gate_policies}
use shapleymcg.Campaign.Stages.{StageSpec}
use shapleymcg.Campaign.Files.{unhashable}
use shapleymcg.Campaign.Gates.{Artifact, Gate}
use shapleymcg.Campaign.Replay.{State, Context, text_of, has_decision, gate_kinds}
use shapleymcg.Campaign.Replay.Decisions.{
  read_gate, replay_details, replay_shared, follow_action, decide_completed, replay_decision,
  replay_gate_decision,
}
use shapleymcg.Campaign.Replay.Machine.{Machine, machine_of}
use shapleymcg.Campaign.Replay.Refines.{Keeps, Keeps-trans, flag-Keeps, clean_append, refused}

-- The machine after the decision of a gate.
abbrev pub after_decision : String → Bool → Machine → Machine
after_decision id again m = record m {
  gate = none;
  supersession = if again then some id else m.supersession;
}

module _ {N L P : Type 0} ⦃n : Numbers N⦄ (context : Context N L P) where
  replay_details-Keeps :
      (event details : Fields N) (stage : StageSpec) (action : String) (gate : Gate N) (s : State N)
      → Keeps s (replay_details context event details stage action gate s)
  unfolding replay_details
  replay_details-Keeps event details stage action gate s = Keeps-trans (flag-Keeps _ _ s) (
      Keeps-trans (flag-Keeps _ _ _) (
        Keeps-trans (flag-Keeps _ _ _) (
          Keeps-trans (record { clean = λ e. (clean_append _ _ _ e).1; same = refl })
            (flag-Keeps _ _ _))))

  replay_shared-Keeps :
      (event : Fields N) (stage : StageSpec) (s : State N)
      → Keeps s (replay_shared context event stage s)
  unfolding replay_shared
  replay_shared-Keeps event stage s = Keeps-trans (flag-Keeps _ _ s) (
      Keeps-trans (flag-Keeps _ _ _) (
        Keeps-trans (flag-Keeps _ _ _) (
          Keeps-trans (flag-Keeps _ _ _)
            (Keeps-trans (flag-Keeps _ _ _) (Keeps-trans (flag-Keeps _ _ _) (flag-Keeps _ _ _))))))

  follow_action_machine :
      (continues : Bool) (event details : Fields N) (stage : StageSpec) (s : State N)
      → (follow_action context continues event details stage s).failures ≡ []
      → (s.failures ≡ [])
        × (again : Bool) × (machine_of
              (record (follow_action context continues event details stage s) {
                pending_gate = none;
              })
            ≡ after_decision stage.stage_id again (machine_of s))
  unfolding follow_action
  follow_action_machine true event details stage s e = (e, false, refl)
  follow_action_machine false event details stage s e =
      ((clean_append _ _ _ (clean_append _ _ _ e).1).1, true, refl)

  replay_decision_machine :
      (event details : Fields N) (stage : StageSpec) (action : String) (artifact : Artifact)
      (s t : State N)
      → replay_decision context event details stage action artifact s ≡ ok t
      → t.failures ≡ []
      → (s.failures ≡ [])
        × (again : Bool) × (machine_of t ≡ after_decision stage.stage_id again (machine_of s))
  unfolding replay_decision
  replay_decision_machine event details stage action artifact s t h e =
      let (gate, _, q) = bind-eq-ok (read_gate context event stage artifact s) _ {b = t} h in
      let told = replay_details context event details stage action gate s in
      let kept =
        Keeps-trans (replay_details-Keeps event details stage action gate s)
          (replay_shared-Keeps event stage told) in
      let same = ok_injective q in
      let (clean, again, moved) =
        follow_action_machine (action == "continue") event details stage
          (replay_shared context event stage told) (ap (λ (z : State N). z.failures) same ∙ e) in
      (
        kept.clean clean,
        again,
        ap machine_of (sym same) ∙ moved ∙ ap (after_decision stage.stage_id again) kept.same,
      )

  decided_machine :
      (event : Fields N) (stage : StageSpec) (artifact : Artifact) (s t : State N)
      → decide_completed context event stage artifact s ≡ ok t
      → t.failures ≡ []
      → (s.failures ≡ [])
        × (again : Bool) × (machine_of t ≡ after_decision stage.stage_id again (machine_of s))
  unfolding decide_completed
  decided_machine event stage artifact s t h e =
      elim (Option-cases (as_mapping (get_default "details" (object end) event))) [
        | inl p ↦ absurd (refused _ s {t = t} (rw (p, decide_completed) at h) e)
        | inr (details, p) ↦
            let value = get_or_null "action" details in
            elim (Option-cases (text_of value)) [
              | inl q ↦ elim (Bool-cases (is_unhashable value)) [
                | inl r ↦ absurd (err-ne-ok unhashable t (rw (p, q, r, decide_completed) at h))
                | inr r ↦ absurd (refused _ s {t = t} (rw (p, q, r, decide_completed) at h) e)
              ]
              | inr (action, q) ↦ elim (Bool-cases (contains action gate_policies)) [
                | inr r ↦ absurd (refused _ s {t = t} (rw (p, q, r, decide_completed) at h) e)
                | inl r ↦
                    replay_decision_machine event details stage action artifact s t
                      (rw (p, q, r, decide_completed) at h) e
              ]
            ]
      ]

  -- A decision that is accepted is the first of its gate in the generation, and the gate is completed.
  pub replay_gate_decision_machine :
      (event : Fields N) (stage : StageSpec) (s t : State N)
      → replay_gate_decision context event stage s ≡ ok t
      → t.failures ≡ []
      → (s.failures ≡ [])
        × (has_decision stage.stage_id s.generation s.gate_decisions_seen ≡ false)
        × (contains stage.kind gate_kinds ≡ true)
        × ((artifact : Artifact) × (get stage.stage_id s.completed ≡ some artifact))
        × (again : Bool) × (machine_of t
            ≡ after_decision stage.stage_id again (record (machine_of s) {
              decided = (stage.stage_id, s.generation) ∷ s.gate_decisions_seen;
            }))
  unfolding replay_gate_decision
  replay_gate_decision_machine event stage s t h e =
      let decided : State N = record s {
        gate_decisions_seen = (stage.stage_id, s.generation) ∷ s.gate_decisions_seen;
      } in
      elim (Bool-cases (has_decision stage.stage_id s.generation s.gate_decisions_seen)) [
        | inl p ↦ absurd (refused _ s {t = t} (rw (p, replay_gate_decision) at h) e)
        | inr p ↦ elim (Bool-cases (contains stage.kind gate_kinds)) [
          | inr q ↦ absurd (refused _ decided {t = t} (rw (p, q, replay_gate_decision) at h) e)
          | inl q ↦ elim (Option-cases (get stage.stage_id s.completed)) [
            | inl r ↦ absurd (refused _ decided {t = t} (rw (p, q, r, replay_gate_decision) at h) e)
            | inr (artifact, r) ↦
                let (clean, again, moved) =
                  decided_machine event stage artifact decided t
                    (rw (p, q, r, replay_gate_decision) at h) e in
                (clean, p, q, (artifact, r), again, moved)
          ]
        ]
      ]
