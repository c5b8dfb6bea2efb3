-- ===== src/Campaign/Replay/Refines/Runs.antt =====
-- The events of a stage's attempts: a start keeps the machine, and a completion adds the stage.
use shapleymcg.Common.{
  ◌≡◌, refl, sym, ap, ◌∙◌, subst, String, true, false, some, List, [], ◌∷◌, ◌++◌, arith, Bool-cases,
  Option-cases, inl, inr, if◌then◌else◌, string_keys, ◌==◌,
}
use shapleymcg.Common.Dict.{keys, keys-put, add_key}
use shapleymcg.Common.Json.{Numbers, Json, Fields, get_or_null, as_mapping, mapping_or_empty}
use shapleymcg.Common.Result.{ok, bind-eq-ok, ok_injective, Result-cases, or_raise}
use shapleymcg.Campaign.Definition.{contains}
use shapleymcg.Campaign.Stages.{StageSpec}
use shapleymcg.Campaign.Files.{hash_json, wrong_type}
use shapleymcg.Campaign.Gates.{Artifact}
use shapleymcg.Campaign.Replay.{
  State, Context, Attempt, text_of, has_key, gate_kinds, artifact_error, artifact_drift,
  artifact_result,
}
use shapleymcg.Campaign.Replay.Runs.{
  replay_started, replay_termination, replay_end, replay_completed, add_completion,
  artifact_matches, check_result, expected_state,
}
use shapleymcg.Campaign.Replay.Machine.{Machine, machine_of}
use shapleymcg.Campaign.Replay.Refines.{
  Keeps, Keeps-trans, flag-Keeps, flag_clean, clean_append, refused,
}

add_key_new : (k : String) (ks : List String) → contains k ks ≡ false → add_key k ks ≡ ks ++ k ∷ []
unfolding add_key
add_key_new k [] h = refl
add_key_new k (j ∷ ks) h =
    let apart : (j == k) ≡ false = ground (arith, h) in
    let rest : contains k ks ≡ false = ground (arith, h) in
    rw apart (ap (λ is. j ∷ is) (add_key_new k ks rest))

-- The machine after the completion of a stage.
abbrev pub after_completion : StageSpec → Machine → Machine
after_completion stage m = record m {
  completed = m.completed ++ stage.stage_id ∷ [];
  gate = if contains stage.kind gate_kinds then some stage.stage_id else m.gate;
}

module _ {N L P : Type 0} ⦃n : Numbers N⦄ (context : Context N L P) where
  pub replay_started-Keeps :
      (event : Fields N) (attempt : Attempt) (stage : StageSpec) (s t : State N)
      → replay_started context event attempt stage s ≡ ok t
      → Keeps s t
  unfolding replay_started
  replay_started-Keeps event attempt stage s t h =
      let (request, _, q) = bind-eq-ok (hash_json context.system _) _ {b = t} h in
      subst (Keeps s) (ok_injective q) (
        Keeps-trans (flag-Keeps _ _ s) (
          Keeps-trans (flag-Keeps _ _ _) (
            Keeps-trans (flag-Keeps _ _ _) (
              Keeps-trans (flag-Keeps _ _ _) (
                Keeps-trans (flag-Keeps _ _ _) (
                  Keeps-trans (flag-Keeps _ _ _)
                    (record { clean = λ e. (clean_append _ _ _ e).1; same = refl })))))))

  replay_end-Keeps :
      (event : Fields N) (attempt : Attempt) (stage : StageSpec) (s : State N)
      → Keeps s (replay_end context event attempt stage s)
  unfolding replay_end
  replay_end-Keeps event attempt stage s = Keeps-trans (flag-Keeps _ _ s) (
      Keeps-trans (flag-Keeps _ _ _) (
        Keeps-trans (flag-Keeps _ _ _) (
          Keeps-trans (flag-Keeps _ _ _)
            (record { clean = λ e. (clean_append _ _ _ e).1; same = refl }))))

  add_completion_machine :
      (event : Fields N) (stage : StageSpec) (artifact : Artifact) (predecessor : Json N)
      (expected : String) (s : State N)
      → (add_completion context event stage artifact predecessor expected s).failures ≡ []
      → has_key stage.stage_id s.completed ≡ false
      → (s.failures ≡ [])
        × (machine_of (add_completion context event stage artifact predecessor expected s)
            ≡ after_completion stage (machine_of s))
  unfolding add_completion
  add_completion_machine event stage artifact predecessor expected s e new = (
    (flag_clean _ _ s e).1,
    ap (λ ks. record (after_completion stage (machine_of s)) { completed = ks })
        (keys-put stage.stage_id artifact s.completed
          ∙ add_key_new stage.stage_id (keys s.completed) new),
  )

  -- A completion that is accepted adds its stage.
  replay_completed_machine :
      (event : Fields N) (stage : StageSpec) (fields : Fields N) (s t : State N)
      → replay_completed context event stage fields s ≡ ok t
      → t.failures ≡ []
      → has_key stage.stage_id s.completed ≡ false
      → (s.failures ≡ []) × (machine_of t ≡ after_completion stage (machine_of s))
  unfolding replay_completed
  replay_completed_machine event stage fields s t h e new =
      elim (Result-cases (artifact_matches context fields)) [
        | inl (x, p) ↦
            absurd (
              refused (artifact_error stage.stage_id x) s {t = t} (rw (p, replay_completed) at h) e)
        | inr ((relative, false), p) ↦
            absurd
              (refused (artifact_drift stage.stage_id) s {t = t} (rw (p, replay_completed) at h) e)
        | inr ((relative, true), p) ↦
            elim (Result-cases (check_result context event stage relative fields s)) [
              | inl (x, q) ↦ absurd (
                  refused (artifact_result stage.stage_id x) s {t = t}
                    (rw (p, q, replay_completed) at h) e)
              | inr (predecessor, q) ↦
                  let (hash, _, r) =
                    bind-eq-ok
                      (or_raise (text_of (get_or_null "artifact_sha256" fields)) wrong_type) _
                      {b = t} (rw (p, q, replay_completed) at h) in
                  let (expected, _, u) =
                    bind-eq-ok (expected_state context stage hash s.state_hash) _ {b = t} r in
                  let same = ok_injective u in
                  let (clean, moved) =
                    add_completion_machine event stage
                      (record { path = relative; artifact_sha256 = hash }) predecessor expected s
                      (ap (λ (z : State N). z.failures) same ∙ e) new in
                  (clean, ap machine_of (sym same) ∙ moved)
            ]
      ]

  -- What ends an attempt keeps the machine, or adds the stage that it completes.
  pub replay_failed-Keeps :
      (event : Fields N) (attempt : Attempt) (stage : StageSpec) (s t : State N)
      → replay_termination context false event attempt stage s ≡ ok t
      → Keeps s t
  unfolding replay_termination
  replay_failed-Keeps event attempt stage s t h =
      subst (Keeps s) (ok_injective h) (replay_end-Keeps event attempt stage s)

  pub replay_termination_machine :
      (event : Fields N) (attempt : Attempt) (stage : StageSpec) (s t : State N)
      → replay_termination context true event attempt stage s ≡ ok t
      → t.failures ≡ []
      → (s.failures ≡ [])
        × (contains stage.stage_id (keys s.completed) ≡ false)
        × (machine_of t ≡ after_completion stage (machine_of s))
  unfolding replay_termination
  replay_termination_machine event attempt stage s t h e =
      let ended = replay_end context event attempt stage s in
      let kept = replay_end-Keeps event attempt stage s in
      elim (Bool-cases (has_key stage.stage_id s.completed)) [
        | inl p ↦ absurd (refused _ ended {t = t} (rw (p, replay_termination) at h) e)
        | inr p ↦
            let fields =
              get_or_null "artifact" (mapping_or_empty (get_or_null "output_hashes" event)) in
            elim (Option-cases (as_mapping fields)) [
              | inl q ↦ absurd (refused _ ended {t = t} (rw (p, q, replay_termination) at h) e)
              | inr (artifact, q) ↦
                  let (clean, moved) =
                    replay_completed_machine event stage artifact ended t
                      (rw (p, q, replay_termination) at h) e
                      (ap (λ m. contains stage.stage_id m.completed) kept.same ∙ p) in
                  (kept.clean clean, p, moved ∙ ap (after_completion stage) kept.same)
            ]
      ]
