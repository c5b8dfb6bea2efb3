-- ===== src/Campaign/Replay/Generations.antt =====
-- The event that supersedes a generation: the stages from the allocation on are run again.
use shapleymcg.Common.{
  ℕ, suc, String, Bool, true, false, not, ◌&&◌, ◌||◌, Option, none, some, List, [], ◌∷◌, map, any,
  all, take, leb, nat_eq, string_keys, ◌==◌, if◌then◌else◌,
}
use shapleymcg.Common.Dict.{Dict, get, same_set}
use shapleymcg.Common.Json.{
  Numbers, Json, null, number, text, array, object, Fields, end, field, get_field, get_or_null,
  get_default, is_text, is_null, is_boolean, is_unhashable, as_mapping, as_list, of_items,
  field_names, same_json, put_fields,
}
use shapleymcg.Common.Result.{Result, ok, err, or_raise, or_else, ◌>>=◌, ◌>>◌, raise_if}
use shapleymcg.Campaign.Files.{RunnerError, missing_key, unhashable, no_allocation_stage, mapping}
use shapleymcg.Campaign.Gates.{Artifact, identity_state}
use shapleymcg.Campaign.Replay.{
  State, Context, Attempt, flag_event, differs, text_of, stage_order, has_key, drop_keys,
}

abbrev supersession_keys : List String
supersession_keys =
    "prior_generation" ∷ "new_generation" ∷ "failed_gate_stage_id" ∷ "failed_gate_artifact_sha256"
    ∷ "gate_decision_sha256" ∷ "action" ∷ "rollback_state_hash" ∷ "invalidated_artifacts" ∷ []

-- `stage_order[stage_order.index(id):]`
abbrev pub from_stage : String → List String → Option (List String)
from_stage id [] = none
from_stage id (i ∷ is) = if i == id then some (i ∷ is) else from_stage id is

-- those stages of a list that are completed
abbrev pub completed_of : Dict String Artifact → List String → List String
completed_of completed [] = []
completed_of completed (id ∷ ids) =
    let rest = completed_of completed ids in if has_key id completed then id ∷ rest else rest

module _ {N L P : Type 0} ⦃n : Numbers N⦄ (context : Context N L P) where
  -- `attempt == generation`, for a natural number
  abbrev pub attempt_is : Attempt → ℕ → Bool
  attempt_is none generation = false
  attempt_is (some a) generation = nat_eq a generation

  -- `pending_supersession == failed_gate`
  abbrev pub is_pending : Option String → Json N → Bool
  is_pending none v = false
  is_pending (some gate) v = is_text v gate

  -- the tests of the generations; the test of `new` against the bound is made where `new` is the next
  unfoldable pub generation_refused : ℕ → Fields N → Attempt → Fields N → State N → Bool
  unfolding differs same_json
  generation_refused bound event attempt details s =
      not (is_null (get_or_null "stage_id" event))
      || differs event "kind" (text "generation_replan")
      || differs details "prior_generation" (number (n.of_nat s.generation))
      || differs details "new_generation" (number (n.of_nat (suc s.generation)))
      || leb bound (suc s.generation)
      || not (attempt_is attempt (suc s.generation))

  -- the tests of the gate that failed, by its id
  unfoldable pub gate_refused : String → Fields N → State N → Bool
  unfolding differs
  gate_refused id event s =
      not (has_key id s.completed)
      || not (is_pending s.pending_supersession (text id))
      || is_boolean (get_or_null "generation" event)
      || differs event "generation" (number (n.of_nat s.generation))
      || differs event "output_hashes" (object end)

  -- the gate that failed, if the event names one that is completed and awaits a new generation
  unfoldable pub failed_gate :
      Fields N → Attempt → Fields N → State N → Result RunnerError (Option (String × List (Json N)))
  failed_gate event attempt details s =
      let gate = get_or_null "failed_gate_stage_id" details in
      let bound = context.plan.definition.max_generations in
      elim (generation_refused bound event attempt details s) [
        | true ↦ ok none
        | false ↦ elim (as_list (get_or_null "invalidated_artifacts" details)) [
          | none ↦ ok none
          | some invalidated ↦ elim (text_of gate) [
            | none ↦ elim (is_unhashable gate) [ true ↦ err unhashable | false ↦ ok none ]
            | some id ↦ elim (gate_refused id event s) [
              | true ↦ ok none
              | false ↦ ok (some (id, invalidated))
            ]
          ]
        ]
      ]

  -- the decisions of a gate in a generation
  unfoldable pub decisions_of : String → ℕ → List (Fields N) → List (Fields N)
  unfolding same_json
  decisions_of gate generation [] = []
  decisions_of gate generation (event ∷ events) =
      let rest = decisions_of gate generation events in
      let g = get_default "generation" (number (n.of_nat 0)) event in
      if is_text (get_or_null "event" event) "gate_decision"
        && is_text (get_or_null "stage_id" event) gate
        && not (is_boolean g)
        && same_json g (number (n.of_nat generation))
      then event ∷ rest
      else rest

  -- `action not in {"rollback", "request_reallocation"}`
  abbrev pub action_refused : Json N → Result RunnerError Bool
  action_refused action =
      raise_if (is_unhashable action) unhashable
      >> ok (not (is_text action "rollback" || is_text action "request_reallocation"))

  -- what an event says of its gate differs from the decision
  unfoldable pub binding_refused :
      Fields N → Fields N → Fields N → Artifact → Bool → Result RunnerError Bool
  unfolding differs same_json
  binding_refused event details decision gate_artifact gate_event_missing =
      let action = get_or_null "action" details in
      let rollback = get_or_null "rollback_state_hash" details in
      let decision_sha256 = get_or_null "event_sha256" decision in
      or_else (not (same_set (field_names details) supersession_keys)) (do
        decision_details ← mapping (get_default "details" (object end) decision)
        or_else (not (same_json action (get_or_null "action" decision_details))) (do
          refused ← action_refused action
          ok (
              refused
              || not (same_json rollback (get_or_null "rollback_state_hash" decision_details))
              || not (
                  same_json (get_or_null "predecessor_state_hash" event)
                    (get_or_null "rollback_state_hash" decision_details))
              || differs event "input_hashes" (
                  object (
                    field "failed_gate_artifact_sha256" (text gate_artifact.artifact_sha256)
                      (field "gate_decision_sha256" decision_sha256 end)))
              || differs details "failed_gate_artifact_sha256" (text gate_artifact.artifact_sha256)
              || differs details "gate_decision_sha256" decision_sha256
              || differs event "generation_context"
                  (get_default "generation_context" (object end) decision)
              || gate_event_missing)))

  -- a row of `invalidated_artifacts` has the keys that it must have
  abbrev pub row_malformed : Json N → Bool
  row_malformed (object fs) =
      not (same_set (field_names fs) ("stage_id" ∷ "path" ∷ "artifact_sha256" ∷ []))
  row_malformed _ = true

  abbrev pub row_value : String → Json N → Json N
  row_value key (object fs) = get_or_null key fs
  row_value key _ = null

  -- a row is the artifact of a stage that is completed
  unfoldable pub row_active : Dict String Artifact → Json N → Bool
  unfolding get
  row_active completed row = elim (text_of (row_value "stage_id" row)) [
    | none ↦ false
    | some id ↦ elim (get id completed) [
      | none ↦ false
      | some artifact ↦
          is_text (row_value "path" row) artifact.path
          && is_text (row_value "artifact_sha256" row) artifact.artifact_sha256
    ]
  ]

  -- the state of the next generation, without the stages that it runs again
  unfoldable pub next_generation :
      Fields N → Fields N → List String → State N → Result RunnerError (State N)
  next_generation event details invalidated s = do
    let completed = drop_keys invalidated s.completed
    state_hash ← identity_state context.system completed
    own ← or_raise (get_field "event_sha256" event) (missing_key "event_sha256")
    ok (record s {
      completed = completed;
      completion_events = drop_keys invalidated s.completion_events;
      completed_predecessors = drop_keys invalidated s.completed_predecessors;
      state_hash = state_hash;
      generation = suc s.generation;
      generation_context = put_fields (field "generation_event_sha256" own end) details;
      disposition = text "replan_ready";
      completion_seen = false;
      pending_supersession = none;
    })

  -- the artifacts that the event invalidates are those expected, or the failure that they are
  unfoldable pub check_invalidation :
      List (Json N) → List String → State N → Result String (Unit {0})
  unfolding row_active same_json
  check_invalidation invalidated expected s = do
    raise_if (any row_malformed invalidated) "generation-invalidation-record-malformed"
    raise_if
        (not (
          same_json (array (of_items (map (row_value "stage_id") invalidated)))
            (array (of_items (map text expected)))))
        "generation-invalidation-set-mismatch"
    raise_if (not (all (row_active s.completed) invalidated))
        "generation-invalidated-artifact-mismatch"

  -- the artifacts that the event invalidates are those of the stages from the allocation on
  unfoldable pub replay_invalidation :
      Fields N → Fields N → List (Json N) → State N → Result RunnerError (State N)
  replay_invalidation event details invalidated s = do
    later ← or_raise (from_stage "allocation" (stage_order context.plan)) no_allocation_stage
    let expected = completed_of s.completed later
    elim (check_invalidation invalidated expected s) [
      | err what ↦ ok (flag_event true event what s)
      | ok _ ↦ next_generation event details expected s
    ]

  -- what the event says of the gate and of its decision
  unfoldable pub replay_replan :
      ℕ → Fields N → Fields N → String → List (Json N) → State N → Result RunnerError (State N)
  unfolding get
  replay_replan index event details gate invalidated s =
      elim (decisions_of gate s.generation (take index context.events)) [
        | [] ↦ ok (flag_event true event "generation-gate-decision-ambiguity" s)
        | decision ∷ more ↦ elim more [
          | other ∷ others ↦ ok (flag_event true event "generation-gate-decision-ambiguity" s)
          | [] ↦ do
            artifact ← or_raise (get gate s.completed) (missing_key gate)
            refused ←
                binding_refused event details decision artifact
                  (not (has_key gate s.completion_events))
            elim refused [
              | true ↦ ok (flag_event true event "generation-gate-binding-mismatch" s)
              | false ↦ replay_invalidation event details invalidated s
            ]
        ]
      ]

  unfoldable pub supersede :
      ℕ
      → Fields N
      → Fields N
      → Option (String × List (Json N))
      → State N
      → Result RunnerError (State N)
  supersede index event details none s =
      ok (flag_event true event "invalid-generation-supersession" s)
  supersede index event details (some (id, invalidated)) s =
      replay_replan index event details id invalidated s

  -- `generation_superseded`
  unfoldable pub replay_superseded : ℕ → Fields N → Attempt → State N → Result RunnerError (State N)
  replay_superseded index event attempt s =
      elim (as_mapping (get_default "details" (object end) event)) [
        | none ↦ ok (flag_event true event "invalid-generation-supersession" s)
        | some details ↦ do
          gate ← failed_gate event attempt details s
          supersede index event details gate s
      ]
