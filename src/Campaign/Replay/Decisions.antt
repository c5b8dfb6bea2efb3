-- ===== src/Campaign/Replay/Decisions.antt =====
-- The event that decides what follows a gate.
use shapleymcg.Common.{
  String, Bool, true, false, not, ◌&&◌, ◌||◌, none, some, List, [], ◌∷◌, string_keys, ◌==◌,
  if◌then◌else◌,
}
use shapleymcg.Common.Dict.{get, same_set}
use shapleymcg.Common.Json.{
  Numbers, Json, null, text, array, object, Fields, end, get_field, get_or_null, get_default,
  is_iterable, is_text, is_null, is_unhashable, as_mapping, of_items, field_names,
}
use shapleymcg.Common.Result.{raises, Result, ok, err, or_raise, ◌>>=◌, ◌>>◌, raise_if}
use shapleymcg.Campaign.Definition.{contains, gate_policies}
use shapleymcg.Campaign.Stages.{StageSpec, encode_id}
use shapleymcg.Campaign.Journal.{require_hash}
use shapleymcg.Campaign.Files.{
  RunnerError, wrong_type, unhashable, unreadable, invalid_hash, receipt_name, item_of,
  stage_result,
}
use shapleymcg.Campaign.Gates.{Artifact, Gate, validate_gate}
use shapleymcg.Campaign.Replay.{
  State, Context, gate_kinds, flag_event, differs, text_of, has_decision,
}
use shapleymcg.Campaign.Replay.Runs.{dependency_artifacts, end_differs}

abbrev decision_keys : List String
decision_keys = "gate" ∷ "action" ∷ "disposition" ∷ "rollback_state_hash" ∷ []

module _ {N L P : Type 0} ⦃n : Numbers N⦄ (context : Context N L P) where
  -- the gate of a completed stage, as its receipt reports it
  unfoldable pub read_gate : Fields N → StageSpec → Artifact → State N → Result RunnerError (Gate N)
  unfolding validate_gate
  read_gate event stage artifact s = do
    let directory = context.system.child context.system.root artifact.path
    raw ←
        or_raise (context.system.read_json (context.system.child directory receipt_name)) unreadable
    value ← item_of "metadata" raw
    metadata ← stage_result context.system value
    dependencies ← dependency_artifacts context s.completed stage.dependencies
    predecessor ← item_of "predecessor_state_hash" (object event)
    raise_if (not (is_iterable (get_default "installed_layer_prefix" (array (of_items [])) event)))
        wrong_type
    validate_gate context.system metadata (record {
      output_dir = directory;
      kind = stage.kind;
      dependency_artifacts = dependencies;
      predecessor_state_hash = predecessor;
      layer = stage.layer;
    })

  -- the disposition that an action has
  abbrev pub disposition_of : String → String
  disposition_of action = if action == "continue" then "running" else "replan_pending"

  -- the state before the first layer of the gate's block
  unfoldable pub expected_rollback : StageSpec → State N → Json N
  unfolding get
  expected_rollback stage s =
      let first : String = elim stage.block_layers [ [] ↦ "" | layer ∷ layers ↦ encode_id layer ] in
      elim (get first s.completed_predecessors) [ none ↦ null | some hash ↦ hash ]

  -- what a decision that does not continue adds
  unfoldable pub replay_rollback : Fields N → Fields N → StageSpec → State N → State N
  unfolding expected_rollback differs
  replay_rollback event details stage s =
      let s1 =
        flag_event (differs details "rollback_state_hash" (expected_rollback stage s)) event
          "rollback-state-mismatch" s in
      let hashed : Result RunnerError String =
        require_hash (get_field "rollback_state_hash" details) invalid_hash in
      record (flag_event (raises hashed) event "invalid-gate-rollback-state" s1) {
        pending_supersession = some stage.stage_id;
      }

  -- the tests of a decision's details
  unfoldable pub replay_details :
      Fields N → Fields N → StageSpec → String → Gate N → State N → State N
  unfolding differs
  replay_details event details stage action gate s =
      let s1 =
        flag_event (not (same_set (field_names details) decision_keys)) event
          "gate-details-mismatch" s in
      let s2 =
        flag_event
          (differs details "gate" (object gate.fields)
            || differs event "output_hashes" (object end))
          event "gate-result-binding-mismatch" s1 in
      let policy =
        if gate.passed then "continue" else context.plan.definition.reanchor_failure_policy in
      let s3 = flag_event (not (action == policy)) event "gate-policy-mismatch" s2 in
      let disposition = get_default "disposition" (text "running") details in
      let s4 : State N =
        flag_event (not (is_text disposition (disposition_of action))) event
          "gate-disposition-mismatch" (record s3 { disposition = disposition }) in
      flag_event (action == "continue" && not (is_null (get_or_null "rollback_state_hash" details)))
        event "unexpected-gate-rollback-state" s4

  -- the fields that a decision shares with the completion of the gate
  unfoldable pub replay_shared : Fields N → StageSpec → State N → State N
  unfolding get differs
  replay_shared event stage s =
      let completion = get stage.stage_id s.completion_events in
      let unlike : String → Bool =
        λ key. elim completion [ none ↦ false | some e ↦ end_differs context key e event ] in
      let s1 = flag_event (unlike "attempt") event "gate-attempt-mismatch" s in
      let s2 = flag_event (unlike "request_sha256") event "gate-request_sha256-mismatch" s1 in
      let s3 = flag_event (unlike "input_hashes") event "gate-input_hashes-mismatch" s2 in
      let s4 =
        flag_event (unlike "predecessor_state_hash") event "gate-predecessor_state_hash-mismatch"
          s3 in
      let s5 = flag_event (unlike "generation") event "gate-generation-mismatch" s4 in
      let s6 =
        flag_event (unlike "generation_context") event "gate-generation_context-mismatch" s5 in
      flag_event (unlike "installed_layer_prefix") event "gate-installed_layer_prefix-mismatch" s6

  -- what follows an action, which continues or not
  unfoldable pub follow_action : Bool → Fields N → Fields N → StageSpec → State N → State N
  unfolding replay_rollback
  follow_action true event details stage s = s
  follow_action false event details stage s = replay_rollback event details stage s

  -- a decision on a gate that is completed
  unfoldable pub replay_decision :
      Fields N → Fields N → StageSpec → String → Artifact → State N → Result RunnerError (State N)
  replay_decision event details stage action artifact s = do
    gate ← read_gate event stage artifact s
    let shared = replay_shared event stage (replay_details event details stage action gate s)
    ok (record (follow_action (action == "continue") event details stage shared) {
      pending_gate = none;
    })

  -- a decision on a completed gate, whose action must be known
  unfoldable pub decide_completed :
      Fields N → StageSpec → Artifact → State N → Result RunnerError (State N)
  decide_completed event stage artifact s =
      elim (as_mapping (get_default "details" (object end) event)) [
        | none ↦ ok (flag_event true event "gate-details-mismatch" s)
        | some details ↦
            let value = get_or_null "action" details in
            elim (text_of value) [
              | none ↦ elim (is_unhashable value) [
                | true ↦ err unhashable
                | false ↦ ok (flag_event true event "invalid-gate-action" s)
              ]
              | some action ↦ elim (contains action gate_policies) [
                | false ↦ ok (flag_event true event "invalid-gate-action" s)
                | true ↦ replay_decision event details stage action artifact s
              ]
            ]
      ]

  -- `gate_decision`
  unfoldable pub replay_gate_decision :
      Fields N → StageSpec → State N → Result RunnerError (State N)
  unfolding get
  replay_gate_decision event stage s =
      elim (has_decision stage.stage_id s.generation s.gate_decisions_seen) [
        | true ↦ ok (flag_event true event "duplicate-gate-decision" s)
        | false ↦
            let decided : State N = record s {
              gate_decisions_seen = (stage.stage_id, s.generation) ∷ s.gate_decisions_seen;
            } in
            elim (contains stage.kind gate_kinds) [
              | false ↦ ok (flag_event true event "invalid-gate-decision" decided)
              | true ↦ elim (get stage.stage_id s.completed) [
                | none ↦ ok (flag_event true event "invalid-gate-decision" decided)
                | some artifact ↦ decide_completed event stage artifact decided
              ]
            ]
      ]
