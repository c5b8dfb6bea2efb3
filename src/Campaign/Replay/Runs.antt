-- ===== src/Campaign/Replay/Runs.antt =====
-- The events that start, complete or fail an attempt of a stage.
use shapleymcg.Common.{
  String, Bool, true, false, not, ◌||◌, none, some, List, [], ◌∷◌, map, any, string_keys, ◌==◌,
  if◌then◌else◌,
}
use shapleymcg.Common.Dict.{Dict, get, put}
use shapleymcg.Common.Json.{
  Numbers, Json, number, text, array, object, Fields, end, field, get_or_null, get_default,
  is_iterable, is_unhashable, as_mapping, mapping_or_empty, of_items, same_json,
}
use shapleymcg.Common.Result.{Result, ok, err, or_raise, map_all, ◌>>=◌, ◌>>◌, raise_if}
use shapleymcg.Campaign.Definition.{contains}
use shapleymcg.Campaign.Stages.{StageSpec}
use shapleymcg.Campaign.Files.{
  RunnerError, missing_key, wrong_type, unhashable, safe_relative_file,
  artifact_matches_with_retirements, read_stage_result, hash_json, item_of,
}
use shapleymcg.Campaign.Gates.{
  Artifact, StageRequest, layer_json, validate_gate, validate_causal_result, installed_state,
  installed_prefix_from_completed,
}
use shapleymcg.Campaign.Replay.{
  State, Context, Attempt, artifact_error, artifact_result, artifact_drift, gate_kinds, flag,
  flag_event, differs, expected_static, text_of, has_key, has_run, find_run,
}

module _ {N L P : Type 0} ⦃n : Numbers N⦄ (context : Context N L P) where
  -- the hashes of the dependencies that are completed
  unfoldable pub expected_dependencies : Dict String Artifact → List String → Fields N
  unfolding get
  expected_dependencies completed [] = end
  expected_dependencies completed (dep ∷ deps) = elim (get dep completed) [
    | none ↦ expected_dependencies completed deps
    | some artifact ↦
        field dep (text artifact.artifact_sha256) (expected_dependencies completed deps)
  ]

  abbrev pub some_missing : Dict String Artifact → List String → Bool
  some_missing completed deps = any (λ dep. not (has_key dep completed)) deps

  -- `{dep: completed[dep] for dep in dependencies}`
  unfoldable pub dependency_artifacts :
      Dict String Artifact → List String → Result RunnerError (Dict String Artifact)
  unfolding get
  dependency_artifacts completed deps =
      map_all
        (λ dep. or_raise (get dep completed) (missing_key dep) >>= λ artifact. ok (dep, artifact))
        deps

  abbrev pub attempt_json : Attempt → Json N
  attempt_json none = number n.minus_one
  attempt_json (some a) = number (n.of_nat a)

  -- the binding of a stage's request
  abbrev pub expected_request : StageSpec → Attempt → List (Json N) → State N → Json N
  expected_request stage attempt prefix s = object (
      field "stage_id" (text stage.stage_id) (
        field "kind" (text stage.kind) (
          field "attempt" (attempt_json attempt) (
            field "plan_sha256" (text context.plan.plan_sha256) (
              field "experiment_spec_sha256" (text context.plan.experiment_spec_sha256) (
                field "static_inputs" (expected_static context.plan) (
                  field "dependency_artifacts"
                    (object (expected_dependencies s.completed stage.dependencies))
                    (field "predecessor_state_hash" (text s.state_hash) (
                      field "generation" (number (n.of_nat s.generation)) (
                        field "generation_context" (object s.generation_context) (
                          field "installed_layer_prefix" (array (of_items prefix)) (
                            field "layer" (layer_json stage.layer) (
                              field "block_layers"
                                (array
                                  (of_items (map (λ l. number (n.of_nat l)) stage.block_layers)))
                                end)))))))))))))

  -- `stage_started`
  unfoldable pub replay_started :
      Fields N → Attempt → StageSpec → State N → Result RunnerError (State N)
  unfolding differs installed_prefix_from_completed same_json
  replay_started event attempt stage s =
      let missing = some_missing s.completed stage.dependencies in
      let inputs = mapping_or_empty (get_default "input_hashes" (object end) event) in
      let s1 = flag_event missing event "dependency-not-complete" s in
      let s2 =
        flag_event (differs event "predecessor_state_hash" (text s.state_hash)) event
          "predecessor-state-mismatch" s1 in
      let s3 =
        flag_event
          (differs inputs "static" (expected_static context.plan)
            || differs inputs "dependencies"
                (object (expected_dependencies s.completed stage.dependencies)))
          event "input-hash-mismatch" s2 in
      let found =
        installed_prefix_from_completed context.system context.plan s.completed s.state_hash
          context.events in
      let prefix : List (Json N) = elim found [ ok rows ↦ rows | err e ↦ [] ] in
      let s4 =
        flag_event (elim found [ ok rows ↦ false | err e ↦ true ]) event
          "invalid-installed-layer-prefix" s3 in
      let s5 =
        flag_event
          (not (
            same_json (get_default "installed_layer_prefix" (array (of_items [])) event)
              (array (of_items prefix))))
          event "installed-layer-prefix-mismatch" s4 in
      hash_json context.system (expected_request stage attempt prefix s) >>= λ request.
      let run : String × Attempt = (stage.stage_id, attempt) in
      let s6 =
        flag_event (differs event "request_sha256" (text request)) event "request-binding-mismatch"
          s5 in
      ok (record (flag_event (has_run run s.started) event "duplicate-start" s6) {
        started = run ∷ s.started;
        start_events = (run, event) ∷ s.start_events;
      })

  -- the files that are retired of an artifact
  unfoldable pub retired_files : Fields N → Result RunnerError (List (Json N))
  unfolding get
  retired_files artifact =
      let hash = get_default "artifact_sha256" (text "") artifact in
      raise_if (is_unhashable hash) unhashable
      >> ok (elim (text_of hash) [
        | none ↦ []
        | some h ↦ elim (get h context.retired_by_artifact) [ none ↦ [] | some files ↦ files ]
      ])

  -- the artifact of a completion: its path, and whether its files are those that it binds
  unfoldable pub artifact_matches : Fields N → Result RunnerError (String × Bool)
  unfolding artifact_matches_with_retirements
  artifact_matches artifact = do
    relative ← safe_relative_file context.system (get_or_null "path" artifact)
    retired ← retired_files artifact
    matches ←
        artifact_matches_with_retirements context.system
          (context.system.child context.system.root relative) context.system.root artifact retired
    ok (relative, matches)

  -- the test of the result of a gate
  unfoldable pub check_gate :
      StageSpec → Fields N → StageRequest N P → Result RunnerError (Unit {0})
  unfolding validate_gate
  check_gate stage metadata request =
      if contains stage.kind gate_kinds
      then (validate_gate context.system metadata request >>= λ gate. ok tt)
      else ok tt

  -- the tests of the result of a stage that `_replay` catches
  unfoldable pub check_result :
      Fields N → StageSpec → String → Fields N → State N → Result RunnerError (Json N)
  unfolding read_stage_result check_gate validate_causal_result
  check_result event stage relative artifact s = do
    dependencies ← dependency_artifacts s.completed stage.dependencies
    predecessor ← item_of "predecessor_state_hash" (object event)
    raise_if (not (is_iterable (get_default "installed_layer_prefix" (array (of_items [])) event)))
        wrong_type
    retired ← retired_files artifact
    let request : StageRequest N P = record {
      output_dir = context.system.child context.system.root relative;
      kind = stage.kind;
      dependency_artifacts = dependencies;
      predecessor_state_hash = predecessor;
      layer = stage.layer;
    }
    metadata ←
        read_stage_result context.system request.output_dir (get_or_null "request_sha256" event)
          retired
    check_gate stage metadata request
    validate_causal_result context.system request metadata
    ok predecessor

  -- the state that a completion declares must have
  unfoldable pub expected_state : StageSpec → String → String → Result RunnerError String
  expected_state stage artifact_sha256 state_hash =
      if stage.kind == "identity"
      then hash_json context.system (object (field "identity" (text artifact_sha256) end))
      else if stage.kind == "causal_encode"
      then installed_state context.system state_hash stage artifact_sha256
      else ok state_hash

  -- what a completion adds: its artifact, and the gate that awaits its decision
  unfoldable pub add_completion :
      Fields N → StageSpec → Artifact → Json N → String → State N → State N
  unfolding put differs
  add_completion event stage artifact predecessor expected s =
      let details = mapping_or_empty (get_or_null "details" event) in
      let unbound = differs details "installed_state_hash" (text expected) in
      record (flag_event unbound event "installed-state-mismatch" s) {
        state_hash = if unbound then s.state_hash else expected;
        completed = put stage.stage_id artifact s.completed;
        completed_predecessors = put stage.stage_id predecessor s.completed_predecessors;
        completion_events = put stage.stage_id event s.completion_events;
        pending_gate =
            if contains stage.kind gate_kinds then some stage.stage_id else s.pending_gate;
      }

  -- a completion whose artifact and result are tested
  unfoldable pub replay_completed :
      Fields N → StageSpec → Fields N → State N → Result RunnerError (State N)
  replay_completed event stage fields s = elim (artifact_matches fields) [
    | err e ↦ ok (flag true (artifact_error stage.stage_id e) s)
    | ok (relative, matches) ↦ elim matches [
      | false ↦ ok (flag true (artifact_drift stage.stage_id) s)
      | true ↦ elim (check_result event stage relative fields s) [
        | err e ↦ ok (flag true (artifact_result stage.stage_id e) s)
        | ok predecessor ↦ do
          hash ← or_raise (text_of (get_or_null "artifact_sha256" fields)) wrong_type
          expected ← expected_state stage hash s.state_hash
          ok (
              add_completion event stage (record { path = relative; artifact_sha256 = hash })
                predecessor expected s)
      ]
    ]
  ]

  -- the fields that an end shares with its start
  abbrev pub end_differs : String → Fields N → Fields N → Bool
  end_differs key start event = differs event key (get_or_null key start)

  -- the tests of an end of an attempt
  unfoldable pub replay_end : Fields N → Attempt → StageSpec → State N → State N
  unfolding differs
  replay_end event attempt stage s =
      let run : String × Attempt = (stage.stage_id, attempt) in
      let s1 =
        flag_event (not (has_run run s.started) || has_run run s.terminated) event
          "invalid-termination" s in
      let start = find_run run s.start_events in
      let unlike : String → Bool =
        λ key. elim start [ none ↦ false | some e ↦ end_differs key e event ] in
      let s2 = flag_event (unlike "kind") event "termination-kind-mismatch" s1 in
      let s3 =
        flag_event (unlike "request_sha256") event "termination-request_sha256-mismatch" s2 in
      let s4 = flag_event (unlike "input_hashes") event "termination-input_hashes-mismatch" s3 in
      let s5 =
        flag_event (unlike "predecessor_state_hash") event
          "termination-predecessor_state_hash-mismatch" s4 in
      record s5 { terminated = run ∷ s.terminated }

  -- `stage_completed` and `stage_failed`
  unfoldable pub replay_termination :
      Bool → Fields N → Attempt → StageSpec → State N → Result RunnerError (State N)
  replay_termination is_completion event attempt stage s =
      let ended = replay_end event attempt stage s in
      elim is_completion [
        | false ↦ ok ended
        | true ↦ elim (has_key stage.stage_id s.completed) [
          | true ↦ ok (flag_event true event "duplicate-stage-completion" ended)
          | false ↦
              let outputs = mapping_or_empty (get_or_null "output_hashes" event) in
              elim (as_mapping (get_or_null "artifact" outputs)) [
                | none ↦ ok (flag_event true event "missing-artifact" ended)
                | some fields ↦ replay_completed event stage fields ended
              ]
        ]
      ]
