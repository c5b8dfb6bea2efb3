-- ===== src/Campaign/Tests/Runs.antt =====
-- A campaign of three stages, with a gate that passes, and its replay. Every hash is one text, every artifact is
-- one empty directory, and every number is natural.
use shapleymcg.Common.{
  ℕ, ◌+◌, ◌≡◌, ◌<◌, refl, String, true, false, not, Option, none, some, List, [], ◌∷◌, ◌++◌, nat_eq,
  ltb, string_keys, ◌==◌, All, ◌∈◌, ◌⊎◌,
}
use shapleymcg.Common.Dict.{keys}
use shapleymcg.Common.Json.{
  Numbers, Json, null, boolean, number, text, array, object, nil, Fields, end, field,
}
use shapleymcg.Common.Result.{Result, ok, err}
use shapleymcg.Campaign.Definition.{ratio, contains}
use shapleymcg.Campaign.Stages.{build_stages, layer_stages, three_digits, StageSpec}
use shapleymcg.Campaign.Journal.{zero_hash}
use shapleymcg.Campaign.Files.{System, RunnerError}
use shapleymcg.Campaign.Gates.{Plan}
use shapleymcg.Campaign.Replay.{State, first_state, stage_order, has_decision}
use shapleymcg.Campaign.Stages.Order.{IsOrdered-is_ordered}
use shapleymcg.Campaign.Replay.Depends.{replay_all-depends}
use shapleymcg.Campaign.Replay.Gated.{is_gate-build_stages}
use shapleymcg.Campaign.Replay.Generations.{from_stage}
use shapleymcg.Campaign.Replay.Machine.{is_gate, Move, machine_of}
use shapleymcg.Campaign.Replay.Refines.Steps.{replay_event-Move}
use shapleymcg.Campaign.Replay.Invariants.{
  GatesFollow, GatesFollow-test, replay_all-Done, replay_all-Bounded, replay_all-Decided,
}
use shapleymcg.Common.Texts.{is_sha256, starts_with}
use shapleymcg.Common.Json.{is_finite_json, same_json}
use shapleymcg.Common.Dict.{get, put, add_key}
use shapleymcg.Common.Sort.{insert, sorted}
use shapleymcg.Campaign.Files.{
  confined_path, tree_entries, bind_path, stage_payload_matches, artifact_matches_with_retirements,
  verify_seal, read_stage_result,
}
use shapleymcg.Campaign.Gates.{
  check_gate_file, check_teacher, check_request, validate_gate, validate_causal_result,
  identity_state, completions_of, installed_row, installed_rows, installed_prefix_from_completed,
}
use shapleymcg.Campaign.Replay.{differs, expected_static}
use shapleymcg.Campaign.Replay.Runs.{
  expected_dependencies, dependency_artifacts, replay_started, retired_files, artifact_matches,
  check_gate, check_result, expected_state, add_completion, replay_completed, replay_end,
  replay_termination,
}
use shapleymcg.Campaign.Replay.Retirement.{
  plans_of, retired_of, some_exist, attempt_differs, planned_by, plan_differs, see_completion,
  replay_retirement_completed, replay_retirement_rows, artifact_of, find_retirement, replay_found,
  replay_retirement,
}
use shapleymcg.Campaign.Replay.Loop.{
  context_of, expect_decision, expect_supersession, generation_differs, replay_stage,
  replay_any_stage, dispatch, replay_event, replay_events, planned_state, check_prefix, replay_all,
  replay,
}
use shapleymcg.Campaign.Replay.Notices.{
  expected_outputs, replay_campaign_completed, check_recovery, replay_recovery, report_differs,
  replay_preflight,
}
use shapleymcg.Campaign.Replay.Decisions.{
  read_gate, expected_rollback, replay_rollback, replay_details, replay_shared, follow_action,
  replay_decision, decide_completed, replay_gate_decision,
}
use shapleymcg.Campaign.Replay.Generations.{
  generation_refused, gate_refused, failed_gate, decisions_of, binding_refused, row_active,
  next_generation, check_invalidation, replay_invalidation, replay_replan, supersede,
  replay_superseded,
}

instance abbrev numbers : Numbers ℕ
numbers = record {
  of_nat = λ i. i;
  minus_one = 0;
  same_number = nat_eq;
  less = ltb;
  add = λ i j. i + j;
  is_finite_number = λ i. true;
  is_int = λ i. true;
  to_nat = some;
  to_float = some;
  truncate = some;
  parse_int = λ s. none;
}

abbrev gate : Fields ℕ
gate = field "passed" (boolean true) (
    field "metric" (text "kld") (
      field "value" (number 0) (
        field "threshold" (number 1) (
          field "reference_sha256" (text zero_hash)
            (field "capture_sha256" (text zero_hash) end)))))

abbrev receipt : Fields ℕ
receipt = field "schema" (text "quant-pipeline.campaign-stage-result.v1") (
    field "request_sha256" (text zero_hash) (
      field "payload_binding"
        (object (
          field "entries" (array nil) (
            field "file_count" (number 0)
              (field "bytes" (number 0) (field "sha256" (text zero_hash) end)))))
        (field "metadata"
          (object (
            field "gate" (object gate) (
              field "gate_files"
                (object (field "reference" (text "r") (field "capture" (text "c") end))) end)))
          (field "receipt_sha256" (text zero_hash) end))))

abbrev system : System ℕ (Json ℕ) String
system = record {
  format = record { canonical = some; loads = some; sha256 = λ l. zero_hash; byte_count = λ l. 0 };
  parts = λ s. s ∷ [];
  name = λ s. s;
  as_posix = λ s. s;
  root = "";
  child = λ p s. s;
  same_path = λ p q. p == q;
  is_symlink = λ p. false;
  is_inside = λ p q. true;
  exists = λ p. true;
  is_dir = λ p. true;
  is_file = λ p. not (p == "a");
  size = λ p. 0;
  sha256_file = λ p. zero_hash;
  walk = λ p. [];
  read_json = λ p. some (object receipt);
  dict_of_pairs = λ v. none;
}

abbrev stage : String → List String → StageSpec
stage id dependencies = record {
  stage_id = id;
  kind = id;
  dependencies = dependencies;
  layer = none;
  block_layers = [];
}

abbrev plan : Plan
plan = record {
  plan_sha256 = "p";
  experiment_spec_sha256 = "e";
  inputs = [];
  definition = record {
    experiment_spec = "experiment.json";
    inputs = ("model", "model") ∷ [];
    layers = 3 ∷ [];
    reanchor_every_layers = ratio 1 0;
    reanchor_failure_policy = "rollback";
    retention_mode = "full";
    max_generations = 8;
    schema = "quant-pipeline.campaign-definition.v1";
  };
  stages =
      stage "candidates" []
      ∷ stage "allocation" ("candidates" ∷ [])
      ∷ stage "confirmation" ("candidates" ∷ "allocation" ∷ [])
      ∷ [];
}

abbrev run_fields : String → Fields ℕ → Fields ℕ → Fields ℕ
run_fields id dependencies more = field "plan_sha256" (text "p") (
    field "stage_id" (text id) (
      field "kind" (text id) (
        field "predecessor_state_hash" (text zero_hash) (
          field "request_sha256" (text zero_hash) (
            field "input_hashes"
              (object
                (field "static" (object end) (field "dependencies" (object dependencies) end)))
              more)))))

abbrev started : String → Fields ℕ → Fields ℕ
started id dependencies = field "event" (text "stage_started") (run_fields id dependencies end)

abbrev finished : String → Fields ℕ → Fields ℕ
finished id dependencies = field "event" (text "stage_completed") (
    run_fields id dependencies (
      field "output_hashes"
        (object (
          field "artifact"
            (object (
              field "path" (text "a") (
                field "artifact_sha256" (text zero_hash)
                  (field "bytes" (number 0) (field "file_count" (number 0) end)))))
            end))
        (field "details" (object (field "installed_state_hash" (text zero_hash) end)) end)))

abbrev hashes : Fields ℕ → Fields ℕ
hashes more = field "candidates" (text zero_hash) more

abbrev both_hashes : Fields ℕ → Fields ℕ
both_hashes more = hashes (field "allocation" (text zero_hash) more)

abbrev decision : Fields ℕ
decision = field "event" (text "gate_decision") (
    run_fields "confirmation" (both_hashes end) (
      field "output_hashes" (object end) (
        field "details"
          (object (
            field "gate" (object gate) (
              field "action" (text "continue")
                (field "disposition" (text "running") (field "rollback_state_hash" null end)))))
          end)))

abbrev completion : Fields ℕ
completion = field "event" (text "campaign_completed") (
    field "plan_sha256" (text "p") (
      field "predecessor_state_hash" (text zero_hash) (
        field "output_hashes" (object (both_hashes (field "confirmation" (text zero_hash) end)))
          end)))

abbrev events : List (Fields ℕ)
events =
    field "event" (text "campaign_planned") (field "plan_sha256" (text "p") end)
    ∷ started "candidates" end
    ∷ finished "candidates" end
    ∷ started "allocation" (hashes end)
    ∷ finished "allocation" (hashes end)
    ∷ started "confirmation" (both_hashes end)
    ∷ finished "confirmation" (both_hashes end)
    ∷ decision
    ∷ completion
    ∷ []

abbrev state_of : Result RunnerError (State ℕ) → State ℕ
state_of (ok s) = s
state_of (err e) = first_state

abbrev run : String → String × Option ℕ
run id = (id, some 0)

abbrev after_start : String → Fields ℕ → State ℕ → State ℕ
after_start id dependencies s = record s {
  started = run id ∷ s.started;
  start_events = (run id, started id dependencies) ∷ s.start_events;
}

abbrev after_finish : String → Fields ℕ → State ℕ → State ℕ
after_finish id dependencies s = record s {
  terminated = run id ∷ s.terminated;
  completed = s.completed ++ (id, record { path = "a"; artifact_sha256 = zero_hash }) ∷ [];
  completed_predecessors = s.completed_predecessors ++ (id, text zero_hash) ∷ [];
  completion_events = s.completion_events ++ (id, finished id dependencies) ∷ [];
}

abbrev after_candidates : State ℕ
after_candidates = after_finish "candidates" end (after_start "candidates" end first_state)

abbrev after_allocation : State ℕ
after_allocation =
    after_finish "allocation" (hashes end) (after_start "allocation" (hashes end) after_candidates)

abbrev after_confirmation : State ℕ
after_confirmation =
    record (after_finish "confirmation" (both_hashes end)
      (after_start "confirmation" (both_hashes end) after_allocation)) {
        pending_gate = some "confirmation";
      }

abbrev after_gate : State ℕ
after_gate = record after_confirmation {
  gate_decisions_seen = ("confirmation", 0) ∷ [];
  pending_gate = none;
}

abbrev last : State ℕ
last = record after_gate { completion_seen = true; disposition = text "complete" }

abbrev Replays : ℕ → Fields ℕ → State ℕ → State ℕ → Type 0
Replays index event s t = replay_event (context_of system plan events) index event s ≡ ok t

steps :
    Replays 1 (started "candidates" end) first_state (after_start "candidates" end first_state)
    × Replays 2
        (finished "candidates" end)
        (after_start "candidates" end first_state)
        after_candidates
    × Replays 3
        (started "allocation" (hashes end))
        after_candidates
        (after_start "allocation" (hashes end) after_candidates)
    × Replays 4
        (finished "allocation" (hashes end))
        (after_start "allocation" (hashes end) after_candidates)
        after_allocation
    × Replays 5
        (started "confirmation" (both_hashes end))
        after_allocation
        (after_start "confirmation" (both_hashes end) after_allocation)
    × Replays 6
        (finished "confirmation" (both_hashes end))
        (after_start "confirmation" (both_hashes end) after_allocation)
        after_confirmation
    × Replays 7 decision after_confirmation after_gate
    × Replays 8 completion after_gate last
unfolding is_sha256 starts_with is_finite_json same_json get put add_key insert sorted confined_path
    tree_entries bind_path stage_payload_matches artifact_matches_with_retirements verify_seal
    read_stage_result check_gate_file check_teacher check_request validate_gate
    validate_causal_result identity_state completions_of installed_row installed_rows
    installed_prefix_from_completed differs expected_static expected_dependencies
    dependency_artifacts replay_started retired_files artifact_matches check_gate check_result
    expected_state add_completion replay_completed replay_end replay_termination plans_of retired_of
    some_exist attempt_differs planned_by plan_differs see_completion replay_retirement_completed
    replay_retirement_rows artifact_of find_retirement replay_found replay_retirement
    expect_decision expect_supersession generation_differs replay_stage replay_any_stage dispatch
    replay_event replay_events planned_state check_prefix replay_all replay expected_outputs
    replay_campaign_completed check_recovery replay_recovery report_differs replay_preflight
    read_gate expected_rollback replay_rollback replay_details replay_shared follow_action
    replay_decision decide_completed replay_gate_decision generation_refused gate_refused
    failed_gate decisions_of binding_refused row_active next_generation check_invalidation
    replay_invalidation replay_replan supersede replay_superseded
steps = (refl, refl, refl, refl, refl, refl, refl, refl)

replayed : replay_all system plan events ≡ ok last
unfolding replay_all replay_events planned_state check_prefix differs same_json
replayed = let (s1, s2, s3, s4, s5, s6, s7, s8) = steps in rw (s1, s2, s3, s4, s5, s6, s7, s8) refl

replay_event-Move_example :
    (after_gate.failures ≡ []) × Move plan (machine_of after_gate) (machine_of last)
replay_event-Move_example =
    let (s1, s2, s3, s4, s5, s6, s7, s8) = steps in
    replay_event-Move (context_of system plan events) 8 completion after_gate last s8 refl

replay_all-Done_example : All (λ id. contains id (keys last.completed) ≡ true) (stage_order plan)
replay_all-Done_example = replay_all-Done system plan events last replayed refl refl

replay_all-Bounded_example : (last.generation ≡ 0) ⊎ (last.generation < 8)
replay_all-Bounded_example = replay_all-Bounded system plan events last replayed refl

follow : GatesFollow plan
follow = GatesFollow-test plan ("allocation" ∷ "confirmation" ∷ []) refl refl

replay_all-Decided_example :
    (last.pending_gate ≡ some "confirmation")
    ⊎ (has_decision "confirmation" last.generation last.gate_decisions_seen ≡ true)
replay_all-Decided_example =
    replay_all-Decided system plan follow events last replayed refl "confirmation" refl refl

replay_all-depends_example :
    All (λ dep. dep ∈ keys last.completed) ("candidates" ∷ "allocation" ∷ [])
replay_all-depends_example =
    replay_all-depends system plan (IsOrdered-is_ordered [] plan.stages refl) events last replayed
      refl "confirmation" (stage "confirmation" ("candidates" ∷ "allocation" ∷ [])) refl refl

abbrev built_plan : Plan
built_plan = record plan { stages = build_stages plan.definition }

abbrev later_stages : List String
later_stages =
    "allocation" ∷ "confirmation" ∷ "causal_fit_capture.layer_003" ∷ "causal_fit.layer_003"
    ∷ "causal_candidates.layer_003" ∷ "causal_encode.layer_003" ∷ "kld_reanchor.block_000"
    ∷ "checkpoint_emission" ∷ "checkpoint_audit" ∷ "student_capture" ∷ "final_kld" ∷ []

later_of_built : from_stage "allocation" (stage_order built_plan) ≡ some later_stages
unfolding build_stages layer_stages three_digits
later_of_built = refl

gate_of_built : is_gate built_plan "kld_reanchor.block_000" ≡ true
unfolding build_stages layer_stages three_digits
gate_of_built = refl

is_gate-build_stages_example : contains "kld_reanchor.block_000" later_stages ≡ true
is_gate-build_stages_example =
    is_gate-build_stages built_plan refl "kld_reanchor.block_000" later_stages gate_of_built
      later_of_built
