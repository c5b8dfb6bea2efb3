-- ===== src/Campaign/Gates.antt =====
-- The tests of a gate's result, of a causal stage's result, and of the layers that are installed.
use shapleymcg.Common.{
  ℕ, String, Bool, true, false, not, ◌&&◌, ◌||◌, Option, none, some, List, [], ◌∷◌, ◌==◌,
  string_keys, if◌then◌else◌,
}
use shapleymcg.Common.Dict.{Dict, get, keys, same_set}
use shapleymcg.Common.Json.{
  Numbers, Json, null, boolean, number, text, object, Fields, end, field, get_field, get_default,
  get_or_null, field_names, is_text, as_mapping, same_json,
}
use shapleymcg.Common.Result.{Result, ok, err, or_raise, ◌>>=◌, ◌>>◌, raise_if}
use shapleymcg.Common.Texts.{starts_with}
use shapleymcg.Campaign.Definition.{CampaignDefinition}
use shapleymcg.Campaign.Stages.{StageSpec}
use shapleymcg.Campaign.Journal.{zero_hash, require_hash}
use shapleymcg.Campaign.Files.{
  System, RunnerError, wrong_type, invalid_hash, unreadable, gate_missing, gate_fields, gate_flag,
  gate_number, gate_contradiction, gate_files, gate_file_missing, gate_file_hash, gate_teacher,
  gate_reference, gate_dependencies, gate_kind, causal_predecessor, causal_layer, causal_kind,
  prefix_order, prefix_completion, prefix_chain, prefix_seal, prefix_state, receipt_name, item_of,
  mapping, safe_relative_file, hash_json,
}

-- The plan of a campaign, as `create_plan` writes it.
pub record Plan : Type 0 where
  pub plan_sha256 : String
  pub experiment_spec_sha256 : String
  pub inputs : Dict String String
  pub definition : CampaignDefinition
  pub stages : List StageSpec

-- The artifact of a completed stage: its path below the root and its hash.
pub record Artifact : Type 0 where
  pub path : String
  pub artifact_sha256 : String

-- What the tests read of a `StageRequest`.
pub record StageRequest (N P : Type 0) : Type 0 where
  pub output_dir : P
  pub kind : String
  pub dependency_artifacts : Dict String Artifact
  pub predecessor_state_hash : Json N
  pub layer : Option ℕ

abbrev pub gate_keys : List String
gate_keys = "passed" ∷ "metric" ∷ "value" ∷ "threshold" ∷ "reference_sha256" ∷ "capture_sha256" ∷ []

-- A gate that was accepted: its mapping, and whether it passed.
pub record Gate (N : Type 0) : Type 0 where
  pub fields : Fields N
  pub passed : Bool

abbrev pub layer_json : {N : Type 0} → ⦃n : Numbers N⦄ → Option ℕ → Json N
layer_json none = null
layer_json ⦃n⦄ (some layer) = number (n.of_nat layer)

-- a number of a gate, as a float
abbrev gate_float : {N : Type 0} → ⦃n : Numbers N⦄ → Json N → Result RunnerError N
gate_float ⦃n⦄ (number x) = do
  f ← or_raise (n.to_float x) wrong_type
  raise_if (not (n.is_finite_number f) || n.less f (n.of_nat 0)) gate_number
  ok f
gate_float _ = err gate_number

abbrev gate_boolean : {N : Type 0} → Json N → Result RunnerError Bool
gate_boolean (boolean b) = ok b
gate_boolean _ = err gate_flag

module _ {N L P : Type 0} ⦃n : Numbers N⦄ (system : System N L P) where
  -- one round of the loop over the files of a gate
  unfoldable pub check_gate_file : P → String → Json N → Json N → Result RunnerError (Unit {0})
  check_gate_file output_dir role relative hash = do
    path ← safe_relative_file system relative
    let artifact = system.child output_dir path
    raise_if (not (system.is_file artifact) || system.is_symlink artifact) gate_file_missing
    raise_if (not (is_text hash (system.sha256_file artifact))) gate_file_hash

  -- the reference of the teacher's capture
  unfoldable pub check_teacher : Dict String Artifact → Json N → Result RunnerError (Unit {0})
  unfolding get same_json
  check_teacher dependencies reference = do
    teacher ← or_raise (get "teacher_capture" dependencies) gate_teacher
    raw ←
        or_raise
          (system.read_json (system.child (system.child system.root teacher.path) receipt_name))
          unreadable
    receipt ← mapping raw
    metadata ← mapping (get_default "metadata" (object end) receipt)
    raise_if (not (same_json (get_or_null "teacher_reference_sha256" metadata) reference))
        gate_reference

  -- what a request asks of the files of a gate
  unfoldable pub check_request :
      Fields N → Fields N → StageRequest N P → Result RunnerError (Unit {0})
  unfolding check_gate_file check_teacher
  check_request metadata gate request = do
    files ← or_raise (as_mapping (get_or_null "gate_files" metadata)) gate_files
    raise_if (not (same_set (field_names files) ("reference" ∷ "capture" ∷ []))) gate_files
    reference ← item_of "reference_sha256" (object gate)
    capture ← item_of "capture_sha256" (object gate)
    reference_file ← item_of "reference" (object files)
    check_gate_file request.output_dir "reference" reference_file reference
    capture_file ← item_of "capture" (object files)
    check_gate_file request.output_dir "capture" capture_file capture
    if request.kind == "kld_reanchor"
        then check_teacher request.dependency_artifacts reference
        else if request.kind == "confirmation"
        then raise_if
            (not (same_set (keys request.dependency_artifacts) ("candidates" ∷ "allocation" ∷ [])))
            gate_dependencies
        else err gate_kind

  -- `_validate_gate`
  unfoldable pub validate_gate : Fields N → StageRequest N P → Result RunnerError (Gate N)
  unfolding check_request
  validate_gate metadata request = do
    gate ← or_raise (as_mapping (get_or_null "gate" metadata)) gate_missing
    raise_if (not (same_set (field_names gate) gate_keys)) gate_fields
    passed ← item_of "passed" (object gate) >>= gate_boolean
    metric ← item_of "metric" (object gate)
    raise_if (not (is_text metric "kld")) gate_flag
    value ← item_of "value" (object gate) >>= gate_float
    threshold ← item_of "threshold" (object gate) >>= gate_float
    reference ← require_hash (get_field "reference_sha256" gate) invalid_hash
    capture ← require_hash (get_field "capture_sha256" gate) invalid_hash
    raise_if (if passed then n.less threshold value else not (n.less threshold value))
        gate_contradiction
    check_request metadata gate request
    ok (record { fields = gate; passed = passed })

  -- the field that identifies the result of a causal stage
  abbrev identity_field : String → Option String
  identity_field kind =
      if kind == "causal_fit_capture"
      then some "capture_sha256"
      else if kind == "causal_fit"
      then some "fit_sha256"
      else if kind == "causal_candidates"
      then some "candidate_ledger_sha256"
      else if kind == "causal_encode"
      then some "installed_checkpoint_sha256"
      else none

  -- `_validate_causal_result`
  unfoldable pub validate_causal_result :
      StageRequest N P → Fields N → Result RunnerError (Unit {0})
  unfolding same_json starts_with
  validate_causal_result request metadata =
      if not (starts_with "causal_" request.kind) then ok tt else do
        raise_if
            (not (
              same_json (get_or_null "predecessor_state_hash" metadata)
                request.predecessor_state_hash))
            causal_predecessor
        raise_if (not (same_json (get_or_null "layer" metadata) (layer_json request.layer)))
            causal_layer
        key ← or_raise (identity_field request.kind) causal_kind
        hash ← require_hash (get_field key metadata) invalid_hash
        ok tt

  -- the hash of the state after the identity stage
  unfoldable pub identity_state : Dict String Artifact → Result RunnerError String
  unfolding get
  identity_state completed = elim (get "identity" completed) [
    | none ↦ ok zero_hash
    | some artifact ↦
        hash_json system (object (field "identity" (text artifact.artifact_sha256) end))
  ]

  -- the hash of the state after a layer is installed
  abbrev pub installed_state : String → StageSpec → String → Result RunnerError String
  installed_state predecessor stage artifact_sha256 = hash_json system (
      object (
        field "predecessor_state_hash" (text predecessor) (
          field "stage_id" (text stage.stage_id) (
            field "layer" (layer_json stage.layer)
              (field "artifact_sha256" (text artifact_sha256) end)))))

  -- an event is the completion of a stage with an artifact
  abbrev is_completion : String → String → Fields N → Result RunnerError Bool
  is_completion stage_id artifact_sha256 event =
      if is_text (get_or_null "event" event) "stage_completed"
        && is_text (get_or_null "stage_id" event) stage_id
      then (do
        outputs ← mapping (get_default "output_hashes" (object end) event)
        artifact ← mapping (get_default "artifact" (object end) outputs)
        ok (is_text (get_or_null "artifact_sha256" artifact) artifact_sha256))
      else ok false

  -- the completions of a stage with an artifact
  unfoldable pub completions_of :
      String → String → List (Fields N) → Result RunnerError (List (Fields N))
  completions_of stage_id artifact_sha256 [] = ok []
  completions_of stage_id artifact_sha256 (event ∷ events) = do
    here ← is_completion stage_id artifact_sha256 event
    rest ← completions_of stage_id artifact_sha256 events
    ok (if here then event ∷ rest else rest)

  abbrev only_one : List (Fields N) → Result RunnerError (Fields N)
  only_one (event ∷ []) = ok event
  only_one _ = err prefix_completion

  -- one accepted layer: its row, and the state after it
  unfoldable pub installed_row :
      String → StageSpec → Artifact → List (Fields N) → Result RunnerError (Json N × String)
  unfolding completions_of
  installed_row running stage artifact events = do
    matching ← completions_of stage.stage_id artifact.artifact_sha256 events
    completion ← only_one matching
    predecessor ← require_hash (get_field "predecessor_state_hash" completion) invalid_hash
    raise_if (not (predecessor == running)) prefix_chain
    raw ←
        or_raise
          (system.read_json (system.child (system.child system.root artifact.path) receipt_name))
          unreadable
    receipt ← mapping raw
    metadata ← mapping (get_default "metadata" (object end) receipt)
    checkpoint ← require_hash (get_field "installed_checkpoint_sha256" metadata) invalid_hash
    state ← installed_state running stage artifact.artifact_sha256
    details ← mapping (get_default "details" (object end) completion)
    raise_if (not (is_text (get_or_null "installed_state_hash" details) state)) prefix_seal
    layer ← or_raise stage.layer wrong_type
    ok (
      object (
          field "stage_id" (text stage.stage_id) (
            field "layer" (number (n.of_nat layer)) (
              field "path" (text artifact.path) (
                field "artifact_sha256" (text artifact.artifact_sha256) (
                  field "installed_checkpoint_sha256" (text checkpoint) (
                    field "predecessor_state_hash" (text running)
                      (field "installed_state_hash" (text state) end))))))),
      state,
    )

  -- the loop over the stages: the rows, and the state after them
  unfoldable pub installed_rows :
      Dict String Artifact
      → List (Fields N)
      → Bool
      → String
      → List StageSpec
      → Result RunnerError (List (Json N) × String)
  unfolding get installed_row
  installed_rows completed events seen_gap running [] = ok ([], running)
  installed_rows completed events seen_gap running (stage ∷ stages) =
      elim (stage.kind == "causal_encode") [
        | false ↦ installed_rows completed events seen_gap running stages
        | true ↦ elim (get stage.stage_id completed) [
          | none ↦ installed_rows completed events true running stages
          | some artifact ↦ do
            raise_if seen_gap prefix_order
            (row, state) ← installed_row running stage artifact events
            (rows, last) ← installed_rows completed events seen_gap state stages
            ok (row ∷ rows, last)
        ]
      ]

  -- `_installed_prefix_from_completed`
  unfoldable pub installed_prefix_from_completed :
      Plan → Dict String Artifact → String → List (Fields N) → Result RunnerError (List (Json N))
  unfolding identity_state installed_rows
  installed_prefix_from_completed plan completed state_hash events = do
    first ← identity_state completed
    (rows, running) ← installed_rows completed events false first plan.stages
    raise_if (not (running == state_hash)) prefix_state
    ok rows
