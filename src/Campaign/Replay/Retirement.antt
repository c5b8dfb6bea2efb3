-- ===== src/Campaign/Replay/Retirement.antt =====
-- The events that plan and complete the retirement of an artifact's files.
use shapleymcg.Common.{
  String, Bool, true, false, not, ◌||◌, Option, none, some, List, [], ◌∷◌, ◌++◌, map, any, length,
  nat_eq, string_keys, ◌==◌, if◌then◌else◌,
}
use shapleymcg.Common.Dict.{Dict, get, put, add_key, distinct, same_set}
use shapleymcg.Common.Json.{
  Numbers, Json, number, text, array, object, Fields, end, field, get_or_null, get_default, is_text,
  as_mapping, as_list, mapping_or_empty, of_items, to_items, item, field_names, same_json,
}
use shapleymcg.Common.Result.{Result, ok, err, or_raise, map_all, ◌>>=◌, ◌>>◌, raise_if}
use shapleymcg.Campaign.Definition.{contains}
use shapleymcg.Campaign.Journal.{zero_hash}
use shapleymcg.Campaign.Files.{RunnerError, Entry, retired_entry, confined_path}
use shapleymcg.Campaign.Gates.{Artifact}
use shapleymcg.Campaign.Replay.{State, Context, Attempt, flag_event, differs, text_of}

-- the loops before the events: the plans of retirements by their hashes
unfoldable pub plans_of :
    {N : Type 0} → List (Fields N) → Dict String (Fields N) → Dict String (Fields N)
unfolding put
plans_of [] plans = plans
plans_of (event ∷ events) plans =
    let rest = plans_of events in
    if is_text (get_or_null "event" event) "artifacts_retirement_planned"
    then elim (get_or_null "event_sha256" event) [
      | text hash ↦ rest (put hash event plans)
      | _ ↦ rest plans
    ]
    else rest plans

-- the files that are planned to be retired, by the hash of their artifact
unfoldable pub retired_of :
    {N : Type 0}
    → Dict String (Fields N)
    → Dict String (List (Json N))
    → Dict String (List (Json N))
unfolding get put
retired_of [] retired = retired
retired_of ((hash, event) ∷ plans) retired =
    let details = mapping_or_empty (get_or_null "details" event) in
    let inputs = mapping_or_empty (get_or_null "input_hashes" event) in
    let rest = retired_of plans in
    elim (text_of (get_or_null "producer_artifact_sha256" inputs)) [
      | none ↦ rest retired
      | some producer ↦ elim (as_list (get_default "files" (array (of_items [])) details)) [
        | none ↦ rest retired
        | some files ↦ rest (
            put producer (elim (get producer retired) [ none ↦ files | some old ↦ old ++ files ])
              retired)
      ]
    ]

-- The producer, its artifact, that of the trigger, the details and the files of an event.
pub record Retirement (N : Type 0) : Type 0 where
  pub producer_id : String
  pub producer : Artifact
  pub trigger : Artifact
  pub details : Fields N
  pub files : List (Json N)

module _ {N L P : Type 0} ⦃n : Numbers N⦄ (context : Context N L P) where
  -- the paths of the files that are retired
  abbrev pub row_paths : List (Entry N) → List String
  row_paths rows = map (λ (r : Entry N). r.path) rows

  -- `any(path.exists() for path in paths)`, where a path may be refused
  unfoldable pub some_exist : Artifact → List (Entry N) → Result RunnerError Bool
  unfolding confined_path
  some_exist producer rows = do
    let root = context.system.child context.system.root producer.path
    paths ← map_all (λ (r : Entry N). confined_path context.system root r.path) rows
    ok (any context.system.exists paths)

  -- `attempt != planned.get("attempt")`
  unfoldable pub attempt_differs : Attempt → Fields N → Bool
  unfolding same_json
  attempt_differs none planned =
      not (same_json (number n.minus_one) (get_or_null "attempt" planned))
  attempt_differs (some a) planned =
      not (same_json (number (n.of_nat a)) (get_or_null "attempt" planned))

  -- the number of files that were retired is not the number of those planned
  abbrev pub count_differs : List (Json N) → Json N → Bool
  count_differs files (number x) =
      not (n.is_int x) || not (n.same_number x (n.of_nat (length files)))
  count_differs files _ = true

  -- the plan that a completion names
  unfoldable pub planned_by : Fields N → Option (Fields N)
  unfolding get
  planned_by details = elim (text_of (get_or_null "planned_event_sha256" details)) [
    | none ↦ none
    | some hash ↦ get hash context.retirement_plans
  ]

  -- a plan that is not there, of another stage, or of other files
  unfoldable pub plan_differs : String → Fields N → Option (Fields N) → Bool
  unfolding same_json
  plan_differs producer_id details none = true
  plan_differs producer_id details (some planned) =
      not (is_text (get_or_null "stage_id" planned) producer_id)
      || (elim (as_mapping (get_or_null "details" planned)) [
        | none ↦ true
        | some planned_details ↦
            not (same_json (get_or_null "files" planned_details) (get_or_null "files" details))
      ])

  -- a plan is completed once
  unfoldable pub see_completion : Fields N → Option String → State N → State N
  unfolding add_key
  see_completion event none s = s
  see_completion event (some hash) s =
      record (flag_event (contains hash s.retirement_completions_seen) event
        "duplicate-retirement-completion" s) {
          retirement_completions_seen = add_key hash s.retirement_completions_seen;
        }

  -- the files that are retired are no longer there
  abbrev pub see_files : Fields N → Result RunnerError Bool → State N → State N
  see_files event (ok there) s = flag_event there event "retired-file-still-present" s
  see_files event (err e) s = flag_event true event "invalid-retired-file-path" s

  -- the part of the handler for `artifacts_retirement_completed` only
  unfoldable pub replay_retirement_completed :
      Fields N
      → Attempt
      → String
      → Artifact
      → Fields N
      → List (Json N)
      → List (Entry N)
      → State N
      → State N
  unfolding some_exist see_completion
  replay_retirement_completed event attempt producer_id producer details files rows s =
      let planned = planned_by details in
      let outputs = mapping_or_empty (get_or_null "output_hashes" event) in
      let matched =
        flag_event (plan_differs producer_id details planned) event "retirement-plan-mismatch" s in
      see_files event (some_exist producer rows) (
        flag_event
          (count_differs files (get_or_null "retired_file_count" outputs)
            || not (same_set (field_names outputs) ("retired_file_count" ∷ []))
            || (elim planned [ none ↦ true | some p ↦ attempt_differs attempt p ]))
          event "retirement-completion-mismatch"
          (see_completion event (text_of (get_or_null "planned_event_sha256" details)) matched))

  -- what binds a retirement, where its files are well formed
  unfoldable pub replay_retirement_rows :
      Bool
      → Fields N
      → Attempt
      → Retirement N
      → Result RunnerError (List (Entry N))
      → State N
      → State N
  unfolding differs replay_retirement_completed
  replay_retirement_rows is_completion event attempt found (err e) s =
      flag_event true event "invalid-retirement-file-record" s
  replay_retirement_rows is_completion event attempt found (ok rows) s =
      let bound =
        flag_event
          (differs event "input_hashes" (
              object (
                field "producer_artifact_sha256" (text found.producer.artifact_sha256)
                  (field "trigger_artifact_sha256" (text found.trigger.artifact_sha256) end)))
            || differs event "predecessor_state_hash" (text zero_hash))
          event "retirement-binding-mismatch"
          (flag_event
            (not (nat_eq (length (distinct (row_paths rows))) (length rows))
              || any (λ (r : Entry N). n.less r.bytes (n.of_nat 0)) rows)
            event "duplicate-or-invalid-retirement-file" s) in
      elim is_completion [
        | false ↦
            flag_event (differs event "output_hashes" (object end)) event
              "retirement-plan-output-mismatch" bound
        | true ↦
            replay_retirement_completed event attempt found.producer_id found.producer found.details
              found.files rows bound
      ]

  -- the artifact of the stage that a value names, if it is completed
  unfoldable pub artifact_of : Json N → State N → Option (String × Artifact)
  unfolding get
  artifact_of v s = elim (text_of v) [
    | none ↦ none
    | some id ↦ elim (get id s.completed) [ none ↦ none | some artifact ↦ some (id, artifact) ]
  ]

  abbrev pub some_files : Json N → Option (List (Json N))
  some_files (array (item v vs)) = some (v ∷ to_items vs)
  some_files _ = none

  -- what an event retires, or the failure that it is
  unfoldable pub find_retirement : Fields N → State N → Result String (Retirement N)
  unfolding differs
  find_retirement event s = do
    raise_if (not (context.plan.definition.retention_mode == "capture-plus-ledger"))
        "retirement-in-full-mode"
    (producer_id, producer) ←
        or_raise (artifact_of (get_or_null "stage_id" event) s) "invalid-retirement-producer"
    raise_if (differs event "kind" (text "artifact_retirement")) "invalid-retirement-producer"
    details ←
        or_raise (as_mapping (get_default "details" (object end) event))
          "invalid-retirement-details"
    (trigger_id, trigger) ←
        or_raise (artifact_of (get_or_null "trigger_stage_id" details) s)
          "invalid-retirement-trigger-or-files"
    files ←
        or_raise (some_files (get_or_null "files" details)) "invalid-retirement-trigger-or-files"
    ok (record {
      producer_id = producer_id;
      producer = producer;
      trigger = trigger;
      details = details;
      files = files;
    })

  unfoldable pub replay_found :
      Bool → Fields N → Attempt → Result String (Retirement N) → State N → State N
  unfolding replay_retirement_rows
  replay_found is_completion event attempt (err what) s = flag_event true event what s
  replay_found is_completion event attempt (ok found) s =
      replay_retirement_rows is_completion event attempt found
        (map_all (retired_entry context.system) found.files) s

  -- `artifacts_retirement_planned` and `artifacts_retirement_completed`
  unfoldable pub replay_retirement : Bool → Fields N → Attempt → State N → State N
  unfolding find_retirement replay_found
  replay_retirement is_completion event attempt s =
      replay_found is_completion event attempt (find_retirement event s) s
