-- ===== src/Campaign/Replay/Notices.antt =====
-- The events that end a campaign, report a recovery of the journal, or report the preflight.
use shapleymcg.Common.{Bool, true, false, not, ◌||◌, none, some, string_keys, ◌==◌}
use shapleymcg.Common.Dict.{keys, same_set}
use shapleymcg.Common.Json.{
  Numbers, Json, text, object, Fields, end, get_field, get_or_null, get_default, is_text, is_null,
  as_mapping, mapping_or_empty,
}
use shapleymcg.Common.Result.{raises, Result, ok, or_raise, ◌>>=◌, raise_if}
use shapleymcg.Common.Sort.{sorted}
use shapleymcg.Campaign.Journal.{zero_hash, require_hash}
use shapleymcg.Campaign.Files.{
  RunnerError, invalid_hash, wrong_type, recovery_binding, item_of, int_of, safe_relative_file,
  hash_json,
}
use shapleymcg.Campaign.Gates.{Artifact}
use shapleymcg.Campaign.Replay.{
  State, Context, journal, flag, flag_event, differs, expected_static, stage_order, entry_lt,
  dict_json,
}

module _ {N L P : Type 0} ⦃n : Numbers N⦄ (context : Context N L P) where
  -- the hashes of the artifacts of the completed stages, in the order of the stages' names
  unfoldable pub expected_outputs : State N → Json N
  unfolding sorted
  expected_outputs s =
      object (dict_json (λ (a : Artifact). text a.artifact_sha256) (sorted entry_lt s.completed))

  -- `campaign_completed`
  unfoldable pub replay_campaign_completed : Fields N → State N → State N
  unfolding differs expected_outputs
  replay_campaign_completed event s =
      flag (differs event "output_hashes" (expected_outputs s))
        (journal "completion-output-mismatch")
        (flag (differs event "predecessor_state_hash" (text s.state_hash))
          (journal "completion-state-mismatch")
          (flag (not (same_set (keys s.completed) (stage_order context.plan)))
            (journal "campaign-completed-before-all-stages")
            (record (flag s.completion_seen (journal "duplicate-campaign-completion") s) {
              completion_seen = true;
              disposition = text "complete";
            })))

  -- the tests of a recovery that `_replay` catches
  unfoldable pub check_recovery : Fields N → Result RunnerError (Unit {0})
  unfolding differs
  check_recovery event = do
    details ← or_raise (as_mapping (get_default "details" (object end) event)) wrong_type
    let outputs = mapping_or_empty (get_or_null "output_hashes" event)
    hash ← require_hash (get_field "fragment_sha256" outputs) invalid_hash
    bytes ← item_of "fragment_bytes" (object details) >>= int_of
    relative ← item_of "quarantine_path" (object details) >>= safe_relative_file context.system
    let quarantine = context.system.child context.system.root relative
    raise_if
        (not (is_null (get_or_null "stage_id" event))
          || differs event "kind" (text "journal_recovery")
          || differs event "input_hashes" (object end)
          || differs event "predecessor_state_hash" (text zero_hash)
          || not (n.less (n.of_nat 0) bytes)
          || not (context.system.is_file quarantine)
          || not (n.same_number (n.of_nat (context.system.size quarantine)) bytes)
          || not (context.system.sha256_file quarantine == hash))
        recovery_binding

  -- `journal_tail_recovered`
  unfoldable pub replay_recovery : Fields N → State N → State N
  unfolding check_recovery
  replay_recovery event s =
      flag_event (raises (check_recovery event)) event "invalid-tail-recovery" s

  -- the report of a preflight that passed is bound by its hash
  unfoldable pub report_differs : Fields N → Result RunnerError Bool
  report_differs event =
      let details = mapping_or_empty (get_or_null "details" event) in
      let outputs = mapping_or_empty (get_or_null "output_hashes" event) in
      elim (as_mapping (get_or_null "report" details)) [
        | none ↦ ok true
        | some report ↦ do
          hash ← hash_json context.system (object report)
          ok (not (is_text (get_or_null "report_sha256" outputs) hash))
      ]

  -- `resource_preflight_passed` and `resource_preflight_failed`
  unfoldable pub replay_preflight : Bool → Fields N → State N → Result RunnerError (State N)
  unfolding differs expected_static report_differs
  replay_preflight passed event s =
      let identified =
        flag_event
          (not (is_null (get_or_null "stage_id" event))
            || differs event "kind" (text "resource_preflight"))
          event "invalid-preflight-identity" s in
      let bound =
        flag_event
          (differs event "input_hashes" (expected_static context.plan)
            || differs event "predecessor_state_hash" (text zero_hash))
          event "invalid-preflight-binding" identified in
      elim passed [
        | false ↦ ok bound
        | true ↦ do
          different ← report_differs event
          ok (flag_event different event "invalid-preflight-report" bound)
      ]
