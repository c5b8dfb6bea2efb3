-- ===== src/Campaign/Replay/Loop.antt =====
-- The loop over the events, `_replay`, and what `audit_campaign` reports of it.
use shapleymcg.Common.{
  ℕ, suc, String, Bool, true, false, not, ◌&&◌, ◌||◌, Option, none, some, List, [], ◌∷◌, take,
  length, string_keys, if◌then◌else◌,
}
use shapleymcg.Common.Dict.{keys, same_list}
use shapleymcg.Common.Json.{
  Numbers, Json, number, text, object, Fields, end, get_field, get_or_null, get_default, is_text,
  same_json,
}
use shapleymcg.Common.Result.{Result, ok, err, or_raise, ◌>>=◌}
use shapleymcg.Campaign.Stages.{StageSpec}
use shapleymcg.Campaign.Journal.{JournalError}
use shapleymcg.Campaign.Files.{System, RunnerError, missing_key}
use shapleymcg.Campaign.Gates.{Plan}
use shapleymcg.Campaign.Replay.{
  State, Context, Attempt, journal, unreadable_journal, unknown_event, first_state, flag,
  flag_event, differs, text_of, find_stage, stage_order,
}
use shapleymcg.Campaign.Replay.Notices.{
  replay_campaign_completed, replay_recovery, replay_preflight,
}
use shapleymcg.Campaign.Replay.Retirement.{plans_of, retired_of, replay_retirement}
use shapleymcg.Campaign.Replay.Generations.{replay_superseded}
use shapleymcg.Campaign.Replay.Runs.{replay_started, replay_termination}
use shapleymcg.Campaign.Replay.Decisions.{replay_gate_decision}

-- The handlers of the events.
pub data Handler : Type 0 where
  to_completed to_recovery to_superseded to_started to_gate_decision to_unknown : Handler
  to_preflight to_retirement to_termination : Bool → Handler

-- what handles the events of a name; the text is a value that is no name of an event where it is none
abbrev pub handler_of : {N : Type 0} → Json N → Handler
handler_of kind =
    if is_text kind "campaign_completed"
    then to_completed
    else if is_text kind "journal_tail_recovered"
    then to_recovery
    else if is_text kind "resource_preflight_passed"
    then to_preflight true
    else if is_text kind "resource_preflight_failed"
    then to_preflight false
    else if is_text kind "artifacts_retirement_planned"
    then to_retirement false
    else if is_text kind "artifacts_retirement_completed"
    then to_retirement true
    else if is_text kind "generation_superseded"
    then to_superseded
    else if is_text kind "stage_started"
    then to_started
    else if is_text kind "stage_completed"
    then to_termination true
    else if is_text kind "stage_failed"
    then to_termination false
    else if is_text kind "gate_decision"
    then to_gate_decision
    else to_unknown

module _ {N : Type 0} ⦃n : Numbers N⦄ where
  -- `event.get("attempt", 0)` as a natural number
  abbrev pub attempt_of : Fields N → Attempt
  attempt_of event = elim (get_default "attempt" (number (n.of_nat 0)) event) [
    | number x ↦ n.to_nat x
    | _ ↦ none
  ]

  -- `is_recovery_event`
  abbrev pub is_recovery : Fields N → Bool
  is_recovery event =
      is_text (get_or_null "event" event) "journal_tail_recovered"
      && is_text (get_or_null "kind" event) "journal_recovery"

  abbrev pub is_decision_of : String → Fields N → Bool
  is_decision_of gate event =
      is_text (get_or_null "event" event) "gate_decision"
      && is_text (get_or_null "stage_id" event) gate

  -- a gate awaits its decision, and the event is neither that nor a recovery
  abbrev pub decision_due : Option String → Fields N → Bool
  decision_due none event = false
  decision_due (some gate) event = not (is_decision_of gate event || is_recovery event)

  -- a gate must be decided at once
  unfoldable pub expect_decision : Fields N → State N → State N
  expect_decision event s = elim (decision_due s.pending_gate event) [
    | false ↦ s
    | true ↦ record (flag_event true event "missing-immediate-gate-decision" s) {
      pending_gate = none;
    }
  ]

  -- a new generation is awaited, and the event neither starts one nor is a recovery
  abbrev pub supersession_due : Option String → Fields N → Bool
  supersession_due none event = false
  supersession_due (some gate) event =
      not (is_text (get_or_null "event" event) "generation_superseded" || is_recovery event)

  -- a generation must be superseded at once
  unfoldable pub expect_supersession : Fields N → State N → State N
  expect_supersession event s = elim (supersession_due s.pending_supersession event) [
    | false ↦ s
    | true ↦ record (flag_event true event "missing-immediate-generation-supersession" s) {
      pending_supersession = none;
    }
  ]

  -- `event.get("generation", 0)` is an `int`, no Boolean, and equals the generation
  abbrev pub generation_matches : Fields N → ℕ → Bool
  generation_matches event generation =
      elim (get_default "generation" (number (n.of_nat 0)) event) [
        | number x ↦ n.is_int x && n.same_number x (n.of_nat generation)
        | _ ↦ false
      ]

  -- the event is of another generation
  unfoldable pub generation_differs : Fields N → State N → Bool
  unfolding same_json
  generation_differs event s =
      not (generation_matches event s.generation)
      || not (
          same_json (get_default "generation_context" (object end) event)
            (object s.generation_context))

module _ {N L P : Type 0} ⦃n : Numbers N⦄ (context : Context N L P) where
  -- the events of a stage
  unfoldable pub replay_stage :
      Handler → Fields N → Attempt → StageSpec → State N → Result RunnerError (State N)
  replay_stage handler event attempt stage s =
      let kept = flag_event (differs event "kind" (text stage.kind)) event "kind-mismatch" s in
      elim handler [
        | to_started ↦ replay_started context event attempt stage kept
        | to_termination is_completion ↦
            replay_termination context is_completion event attempt stage kept
        | to_gate_decision ↦ replay_gate_decision context event stage kept
        | _ ↦ ok (
            flag true (unknown_event (get_or_null "event_index" event) (get_or_null "event" event))
              kept)
      ]

  -- the stage that an event names
  unfoldable pub replay_any_stage :
      Handler → Fields N → Attempt → State N → Result RunnerError (State N)
  replay_any_stage handler event attempt s = elim (text_of (get_or_null "stage_id" event)) [
    | none ↦ ok (flag_event true event "invalid-stage-id" s)
    | some id ↦ elim (find_stage id context.plan.stages) [
      | none ↦ ok (flag_event true event "unknown-stage" s)
      | some stage ↦ elim (generation_differs event s) [
        | true ↦ ok (flag_event true event "generation-binding-mismatch" s)
        | false ↦ replay_stage handler event attempt stage s
      ]
    ]
  ]

  -- the event of a handler
  unfoldable pub dispatch :
      Handler → ℕ → Fields N → Attempt → State N → Result RunnerError (State N)
  dispatch to_completed index event attempt s = ok (replay_campaign_completed context event s)
  dispatch to_recovery index event attempt s = ok (replay_recovery context event s)
  dispatch (to_preflight passed) index event attempt s = replay_preflight context passed event s
  dispatch (to_retirement is_completion) index event attempt s =
      ok (replay_retirement context is_completion event attempt s)
  dispatch to_superseded index event attempt s = replay_superseded context index event attempt s
  dispatch handler index event attempt s = replay_any_stage handler event attempt s

  -- the body of the loop
  unfoldable pub replay_event : ℕ → Fields N → State N → Result RunnerError (State N)
  replay_event index event s = elim (differs event "plan_sha256" (text context.plan.plan_sha256)) [
    | true ↦ ok (flag_event true event "plan-drift" s)
    | false ↦ do
      kind ← or_raise (get_field "event" event) (missing_key "event")
      let attempt = attempt_of event
      let counted =
          flag_event (elim attempt [ none ↦ true | some a ↦ false ]) event "invalid-attempt" s
      dispatch (handler_of kind) index event attempt
          (expect_supersession event (expect_decision event counted))
  ]

  -- the loop
  unfoldable pub replay_events : ℕ → List (Fields N) → State N → Result RunnerError (State N)
  replay_events index [] s = ok s
  replay_events index (event ∷ events) s =
      replay_event index event s >>= λ next. replay_events (suc index) events next

module _ {N L P : Type 0} ⦃n : Numbers N⦄ (system : System N L P) (plan : Plan) where
  abbrev pub context_of : List (Fields N) → Context N L P
  context_of events = record {
    system = system;
    plan = plan;
    events = events;
    retirement_plans = plans_of events [];
    retired_by_artifact = retired_of (plans_of events []) [];
  }

  -- the tests before the loop
  unfoldable pub planned_state : Fields N → Result RunnerError (State N)
  planned_state event = do
    kind ← or_raise (get_field "event" event) (missing_key "event")
    ok (
        flag
          (not (is_text kind "campaign_planned")
            || differs event "plan_sha256" (text plan.plan_sha256))
          (journal "invalid-planned-event") first_state)

  -- the test after the loop: the completed stages are a prefix of those planned
  unfoldable pub check_prefix : State N → State N
  check_prefix s =
      flag (not (same_list (keys s.completed) (take (length s.completed) (stage_order plan))))
        (journal "completed-stages-are-not-a-prefix") s

  -- `_replay` of the events that were read
  unfoldable pub replay_all : List (Fields N) → Result RunnerError (State N)
  replay_all [] = err (missing_key "0")
  replay_all (first ∷ events) = do
    s ← planned_state first
    last ← replay_events (context_of (first ∷ events)) 1 events s
    ok (check_prefix last)

  -- `_replay`
  unfoldable pub replay : Result JournalError (List (Fields N)) → Result RunnerError (State N)
  replay (err e) =
      ok (record first_state { failures = unreadable_journal e ∷ []; disposition = text "invalid" })
  replay (ok events) = replay_all events
