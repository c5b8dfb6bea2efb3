-- ===== src/Campaign/Replay/Refines/Steps.antt =====
-- The body of the loop over the events moves the state machine, and the loop reaches what many moves reach.
use shapleymcg.Common.{
  of_negated, either_true, both_true, some_ne_none, some_injective, ℕ, suc, ◌≡◌, ◌≢◌, refl, sym, ap,
  ◌∙◌, subst, String, Bool, true, false, ◌||◌, Option, none, some, List, [], ◌∷◌, ◌++◌, Bool-cases,
  ◌⊎◌, inl, inr, string_keys,
}
use mathlib.Core.Bool.{false≢true}
use shapleymcg.Common.Json.{Numbers, Json, Fields, text, get_field, get_or_null, is_text}
use shapleymcg.Common.Result.{ok, bind-eq-ok, ok_injective, err-ne-ok, or_raise, or_raise-eq-ok}
use shapleymcg.Campaign.Files.{System, missing_key}
use shapleymcg.Campaign.Gates.{Plan}
use shapleymcg.Campaign.Replay.{State, Context, Failure, flag_event, differs}
use shapleymcg.Campaign.Replay.Loop.{
  Handler, to_completed, to_recovery, to_superseded, to_started, to_gate_decision, to_unknown,
  to_preflight, to_retirement, to_termination, handler_of, attempt_of, is_recovery, is_decision_of,
  decision_due, supersession_due, expect_decision, expect_supersession, replay_event, replay_events,
  context_of, planned_state, check_prefix, replay_all,
}
use shapleymcg.Campaign.Replay.Machine.{machine_of, first_machine, Move, Reachable, start, step}
use shapleymcg.Campaign.Replay.Refines.{clean_append, refused}
use shapleymcg.Campaign.Replay.Refines.Events.{Expects, named, dispatch-Moves}

module _ {N : Type 0} ⦃n : Numbers N⦄ where
  not_clean : (f : Failure N) (s : State N) → s.failures ++ f ∷ [] ≡ [] → ⊥
  not_clean f s h = absurd (false≢true (sym (clean_append s.failures true f h).0))

  -- Nothing awaits a decision, or the event is the decision or a recovery.
  abbrev GateServed : Fields N → State N → Type 0
  GateServed event s =
      (s.pending_gate ≡ none)
      ⊎ ((gate : String) × (s.pending_gate ≡ some gate)
          × (is_decision_of gate event || is_recovery event ≡ true))

  -- Nothing awaits a new generation, or the event supersedes the generation or is a recovery.
  abbrev SupersessionServed : Fields N → State N → Type 0
  SupersessionServed event s =
      (s.pending_supersession ≡ none)
      ⊎ (is_text (get_or_null "event" event) "generation_superseded" || is_recovery event ≡ true)

  served_gate :
      (event : Fields N) (o : Option String)
      → decision_due o event ≡ false
      → (o ≡ none)
        ⊎ ((gate : String) × (o ≡ some gate)
            × (is_decision_of gate event || is_recovery event ≡ true))
  served_gate event none h = inl refl
  served_gate event (some gate) h = inr (gate, refl, of_negated _ h)

  served_supersession :
      (event : Fields N) (o : Option String)
      → supersession_due o event ≡ false
      → (o ≡ none)
        ⊎ (is_text (get_or_null "event" event) "generation_superseded" || is_recovery event ≡ true)
  served_supersession event none h = inl refl
  served_supersession event (some gate) h = inr (of_negated _ h)

  expect_decision-GateServed :
      (event : Fields N) (s : State N)
      → (expect_decision event s).failures ≡ []
      → (expect_decision event s ≡ s) × GateServed event s
  unfolding expect_decision
  expect_decision-GateServed event s e = elim (Bool-cases (decision_due s.pending_gate event)) [
    | inl q ↦ absurd (not_clean _ s (rw (q, expect_decision) at e))
    | inr q ↦ (rw (q, expect_decision) refl, served_gate event s.pending_gate q)
  ]

  expect_supersession-SupersessionServed :
      (event : Fields N) (s : State N)
      → (expect_supersession event s).failures ≡ []
      → (expect_supersession event s ≡ s) × SupersessionServed event s
  unfolding expect_supersession
  expect_supersession-SupersessionServed event s e =
      elim (Bool-cases (supersession_due s.pending_supersession event)) [
        | inl q ↦ absurd (not_clean _ s (rw (q, expect_supersession) at e))
        | inr q ↦
            (rw (q, expect_supersession) refl, served_supersession event s.pending_supersession q)
      ]

  -- A recovery, a decision and a supersession are told by their names.
  recovery_handler :
      (event : Fields N)
      → is_recovery event ≡ true
      → handler_of (get_or_null "event" event) ≡ to_recovery
  recovery_handler event h =
      let (name, _) =
        both_true (is_text (get_or_null "event" event) "journal_tail_recovered") _ h in
      ap handler_of (named (get_or_null "event" event) "journal_tail_recovered" name)

  calm_gate :
      (event : Fields N) (s : State N)
      → GateServed event s
      → handler_of (get_or_null "event" event) ≢ to_recovery
      → handler_of (get_or_null "event" event) ≢ to_gate_decision
      → s.pending_gate ≡ none
  calm_gate event s (inl p) a b = p
  calm_gate event s (inr (gate, p, q)) a b =
      elim (either_true (is_decision_of gate event) (is_recovery event) q) [
        | inl d ↦
            let (name, _) = both_true (is_text (get_or_null "event" event) "gate_decision") _ d in
            absurd (b (ap handler_of (named (get_or_null "event" event) "gate_decision" name)))
        | inr r ↦ absurd (a (recovery_handler event r))
      ]

  calm_supersession :
      (event : Fields N) (s : State N)
      → SupersessionServed event s
      → handler_of (get_or_null "event" event) ≢ to_recovery
      → handler_of (get_or_null "event" event) ≢ to_superseded
      → s.pending_supersession ≡ none
  calm_supersession event s (inl p) a b = p
  calm_supersession event s (inr q) a b =
      elim (either_true (is_text (get_or_null "event" event) "generation_superseded")
        (is_recovery event) q) [
          | inl d ↦
              absurd
                (b (ap handler_of (named (get_or_null "event" event) "generation_superseded" d)))
          | inr r ↦ absurd (a (recovery_handler event r))
        ]

  own_decision :
      (event : Fields N) (s : State N) (gate : String)
      → GateServed event s
      → handler_of (get_or_null "event" event) ≢ to_recovery
      → s.pending_gate ≡ some gate
      → is_text (get_or_null "stage_id" event) gate ≡ true
  own_decision event s gate (inl p) a at = absurd (some_ne_none p at)
  own_decision event s gate (inr (g, p, q)) a at =
      elim (either_true (is_decision_of g event) (is_recovery event) q) [
        | inl d ↦
            let (_, stage) = both_true (is_text (get_or_null "event" event) "gate_decision") _ d in
            let same : g ≡ gate = some_injective (sym p ∙ at) in
            subst (λ z. is_text (get_or_null "stage_id" event) z ≡ true) same stage
        | inr r ↦ absurd (a (recovery_handler event r))
      ]

  all_calm :
      {handler : Handler} (event : Fields N) (s : State N)
      → handler_of (get_or_null "event" event) ≡ handler
      → handler ≢ to_recovery
      → handler ≢ to_gate_decision
      → handler ≢ to_superseded
      → GateServed event s
      → SupersessionServed event s
      → (s.pending_gate ≡ none) × (s.pending_supersession ≡ none)
  all_calm event s h a b c g u = (
    calm_gate event s g (λ z. a (sym h ∙ z)) (λ z. b (sym h ∙ z)),
    calm_supersession event s u (λ z. a (sym h ∙ z)) (λ z. c (sym h ∙ z)),
  )

  holds-Expects :
      (handler : Handler) (event : Fields N) (s : State N)
      → handler_of (get_or_null "event" event) ≡ handler
      → GateServed event s
      → SupersessionServed event s
      → Expects handler event s
  holds-Expects to_recovery event s h g u = tt
  holds-Expects to_gate_decision event s h g u = (
    (λ gate at. own_decision event s gate g (λ z. absurd (cc)) at),
    calm_supersession event s u (λ z. absurd (cc)) (λ z. absurd (cc)),
  )
  holds-Expects to_superseded event s h g u =
      calm_gate event s g (λ z. absurd (cc)) (λ z. absurd (cc))
  holds-Expects to_completed event s h g u = all_calm event s h (λ z. cc) (λ z. cc) (λ z. cc) g u
  holds-Expects to_started event s h g u = all_calm event s h (λ z. cc) (λ z. cc) (λ z. cc) g u
  holds-Expects to_unknown event s h g u = all_calm event s h (λ z. cc) (λ z. cc) (λ z. cc) g u
  holds-Expects (to_preflight b) event s h g u =
      all_calm event s h (λ z. cc) (λ z. cc) (λ z. cc) g u
  holds-Expects (to_retirement b) event s h g u =
      all_calm event s h (λ z. cc) (λ z. cc) (λ z. cc) g u
  holds-Expects (to_termination b) event s h g u =
      all_calm event s h (λ z. cc) (λ z. cc) (λ z. cc) g u

module _ {N L P : Type 0} ⦃n : Numbers N⦄ (context : Context N L P) where
  -- What `_replay` does with an event, where it reports no failure, is a move of the state machine, and there
  -- was no failure before.
  pub replay_event-Move :
      (index : ℕ) (event : Fields N) (s t : State N)
      → replay_event context index event s ≡ ok t
      → t.failures ≡ []
      → (s.failures ≡ []) × Move context.plan (machine_of s) (machine_of t)
  unfolding replay_event
  replay_event-Move index event s t h e =
      elim (Bool-cases (differs event "plan_sha256" (text context.plan.plan_sha256))) [
        | inl p ↦ absurd (refused _ s {t = t} (rw (p, replay_event) at h) e)
        | inr p ↦
            let (kind, q, r) =
              bind-eq-ok (or_raise (get_field "event" event) (missing_key "event")) _ {b = t}
                (rw (p, replay_event) at h) in
            let named_so : get_or_null "event" event ≡ kind =
              ap (λ (o : Option (Json N)). elim o [ none ↦ Json.null | some v ↦ v ])
                (or_raise-eq-ok (get_field "event" event) _ q) in
            let no_attempt = elim (attempt_of event) as (λ _. Bool) [
              | none ↦ true
              | some a ↦ false
            ] in
            let s0 = flag_event no_attempt event "invalid-attempt" s in
            let s1 = expect_decision event s0 in
            let s2 = expect_supersession event s1 in
            let moved =
              dispatch-Moves context (handler_of kind) index event (attempt_of event) s2 t r e in
            let (same2, served2) = expect_supersession-SupersessionServed event s1 moved.clean in
            let clean1 = ap (λ (z : State N). z.failures) (sym same2) ∙ moved.clean in
            let (same1, served1) = expect_decision-GateServed event s0 clean1 in
            let same : s2 ≡ s0 = same2 ∙ same1 in
            let supersession = subst (SupersessionServed event) same1 served2 in
            let expected : Expects (handler_of kind) event s2 =
              subst (Expects (handler_of kind) event) (sym same) (
                holds-Expects (handler_of kind) event s0 (ap handler_of named_so) served1
                  supersession) in
            (
              (clean_append _ _ _ (ap (λ (z : State N). z.failures) (sym same1) ∙ clean1)).1,
              subst (λ z. Move context.plan z (machine_of t)) (ap machine_of same)
                  (moved.move expected),
            )
      ]

  -- The loop reaches what its moves reach.
  pub replay_events-Reachable :
      (index : ℕ) (events : List (Fields N)) (s t : State N)
      → replay_events context index events s ≡ ok t
      → t.failures ≡ []
      → (s.failures ≡ [])
        × (Reachable context.plan (machine_of s) → Reachable context.plan (machine_of t))
  unfolding replay_events
  replay_events-Reachable index [] s t h e =
      let same = ok_injective h in
      (
        ap (λ (z : State N). z.failures) same ∙ e,
        λ r. subst (λ z. Reachable context.plan (machine_of z)) same r,
      )
  replay_events-Reachable index (event ∷ events) s t h e =
      let (next, p, q) = bind-eq-ok (replay_event context index event s) _ {b = t} h in
      let (clean, later) = replay_events-Reachable (suc index) events next t q e in
      let (first, move) = replay_event-Move index event s next p clean in
      (first, λ r. later (step r move))

module _ {N L P : Type 0} ⦃n : Numbers N⦄ (system : System N L P) (plan : Plan) where
  check_prefix_machine :
      (s : State N)
      → (check_prefix system plan s).failures ≡ []
      → (s.failures ≡ []) × (machine_of (check_prefix system plan s) ≡ machine_of s)
  unfolding check_prefix
  check_prefix_machine s e = ((clean_append _ _ _ e).1, refl)

  planned_machine :
      (event : Fields N) (s : State N)
      → planned_state system plan event ≡ ok s
      → machine_of s ≡ first_machine
  unfolding planned_state
  planned_machine event s h =
      let (_, _, q) =
        bind-eq-ok (or_raise (get_field "event" event) (missing_key "event")) _ {b = s} h in
      ap machine_of (sym (ok_injective q))

  -- A replay without failures reaches a state of the machine.
  pub replay_all-Reachable :
      (events : List (Fields N)) (s : State N)
      → replay_all system plan events ≡ ok s
      → s.failures ≡ []
      → Reachable plan (machine_of s)
  unfolding replay_all
  replay_all-Reachable [] s h e = absurd (err-ne-ok _ s h)
  replay_all-Reachable (first ∷ events) s h e =
      let (s0, p, q) = bind-eq-ok (planned_state system plan first) _ {b = s} h in
      let (last, r, u) =
        bind-eq-ok (replay_events (context_of system plan (first ∷ events)) 1 events s0) _ {b = s}
          q in
      let same = ok_injective u in
      let (clean, moved) = check_prefix_machine last (ap (λ (z : State N). z.failures) same ∙ e) in
      let (_, reach) =
        replay_events-Reachable (context_of system plan (first ∷ events)) 1 events s0 last r
          clean in
      subst (Reachable plan) (sym moved ∙ ap machine_of same)
        (reach (subst (Reachable plan) (sym (planned_machine first s0 p)) start))
