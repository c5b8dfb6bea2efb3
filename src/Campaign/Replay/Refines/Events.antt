-- ===== src/Campaign/Replay/Refines/Events.antt =====
-- An event that is replayed without a failure moves the state machine.
use shapleymcg.Common.{
  of_negated, ℕ, ◌≡◌, refl, sym, ap, ◌∙◌, subst, String, true, false, Option, none, some, List, [],
  ◌∷◌, Bool-cases, Option-cases, inl, inr, string_keys, ◌==◌,
}
use shapleymcg.Common.Dict.{Dict, get, keys}
use shapleymcg.Common.Json.{Numbers, Json, Fields, text, get_or_null, is_text}
use shapleymcg.Common.Result.{ok, ok_injective}
use shapleymcg.Campaign.Definition.{contains}
use shapleymcg.Campaign.Stages.{StageSpec}
use shapleymcg.Campaign.Gates.{Artifact}
use shapleymcg.Campaign.Replay.{State, Context, Attempt, text_of, find_stage, gate_kinds}
use shapleymcg.Campaign.Replay.Notices.{replay_campaign_completed}
use shapleymcg.Campaign.Replay.Loop.{
  Handler, to_completed, to_recovery, to_superseded, to_started, to_gate_decision, to_unknown,
  to_preflight, to_retirement, to_termination, generation_differs, replay_stage, replay_any_stage,
  dispatch,
}
use shapleymcg.Campaign.Replay.Machine.{
  machine_of, Move, stays, ends, completes, decides, supersedes, is_gate,
}
use shapleymcg.Campaign.Replay.Refines.{
  Keeps, Keeps-trans, flag-Keeps, clean_append, refused, replay_recovery-Keeps,
  replay_preflight-Keeps, replay_retirement-Keeps,
}
use shapleymcg.Campaign.Replay.Refines.Runs.{
  replay_started-Keeps, replay_failed-Keeps, replay_termination_machine,
}
use shapleymcg.Campaign.Replay.Refines.Decisions.{replay_gate_decision_machine}
use shapleymcg.Campaign.Replay.Refines.Generations.{replay_superseded_machine}

find_stage_id :
    (id : String) (stages : List StageSpec) {stage : StageSpec}
    → find_stage id stages ≡ some stage
    → stage.stage_id ≡ id
find_stage_id id [] h = absurd (cc)
find_stage_id id (s ∷ ss) {stage} h = elim (Bool-cases (s.stage_id == id)) [
  | inl e ↦
      let same : ◌≡◌ {A = Option StageSpec} (some s) (some stage) = rw e at h in
      ap (λ (o : Option StageSpec). elim o [ none ↦ id | some x ↦ x.stage_id ]) (sym same)
      ∙ (string_keys.same_iff s.stage_id id).0 e
  | inr e ↦ find_stage_id id ss (rw e at h)
]

contains-get :
    (id : String) (d : Dict String Artifact) {artifact : Artifact}
    → get id d ≡ some artifact
    → contains id (keys d) ≡ true
unfolding get
contains-get id [] h = absurd (cc)
contains-get id ((k, v) ∷ d) h = elim (Bool-cases (k == id)) [
  | inl e ↦ rw e refl
  | inr e ↦ rw e (contains-get id d (rw e at h))
]

pub named : {N : Type 0} (v : Json N) (s : String) → is_text v s ≡ true → v ≡ text s
named (text t) s h = ap text ((string_keys.same_iff t s).0 h)
named Json.null s h = absurd (cc)
named (Json.boolean b) s h = absurd (cc)
named (Json.number x) s h = absurd (cc)
named (Json.array vs) s h = absurd (cc)
named (Json.object fs) s h = absurd (cc)

text_injective : {N : Type 0} {s t : String} → ◌≡◌ {A = Json N} (text s) (text t) → s ≡ t
text_injective h = cc

text_of-some : {N : Type 0} (v : Json N) {s : String} → text_of v ≡ some s → v ≡ text s
text_of-some (text t) h = ap text (cc)
text_of-some Json.null h = absurd (cc)
text_of-some (Json.boolean b) h = absurd (cc)
text_of-some (Json.number x) h = absurd (cc)
text_of-some (Json.array vs) h = absurd (cc)
text_of-some (Json.object fs) h = absurd (cc)

module _ {N : Type 0} ⦃n : Numbers N⦄ where
  -- What a state awaits of the event that a handler takes.
  abbrev pub Expects : Handler → Fields N → State N → Type 0
  Expects to_recovery event s = Unit
  Expects to_gate_decision event s =
      ((gate : String)
        → s.pending_gate ≡ some gate
        → is_text (get_or_null "stage_id" event) gate ≡ true)
      × (s.pending_supersession ≡ none)
  Expects to_superseded event s = s.pending_gate ≡ none
  Expects _ event s = (s.pending_gate ≡ none) × (s.pending_supersession ≡ none)

module _ {N L P : Type 0} ⦃n : Numbers N⦄ (context : Context N L P) where
  -- There were no failures, and the machine moves where the event is one that the state awaits.
  pub record Moves (Awaited : Type 0) (s t : State N) : Type 0 where
    pub clean : s.failures ≡ []
    pub move : Awaited → Move context.plan (machine_of s) (machine_of t)

  pub Keeps-Moves :
      {Awaited : Type 0} {s t : State N} → Keeps s t → t.failures ≡ [] → Moves Awaited s t
  Keeps-Moves {s = s} {t = t} k e = record {
    clean = k.clean e;
    move = λ _. subst (λ m. Move context.plan (machine_of s) m) (sym k.same) stays;
  }

  replay_campaign_completed-Moves :
      (event : Fields N) (s : State N)
      → (replay_campaign_completed context event s).failures ≡ []
      → Moves (s.pending_gate ≡ none) s (replay_campaign_completed context event s)
  unfolding replay_campaign_completed
  replay_campaign_completed-Moves event s e =
      let (_, e1) = clean_append _ _ _ e in
      let (_, e2) = clean_append _ _ _ e1 in
      let (all_done, e3) = clean_append _ _ _ e2 in
      let (first, clean) = clean_append _ _ _ e3 in
      record { clean = clean; move = λ calm. ends first calm (of_negated _ all_done) }

  gate_of_stage :
      (stage : StageSpec)
      → find_stage stage.stage_id context.plan.stages ≡ some stage
      → contains stage.kind gate_kinds ≡ true
      → is_gate context.plan stage.stage_id ≡ true
  gate_of_stage stage found kind = rw (found, is_gate) kind

  replay_stage-Moves :
      (handler : Handler) (event : Fields N) (attempt : Attempt) (stage : StageSpec) (s t : State N)
      → replay_stage context handler event attempt stage s ≡ ok t
      → t.failures ≡ []
      → find_stage stage.stage_id context.plan.stages ≡ some stage
      → get_or_null "stage_id" event ≡ text stage.stage_id
      → Moves (Expects handler event s) s t
  unfolding replay_stage
  replay_stage-Moves to_started event attempt stage s t h e found own =
      let marked =
        Keeps-trans (flag-Keeps _ _ s) (replay_started-Keeps context event attempt stage _ t h) in
      Keeps-Moves marked e
  replay_stage-Moves (to_termination false) event attempt stage s t h e found own =
      Keeps-Moves
        (Keeps-trans (flag-Keeps _ _ s) (replay_failed-Keeps context event attempt stage _ t h)) e
  replay_stage-Moves (to_termination true) event attempt stage s t h e found own =
      let (clean, new, moved) = replay_termination_machine context event attempt stage _ t h e in
      record {
        clean = (clean_append _ _ _ clean).1;
        move = λ calm.
            subst (λ m. Move context.plan (machine_of s) m) (sym moved)
              (completes stage found new calm.0 calm.1);
      }
  replay_stage-Moves to_gate_decision event attempt stage s t h e found own =
      let (clean, fresh, kind, (artifact, there), again, moved) =
        replay_gate_decision_machine context event stage _ t h e in
      record {
        clean = (clean_append _ _ _ clean).1;
        move = λ awaited.
            subst (λ m. Move context.plan (machine_of s) m) (sym moved)
              (decides stage.stage_id again (gate_of_stage stage found kind)
                (contains-get stage.stage_id s.completed there) fresh
                (λ gate p. text_injective (sym (named _ gate (awaited.0 gate p)) ∙ own)) awaited.1);
      }
  replay_stage-Moves to_unknown event attempt stage s t h e found own =
      absurd (refused _ _ {t = t} h e)
  replay_stage-Moves to_completed event attempt stage s t h e found own =
      absurd (refused _ _ {t = t} h e)
  replay_stage-Moves to_recovery event attempt stage s t h e found own =
      absurd (refused _ _ {t = t} h e)
  replay_stage-Moves to_superseded event attempt stage s t h e found own =
      absurd (refused _ _ {t = t} h e)
  replay_stage-Moves (to_preflight b) event attempt stage s t h e found own =
      absurd (refused _ _ {t = t} h e)
  replay_stage-Moves (to_retirement b) event attempt stage s t h e found own =
      absurd (refused _ _ {t = t} h e)

  replay_any_stage-Moves :
      (handler : Handler) (event : Fields N) (attempt : Attempt) (s t : State N)
      → replay_any_stage context handler event attempt s ≡ ok t
      → t.failures ≡ []
      → Moves (Expects handler event s) s t
  unfolding replay_any_stage
  replay_any_stage-Moves handler event attempt s t h e =
      elim (Option-cases (text_of (get_or_null "stage_id" event))) [
        | inl p ↦ absurd (refused _ s {t = t} (rw (p, replay_any_stage) at h) e)
        | inr (id, p) ↦ elim (Option-cases (find_stage id context.plan.stages)) [
          | inl q ↦ absurd (refused _ s {t = t} (rw (p, q, replay_any_stage) at h) e)
          | inr (stage, q) ↦ elim (Bool-cases (generation_differs event s)) [
            | inl r ↦ absurd (refused _ s {t = t} (rw (p, q, r, replay_any_stage) at h) e)
            | inr r ↦
                let own = find_stage_id id context.plan.stages q in
                replay_stage-Moves handler event attempt stage s t
                  (rw (p, q, r, replay_any_stage) at h) e
                  (ap (λ i. find_stage i context.plan.stages) own ∙ q)
                  (text_of-some _ p ∙ ap text (sym own))
          ]
        ]
      ]

  pub dispatch-Moves :
      (handler : Handler) (index : ℕ) (event : Fields N) (attempt : Attempt) (s t : State N)
      → dispatch context handler index event attempt s ≡ ok t
      → t.failures ≡ []
      → Moves (Expects handler event s) s t
  unfolding dispatch
  dispatch-Moves to_completed index event attempt s t h e =
      let same = ok_injective h in
      let ended =
        replay_campaign_completed-Moves event s (ap (λ (z : State N). z.failures) same ∙ e) in
      record {
        clean = ended.clean;
        move = λ calm.
            subst (λ z. Move context.plan (machine_of s) (machine_of z)) same (ended.move calm.0);
      }
  dispatch-Moves to_recovery index event attempt s t h e =
      Keeps-Moves (subst (Keeps s) (ok_injective h) (replay_recovery-Keeps context event s)) e
  dispatch-Moves (to_preflight passed) index event attempt s t h e =
      Keeps-Moves (replay_preflight-Keeps context passed event s t h) e
  dispatch-Moves (to_retirement b) index event attempt s t h e =
      Keeps-Moves
        (subst (Keeps s) (ok_injective h) (replay_retirement-Keeps context b event attempt s)) e
  dispatch-Moves to_superseded index event attempt s t h e =
      let (clean, id, later, pending, bound, at, moved) =
        replay_superseded_machine context index event attempt s t h e in
      record {
        clean = clean;
        move = λ calm.
            subst (λ m. Move context.plan (machine_of s) m) (sym moved)
              (supersedes id later calm pending bound at);
      }
  dispatch-Moves to_started index event attempt s t h e =
      replay_any_stage-Moves to_started event attempt s t h e
  dispatch-Moves to_gate_decision index event attempt s t h e =
      replay_any_stage-Moves to_gate_decision event attempt s t h e
  dispatch-Moves to_unknown index event attempt s t h e =
      replay_any_stage-Moves to_unknown event attempt s t h e
  dispatch-Moves (to_termination b) index event attempt s t h e =
      replay_any_stage-Moves (to_termination b) event attempt s t h e
