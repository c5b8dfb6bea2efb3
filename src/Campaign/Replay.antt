-- ===== src/Campaign/Replay.antt =====
-- `_replay`: the state of a campaign, computed from the events of its journal. A state collects what is wrong
-- as failures and goes on; only what the source does not catch is raised.
pub mod Notices
pub mod Retirement
pub mod Generations
pub mod Runs
pub mod Decisions
pub mod Loop
pub mod Machine
pub mod Refines
pub mod Invariants
pub mod Depends
pub mod Gated
use shapleymcg.Common.{
  ℕ, zero, suc, String, Bool, true, false, not, ◌&&◌, ◌||◌, Option, none, some, List, [], ◌∷◌, ◌++◌,
  map, any, Keyed, ◌==◌, string_keys, nat_eq, nat_eq_iff, if◌then◌else◌, ◌≡◌, refl, ap, ap₂, ◌↔◌,
  arith, str_ltb,
}
use shapleymcg.Common.Dict.{Dict, get, put, keys}
use shapleymcg.Common.Json.{
  Numbers, Json, null, number, text, array, object, Fields, end, field, get_or_null, is_text,
  as_mapping, as_list, same_json, get_default,
}
use shapleymcg.Common.Sort.{sorted}
use shapleymcg.Campaign.Definition.{contains}
use shapleymcg.Campaign.Stages.{StageSpec}
use shapleymcg.Campaign.Journal.{JournalError, zero_hash}
use shapleymcg.Campaign.Files.{System, RunnerError}
use shapleymcg.Campaign.Gates.{Plan, Artifact}

-- A failure: of the journal, of an event by its `event_index`, or of the artifact of a stage.
pub data Failure (N : Type 0) : Type 0 where
  journal : String → Failure N
  unreadable_journal : JournalError → Failure N
  at_event : Json N → String → Failure N
  unknown_event : Json N → Json N → Failure N
  artifact_error artifact_result : String → RunnerError → Failure N
  artifact_drift : String → Failure N

-- An attempt that is not a natural number counts as -1, which is `none` here.
abbrev pub Attempt : Type 0
Attempt = Option ℕ

-- The variables of the loop over the events.
pub record State (N : Type 0) : Type 0 where
  pub failures : List (Failure N)
  pub completed : Dict String Artifact
  pub started : List (String × Attempt)
  pub start_events : List ((String × Attempt) × Fields N)
  pub completion_events : Dict String (Fields N)
  pub completed_predecessors : Dict String (Json N)
  pub terminated : List (String × Attempt)
  pub state_hash : String
  pub disposition : Json N
  pub completion_seen : Bool
  pub gate_decisions_seen : List (String × ℕ)
  pub retirement_completions_seen : List String
  pub pending_gate : Option String
  pub pending_supersession : Option String
  pub generation : ℕ
  pub generation_context : Fields N

-- What stays the same during the loop: the events, the plans of retirements by their hashes, and the files that
-- they retire by the hash of the artifact.
pub record Context (N L P : Type 0) : Type 0 where
  pub system : System N L P
  pub plan : Plan
  pub events : List (Fields N)
  pub retirement_plans : Dict String (Fields N)
  pub retired_by_artifact : Dict String (List (Json N))

abbrev pub gate_kinds : List String
gate_kinds = "confirmation" ∷ "kld_reanchor" ∷ []

abbrev pub first_state : {N : Type 0} → State N
first_state = record {
  failures = [];
  completed = [];
  started = [];
  start_events = [];
  completion_events = [];
  completed_predecessors = [];
  terminated = [];
  state_hash = zero_hash;
  disposition = text "running";
  completion_seen = false;
  gate_decisions_seen = [];
  retirement_completions_seen = [];
  pending_gate = none;
  pending_supersession = none;
  generation = 0;
  generation_context = end;
}

abbrev pub same_attempt : Attempt → Attempt → Bool
same_attempt none none = true
same_attempt none (some b) = false
same_attempt (some a) none = false
same_attempt (some a) (some b) = nat_eq a b

-- `(stage_id, attempt) in keys`
abbrev pub has_run : String × Attempt → List (String × Attempt) → Bool
has_run run runs = any (λ (r : String × Attempt). r.0 == run.0 && same_attempt r.1 run.1) runs

abbrev pub find_run {ℓ} : {A : Type ℓ} → String × Attempt → List ((String × Attempt) × A) → Option A
find_run run [] = none
find_run run ((r, a) ∷ runs) =
    if r.0 == run.0 && same_attempt r.1 run.1 then some a else find_run run runs

-- `(stage_id, generation) in gate_decisions_seen`
abbrev pub has_decision : String → ℕ → List (String × ℕ) → Bool
has_decision stage_id generation decisions =
    any (λ (d : String × ℕ). d.0 == stage_id && nat_eq d.1 generation) decisions

abbrev pub has_key {ℓ} : {V : Type ℓ} → String → Dict String V → Bool
has_key key d = contains key (keys d)

-- `d.pop(key, None)` for every key
abbrev pub drop_key {ℓ} : {V : Type ℓ} → String → Dict String V → Dict String V
drop_key key [] = []
drop_key key ((k, v) ∷ d) = let rest = drop_key key d in if k == key then rest else (k, v) ∷ rest

abbrev pub drop_keys {ℓ} : {V : Type ℓ} → List String → Dict String V → Dict String V
drop_keys [] d = d
drop_keys (key ∷ ks) d = drop_keys ks (drop_key key d)

abbrev pub find_stage : String → List StageSpec → Option StageSpec
find_stage id [] = none
find_stage id (stage ∷ stages) = if stage.stage_id == id then some stage else find_stage id stages

abbrev pub stage_order : Plan → List String
stage_order plan = map (λ (s : StageSpec). s.stage_id) plan.stages

-- `[failure] if test else []`
abbrev pub failure_if {ℓ} : {A : Type ℓ} → Bool → A → List A
failure_if true f = f ∷ []
failure_if false f = []

abbrev pub entry_lt {ℓ} : {V : Type ℓ} → String × V → String × V → Bool
entry_lt a b = str_ltb a.0 b.0

abbrev pub dict_json {ℓ} : {N : Type 0} {V : Type ℓ} → (V → Json N) → Dict String V → Fields N
dict_json f [] = end
dict_json f ((k, v) ∷ d) = field k (f v) (dict_json f d)

-- a text that is a key of a mapping; no other value is one
abbrev pub text_of : {N : Type 0} → Json N → Option String
text_of (text s) = some s
text_of _ = none

module _ {N : Type 0} ⦃n : Numbers N⦄ where
  -- `failures.append(failure)` where the test holds
  abbrev pub flag : Bool → Failure N → State N → State N
  flag test failure s = record s { failures = s.failures ++ failure_if test failure }

  -- `failures.append(f"journal[{event['event_index']}]:...")` where the test holds
  abbrev pub flag_event : Bool → Fields N → String → State N → State N
  flag_event test event what s = flag test (at_event (get_or_null "event_index" event) what) s

  -- `event.get(key) != value`
  unfoldable pub differs : Fields N → String → Json N → Bool
  unfolding same_json
  differs event key value = not (same_json (get_or_null key event) value)

  -- the hashes of the plan's inputs, in the order of their names
  unfoldable pub expected_static : Plan → Json N
  unfolding sorted
  expected_static plan = object (dict_json text (sorted entry_lt plan.inputs))
