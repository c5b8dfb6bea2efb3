-- ===== src/Campaign/Replay/Machine.antt =====
-- A campaign as a state machine: what is completed, in which generation, whether the campaign is complete, the
-- gate that awaits its decision or a new generation, and the decisions.
use shapleymcg.Common.{
  ℕ, suc, ◌<◌, ◌≡◌, String, Bool, true, false, Option, none, some, List, [], ◌∷◌, ◌++◌, string_keys,
  ◌==◌, if◌then◌else◌,
}
use shapleymcg.Common.Dict.{keys, same_set}
use shapleymcg.Campaign.Definition.{contains}
use shapleymcg.Campaign.Stages.{StageSpec}
use shapleymcg.Campaign.Gates.{Plan}
use shapleymcg.Campaign.Replay.{State, gate_kinds, has_decision, find_stage, stage_order}
use shapleymcg.Campaign.Replay.Generations.{from_stage}

pub record Machine : Type 0 where
  pub completed : List String
  pub generation : ℕ
  pub complete : Bool
  pub gate : Option String
  pub supersession : Option String
  pub decided : List (String × ℕ)

abbrev pub machine_of : {N : Type 0} → State N → Machine
machine_of s = record {
  completed = keys s.completed;
  generation = s.generation;
  complete = s.completion_seen;
  gate = s.pending_gate;
  supersession = s.pending_supersession;
  decided = s.gate_decisions_seen;
}

abbrev pub first_machine : Machine
first_machine = record {
  completed = [];
  generation = 0;
  complete = false;
  gate = none;
  supersession = none;
  decided = [];
}

-- the keys that stay
abbrev pub remove_key : String → List String → List String
remove_key key [] = []
remove_key key (k ∷ ks) = let rest = remove_key key ks in if k == key then rest else k ∷ rest

abbrev pub remove_keys : List String → List String → List String
remove_keys [] ks = ks
remove_keys (j ∷ js) ks = remove_keys js (remove_key j ks)

-- those of a list that are completed
abbrev pub present : List String → List String → List String
present completed [] = []
present completed (id ∷ ids) =
    let rest = present completed ids in if contains id completed then id ∷ rest else rest

-- a stage that is a gate
abbrev pub is_gate : Plan → String → Bool
is_gate plan id = elim (find_stage id plan.stages) [
  | none ↦ false
  | some stage ↦ contains stage.kind gate_kinds
]

module _ (plan : Plan) where
  -- What an event may do. While a gate awaits its decision, or a new generation is awaited, only these follow.
  pub data Move : Machine → Machine → Type 0 where
    stays : {m : Machine} → Move m m
    ends :
        {m : Machine}
        → m.complete ≡ false
        → m.gate ≡ none
        → same_set m.completed (stage_order plan) ≡ true
        → Move m (record m { complete = true })
    completes :
        {m : Machine} (stage : StageSpec)
        → find_stage stage.stage_id plan.stages ≡ some stage
        → contains stage.stage_id m.completed ≡ false
        → m.gate ≡ none
        → m.supersession ≡ none
        → Move m (record m {
          completed = m.completed ++ stage.stage_id ∷ [];
          gate = if contains stage.kind gate_kinds then some stage.stage_id else m.gate;
        })
    decides :
        {m : Machine} (id : String) (again : Bool)
        → is_gate plan id ≡ true
        → contains id m.completed ≡ true
        → has_decision id m.generation m.decided ≡ false
        → ((gate : String) → m.gate ≡ some gate → gate ≡ id)
        → m.supersession ≡ none
        → Move m (record m {
          decided = (id, m.generation) ∷ m.decided;
          gate = none;
          supersession = if again then some id else m.supersession;
        })
    supersedes :
        {m : Machine} (id : String) (later : List String)
        → m.gate ≡ none
        → m.supersession ≡ some id
        → suc m.generation < plan.definition.max_generations
        → from_stage "allocation" (stage_order plan) ≡ some later
        → Move m (record m {
          completed = remove_keys (present m.completed later) m.completed;
          generation = suc m.generation;
          complete = false;
          supersession = none;
        })

  -- What many events may do.
  pub data Reachable : Machine → Type 0 where
    start : Reachable first_machine
    step : {m m' : Machine} → Reachable m → Move m m' → Reachable m'
