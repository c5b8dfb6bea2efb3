-- ===== src/Campaign/Stages.antt =====
-- `_build_stages`: the stages of a campaign, in the order in which they run.
pub mod Order
pub mod Blocks
pub mod OneBlock
use Prim.Native.String.{◌++◌ as append}
use shapleymcg.Common.{
  ℕ, zero, suc, ◌+◌, ◌-◌, ◌/◌, ◌%◌, String, Bool, true, false, not, ◌||◌, Option, none, some, List,
  [], ◌∷◌, ◌++◌, map, ltb, nat_eq, get_or, length, if◌then◌else◌, ◌==◌, string_keys,
}
use shapleymcg.Campaign.Definition.{CampaignDefinition, Interval, equals, contains}

pub record StageSpec : Type 0 where
  pub stage_id : String
  pub kind : String
  pub dependencies : List String
  pub layer : Option ℕ
  pub block_layers : List ℕ

abbrev digit : ℕ → String
digit n = get_or ("0" ∷ "1" ∷ "2" ∷ "3" ∷ "4" ∷ "5" ∷ "6" ∷ "7" ∷ "8" ∷ "9" ∷ []) n ""

-- the decimal digits of a number; it has at most as many as the fuel
abbrev decimal : ℕ → ℕ → String → String
decimal zero n rest = rest
decimal (suc fuel) n rest = elim (ltb n 10) [
  | true ↦ append (digit n) rest
  | false ↦ decimal fuel (n / 10) (append (digit (n % 10)) rest)
]

-- `f"{n:03d}"`
unfoldable pub three_digits : ℕ → String
three_digits n =
    let padding = if ltb n 10 then "00" else if ltb n 100 then "0" else "" in
    append padding (decimal (suc n) n "")

abbrev pub base_kinds : List String
base_kinds =
    "identity" ∷ "teacher_capture" ∷ "fit_capture" ∷ "fit" ∷ "candidates" ∷ "attribution"
    ∷ "allocation" ∷ "confirmation" ∷ []

-- what a base stage depends on
abbrev pub base_dependencies : String → List String
base_dependencies kind =
    if kind == "identity"
    then []
    else if kind == "teacher_capture"
    then "identity" ∷ []
    else if kind == "fit_capture"
    then "identity" ∷ []
    else if kind == "fit"
    then "fit_capture" ∷ []
    else if kind == "candidates"
    then "fit_capture" ∷ "fit" ∷ []
    else if kind == "attribution"
    then "teacher_capture" ∷ "candidates" ∷ []
    else if kind == "confirmation"
    then "candidates" ∷ "allocation" ∷ []
    else "candidates" ∷ "attribution" ∷ []

abbrev pub inventory_kinds : List String
inventory_kinds = "fit_capture" ∷ "fit" ∷ "candidates" ∷ "attribution" ∷ "allocation" ∷ []

abbrev pub base_stage : List ℕ → String → StageSpec
base_stage layers kind = record {
  stage_id = kind;
  kind = kind;
  dependencies = base_dependencies kind;
  layer = none;
  block_layers = if contains kind inventory_kinds then layers else [];
}

-- The variables of the loop over the layers.
pub record Building : Type 0 where
  pub stages : List StageSpec
  pub accepted_encode_ids : List String
  pub accepted_reanchor_ids : List String
  pub block : List ℕ
  pub previous_encode : String
  pub previous_reanchor : String
  pub block_index : ℕ

abbrev pub layer_stage : String → String → List String → ℕ → StageSpec
layer_stage stage_id kind dependencies layer = record {
  stage_id = stage_id;
  kind = kind;
  dependencies = dependencies;
  layer = some layer;
  block_layers = [];
}

abbrev pub capture_id : ℕ → String
capture_id layer = append "causal_fit_capture.layer_" (three_digits layer)

abbrev pub fit_id : ℕ → String
fit_id layer = append "causal_fit.layer_" (three_digits layer)

abbrev pub candidates_id : ℕ → String
candidates_id layer = append "causal_candidates.layer_" (three_digits layer)

abbrev pub encode_id : ℕ → String
encode_id layer = append "causal_encode.layer_" (three_digits layer)

abbrev pub reanchor_id : ℕ → String
reanchor_id block_index = append "kld_reanchor.block_" (three_digits block_index)

-- `[previous]` if it is not the empty text
abbrev pub if_any : String → List String
if_any previous = if previous == "" then [] else previous ∷ []

-- what every stage of a layer depends on
abbrev pub predecessor_dependencies : Building → List String
predecessor_dependencies b =
    ("allocation" ∷ "confirmation" ∷ []) ++ if_any b.previous_encode ++ if_any b.previous_reanchor

-- the four stages of a layer
unfoldable pub layer_stages : Building → ℕ → List StageSpec
layer_stages b layer =
    let before = predecessor_dependencies b in
    layer_stage (capture_id layer) "causal_fit_capture" before layer
    ∷ layer_stage (fit_id layer) "causal_fit" (capture_id layer ∷ before) layer
    ∷ layer_stage (candidates_id layer) "causal_candidates"
        (capture_id layer ∷ fit_id layer ∷ before) layer
    ∷ layer_stage (encode_id layer) "causal_encode" (candidates_id layer ∷ fit_id layer ∷ before)
        layer
    ∷ []

-- the part of the loop's body up to `block.append(layer)`
unfoldable pub add_layer : Building → ℕ → Building
unfolding layer_stages
add_layer b layer = record b {
  stages = b.stages ++ layer_stages b layer;
  accepted_encode_ids = b.accepted_encode_ids ++ encode_id layer ∷ [];
  block = b.block ++ layer ∷ [];
  previous_encode = encode_id layer;
}

-- the re-anchor at the end of a block
unfoldable pub add_reanchor : Building → Building
add_reanchor b =
    let id = reanchor_id b.block_index in
    record b {
      stages =
          b.stages
          ++ record {
            stage_id = id;
            kind = "kld_reanchor";
            dependencies = "teacher_capture" ∷ b.accepted_encode_ids;
            layer = none;
            block_layers = b.block;
          }
            ∷ [];
      accepted_reanchor_ids = b.accepted_reanchor_ids ++ id ∷ [];
      previous_reanchor = id;
      block = [];
      block_index = suc b.block_index;
    }

-- `len(block) == definition.reanchor_every_layers or index == len(definition.layers) - 1`
unfoldable pub close_block : Interval → ℕ → ℕ → Building → Building
unfolding add_reanchor
close_block every total index b =
    if equals (length b.block) every || nat_eq index (total - 1) then add_reanchor b else b

-- the loop over the layers
unfoldable pub add_layers : Interval → ℕ → ℕ → List ℕ → Building → Building
unfolding add_layer close_block
add_layers every total index [] b = b
add_layers every total index (layer ∷ layers) b =
    add_layers every total (suc index) layers (close_block every total index (add_layer b layer))

abbrev pub last_stage : String → List String → StageSpec
last_stage id dependencies = record {
  stage_id = id;
  kind = id;
  dependencies = dependencies;
  layer = none;
  block_layers = [];
}

abbrev pub last_stages : List String → List StageSpec
last_stages checkpoint_dependencies =
    last_stage "checkpoint_emission" checkpoint_dependencies
    ∷ last_stage "checkpoint_audit" ("checkpoint_emission" ∷ [])
    ∷ last_stage "student_capture" ("checkpoint_emission" ∷ "checkpoint_audit" ∷ [])
    ∷ last_stage "final_kld" ("teacher_capture" ∷ "student_capture" ∷ [])
    ∷ []

-- the variables before the loop
abbrev pub first_building : List ℕ → Building
first_building layers = record {
  stages = map (base_stage layers) base_kinds;
  accepted_encode_ids = [];
  accepted_reanchor_ids = [];
  block = [];
  previous_encode = "";
  previous_reanchor = "";
  block_index = 0;
}

unfoldable pub build_stages : CampaignDefinition → List StageSpec
unfolding add_layers
build_stages definition =
    let b =
      add_layers definition.reanchor_every_layers (length definition.layers) 0 definition.layers
        (first_building definition.layers) in
    b.stages
    ++ last_stages (("allocation" ∷ []) ++ b.accepted_encode_ids ++ b.accepted_reanchor_ids)
