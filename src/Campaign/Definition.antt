-- ===== src/Campaign/Definition.antt =====
-- `CampaignDefinition` and its `validate`. Where a field has the type that the source asks for, it is a field
-- of that type here. Of the interval the source asks only that it is a number and not a Boolean, so it is any
-- number here, also one that is not whole.
pub mod Valid
use shapleymcg.Common.{
  ℕ, suc, ◌*◌, nat_eq, String, Bool, true, false, not, ◌&&◌, ◌||◌, List, [], ◌∷◌, any, leb, ltb,
  ◌==◌, string_keys, nat_keys,
}
use shapleymcg.Common.Dict.{Dict, distinct, same_list}
use shapleymcg.Common.Result.{Result, ok, ◌>>=◌, ◌>>◌, raise_if}
use shapleymcg.Common.Sort.{sorted}

-- The exceptions of the module, by what raises them.
pub data CampaignError : Type 0 where
  unsupported_definition_schema experiment_spec_required inputs_invalid layers_empty : CampaignError
  layers_not_increasing reanchor_interval_invalid failure_policy_invalid : CampaignError
  retention_mode_invalid max_generations_invalid : CampaignError

-- The interval as `json.loads` gives it: a Boolean, an `int` or a `float` with its exact value `p / (q + 1)`, or
-- a number below 0, infinite or NaN.
pub data Interval : Type 0 where
  truth : Bool → Interval
  ratio : ℕ → ℕ → Interval
  outside : Interval

-- not a Boolean, and `1 <= x <= 4`
abbrev pub in_range : Interval → Bool
in_range (truth b) = false
in_range (ratio p q) = leb (suc q) p && leb p (4 * suc q)
in_range outside = false

-- `m == x`: `True` is 1 and `False` is 0
abbrev pub equals : ℕ → Interval → Bool
equals m (truth true) = nat_eq m 1
equals m (truth false) = nat_eq m 0
equals m (ratio p q) = nat_eq (m * suc q) p
equals m outside = false

pub record CampaignDefinition : Type 0 where
  pub experiment_spec : String
  pub inputs : Dict String String
  pub layers : List ℕ
  pub reanchor_every_layers : Interval
  pub reanchor_failure_policy : String
  pub retention_mode : String
  pub max_generations : ℕ
  pub schema : String

abbrev pub definition_schema : String
definition_schema = "quant-pipeline.campaign-definition.v1"

-- `GATE_POLICIES`
abbrev pub gate_policies : List String
gate_policies = "continue" ∷ "rollback" ∷ "request_reallocation" ∷ []

abbrev pub retention_modes : List String
retention_modes = "full" ∷ "capture-plus-ledger" ∷ []

-- `x in xs`
abbrev pub contains : String → List String → Bool
contains x xs = any (λ y. y == x) xs

abbrev pub is_nil {ℓ} : {A : Type ℓ} → List A → Bool
is_nil [] = true
is_nil (x ∷ xs) = false

unfoldable pub validate : CampaignDefinition → Result CampaignError (Unit {0})
unfolding sorted
validate d = do
  raise_if (not (d.schema == definition_schema)) unsupported_definition_schema
  raise_if (d.experiment_spec == "") experiment_spec_required
  raise_if (is_nil d.inputs || any (λ (e : String × String). e.0 == "" || e.1 == "") d.inputs)
      inputs_invalid
  raise_if (is_nil d.layers) layers_empty
  raise_if (not (same_list (sorted ltb (distinct d.layers)) d.layers)) layers_not_increasing
  raise_if (not (in_range d.reanchor_every_layers)) reanchor_interval_invalid
  raise_if (not (contains d.reanchor_failure_policy gate_policies)) failure_policy_invalid
  raise_if (not (contains d.retention_mode retention_modes)) retention_mode_invalid
  raise_if (ltb d.max_generations 1) max_generations_invalid
