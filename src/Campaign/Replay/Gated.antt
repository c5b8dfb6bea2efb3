-- ===== src/Campaign/Replay/Gated.antt =====
-- The gates of a plan that `_build_stages` makes are among the stages from the allocation on.
use shapleymcg.Common.{
  or_true, ℕ, suc, ◌≡◌, refl, ap, ◌∙◌, String, Bool, true, not, ◌||◌, some, List, [], ◌∷◌, ◌++◌,
  map, length, all, ◌∈◌, Memᴰ, mem-map, Bool-cases, inl, inr, nat_eq, ◌-◌, arith,
}
use shapleymcg.Campaign.Definition.{CampaignDefinition, Interval, equals, contains}
use shapleymcg.Campaign.Definition.Valid.{contains_of_mem}
use shapleymcg.Campaign.Stages.{
  StageSpec, Building, base_kinds, base_stage, layer_stages, add_layer, add_reanchor, close_block,
  add_layers, first_building, build_stages,
}
use shapleymcg.Campaign.Stages.Order.{ids}
use shapleymcg.Campaign.Gates.{Plan}
use shapleymcg.Campaign.Replay.{gate_kinds, stage_order}
use shapleymcg.Campaign.Replay.Generations.{from_stage}
use shapleymcg.Campaign.Replay.Machine.{is_gate}
use shapleymcg.Campaign.Replay.Invariants.{GatesFollow-test}

append_assoc : (xs ys zs : List StageSpec) → (xs ++ ys) ++ zs ≡ xs ++ (ys ++ zs)
append_assoc [] ys zs = refl
append_assoc (x ∷ xs) ys zs = ap (λ l. x ∷ l) (append_assoc xs ys zs)

-- The stages of a building begin with some that were there.
abbrev Extends : List StageSpec → List StageSpec → Type 0
Extends base stages = (rest : List StageSpec) × (stages ≡ base ++ rest)

Extends-append :
    (base stages more : List StageSpec) → Extends base stages → Extends base (stages ++ more)
Extends-append base stages more (rest, e) =
    (rest ++ more, ap (λ l. l ++ more) e ∙ append_assoc base rest more)

close_block-Extends :
    (base : List StageSpec) (every : Interval) (total index : ℕ) (b : Building)
    → Extends base b.stages
    → Extends base (close_block every total index b).stages
close_block-Extends base every total index b h =
    elim (Bool-cases (equals (length b.block) every || nat_eq index (total - 1))) [
      | inl e ↦
          unfold close_block add_reanchor in rw (e, close_block) (Extends-append base b.stages _ h)
      | inr e ↦ unfold close_block in rw (e, close_block) h
    ]

add_layers-Extends :
    (base : List StageSpec) (every : Interval) (total index : ℕ) (layers : List ℕ) (b : Building)
    → Extends base b.stages
    → Extends base (add_layers every total index layers b).stages
unfolding add_layers add_layer
add_layers-Extends base every total index [] b h = h
add_layers-Extends base every total index (layer ∷ layers) b h =
    add_layers-Extends base every total (suc index) layers
      (close_block every total index (add_layer b layer))
      (close_block-Extends base every total index (add_layer b layer)
        (Extends-append base b.stages (layer_stages b layer) h))

build_stages-Extends :
    (definition : CampaignDefinition)
    → Extends (map (base_stage definition.layers) base_kinds) (build_stages definition)
unfolding build_stages
build_stages-Extends definition =
    let base = map (base_stage definition.layers) base_kinds in
    let b =
      add_layers definition.reanchor_every_layers (length definition.layers) 0 definition.layers
        (first_building definition.layers) in
    Extends-append base b.stages _ (
      add_layers-Extends base definition.reanchor_every_layers (length definition.layers) 0
        definition.layers (first_building definition.layers) ([], refl))

all_of :
    (test : StageSpec → Bool) (ss : List StageSpec)
    → ((s : StageSpec) → s ∈ ss → test s ≡ true)
    → all test ss ≡ true
all_of test [] h = refl
all_of test (s ∷ ss) h =
    let here = h s (Memᴰ.head refl) in
    let rest = all_of test ss (λ z m. h z (Memᴰ.tail m)) in ground (arith, here, rest)

-- In a plan whose stages are those of `_build_stages`, every gate is among the stages from the allocation on.
pub is_gate-build_stages :
    (plan : Plan)
    → plan.stages ≡ build_stages plan.definition
    → (id : String) (later : List String) → is_gate plan id ≡ true
    → from_stage "allocation" (stage_order plan) ≡ some later
    → contains id later ≡ true
is_gate-build_stages plan built =
    let (rest, e) = build_stages-Extends plan.definition in
    let layers = plan.definition.layers in
    let whole : plan.stages ≡ map (base_stage layers) base_kinds ++ rest = built ∙ e in
    let later = "allocation" ∷ "confirmation" ∷ ids rest in
    let test : StageSpec → Bool =
      λ s. not (contains s.kind gate_kinds) || contains s.stage_id later in
    GatesFollow-test plan later
      (ap (λ (ss : List StageSpec). from_stage "allocation" (ids ss)) whole)
      (ap (all test) whole
        ∙ all_of test rest (λ s m. or_true _ _ (
            contains_of_mem s.stage_id later
              (Memᴰ.tail (Memᴰ.tail (mem-map (λ (z : StageSpec). z.stage_id) rest m))))))
