-- ===== src/Campaign/Stages/OneBlock.antt =====
-- The blocks of an interval that is not whole, which `validate` accepts: the length of a block never equals it.
use mathlib.Core.List.{append_assoc}
use shapleymcg.Common.{
  ℕ, suc, ◌+◌, ◌-◌, ◌≡◌, ◌≢◌, refl, ap, ◌∙◌, true, false, List, [], ◌∷◌, ◌++◌, length, nat_eq,
  arith,
}
use shapleymcg.Common.Result.{ok}
use shapleymcg.Campaign.Definition.{CampaignDefinition, Interval, equals, validate}
use shapleymcg.Campaign.Definition.Valid.{IsValid-of_ok}
use shapleymcg.Campaign.Stages.{
  Building, add_layer, add_reanchor, close_block, add_layers, first_building, build_stages,
}
use shapleymcg.Campaign.Stages.Blocks.{
  blocks, blocks-add_layer, blocks-add_reanchor, blocks-build_stages,
}

module _ (interval : Interval) (never : (m : ℕ) → equals m interval ≡ false) where
  close_block_open :
      (total index : ℕ) (b : Building) → index ≢ total - 1 → close_block interval total index b ≡ b
  unfolding close_block
  close_block_open total index b h =
      let test : nat_eq index (total - 1) ≡ false = ground (arith, h) in
      rw (never (length b.block), test) refl

  close_block_last :
      (total index : ℕ) (b : Building)
      → index ≡ total - 1
      → close_block interval total index b ≡ add_reanchor b
  unfolding close_block
  close_block_last total index b h =
      let test : nat_eq index (total - 1) ≡ true = ground (arith, h) in
      rw (never (length b.block), test) refl

  -- The one block is closed after the last layer.
  add_layers_one_block :
      (total index layer : ℕ) (layers : List ℕ) (b : Building)
      → blocks b.stages ≡ []
      → index + suc (length layers) ≡ total
      → blocks (add_layers interval total index (layer ∷ layers) b).stages
        ≡ (b.block ++ layer ∷ layers) ∷ []
  unfolding add_layers add_layer
  add_layers_one_block total index layer [] b none_yet at =
      ap (λ (z : Building). blocks z.stages)
        (close_block_last total index (add_layer b layer) (omega (arith, at)))
      ∙ blocks-add_reanchor (add_layer b layer)
      ∙ ap (λ z. z ++ (b.block ++ layer ∷ []) ∷ []) (blocks-add_layer b layer ∙ none_yet)
  add_layers_one_block total index layer (after ∷ layers) b none_yet at =
      let next = add_layer b layer in
      ap (λ z. blocks (add_layers interval total (suc index) (after ∷ layers) z).stages)
        (close_block_open total index next (omega (arith, at)))
      ∙ add_layers_one_block total (suc index) after layers next
          (blocks-add_layer b layer ∙ none_yet) (omega (arith, at))
      ∙ ap (λ z. z ∷ []) (append_assoc b.block (layer ∷ []) (after ∷ layers))

one_block :
    (interval : Interval) (layers : List ℕ)
    → ((m : ℕ) → equals m interval ≡ false)
    → layers ≢ []
    → blocks (add_layers interval (length layers) 0 layers (first_building layers)).stages
      ≡ layers ∷ []
one_block interval [] never some_layer = absurd (some_layer refl)
one_block interval (layer ∷ layers) never some_layer =
    add_layers_one_block interval never (suc (length layers)) 0 layer layers
      (first_building (layer ∷ layers)) refl (omega arith)

-- Where `validate` accepts a definition whose interval equals no natural number, the stages have one re-anchor,
-- and its block is all the layers, however many they are.
pub build_stages_one_block :
    (definition : CampaignDefinition)
    → validate definition ≡ ok tt
    → ((m : ℕ) → equals m definition.reanchor_every_layers ≡ false)
    → blocks (build_stages definition) ≡ definition.layers ∷ []
build_stages_one_block definition h never =
    blocks-build_stages definition
    ∙ one_block definition.reanchor_every_layers definition.layers never
        (IsValid-of_ok definition h).some_layer
