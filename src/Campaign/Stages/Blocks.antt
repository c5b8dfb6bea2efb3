-- ===== src/Campaign/Stages/Blocks.antt =====
-- The layers are re-anchored in blocks: in order, each once, and no block longer than an interval that is
-- whole.
use mathlib.Core.List.{append-nil, append_assoc}
use shapleymcg.Common.{
  ℕ, suc, ◌+◌, ◌*◌, true, ◌-◌, ◌≤◌, ◌<◌, ◌≡◌, refl, sym, ap, ◌∙◌, subst, List, [], ◌∷◌, ◌++◌, ◌≢◌,
  length, length-append, nat_eq, ◌||◌, if◌then◌else◌, ◌==◌, string_keys, All, All-cons, All-append,
  Bool-cases, inl, inr, arith,
}
use shapleymcg.Common.Result.{ok}
use shapleymcg.Campaign.Definition.{
  CampaignDefinition, Interval, truth, ratio, outside, equals, validate,
}
use shapleymcg.Campaign.Definition.Valid.{IsInterval, IsValid-of_ok}
use shapleymcg.Campaign.Stages.{
  StageSpec, Building, layer_stages, add_layer, add_reanchor, close_block, add_layers, last_stages,
  first_building, build_stages,
}

-- The blocks of the re-anchor stages.
abbrev pub blocks : List StageSpec → List (List ℕ)
blocks [] = []
blocks (s ∷ ss) = if s.kind == "kld_reanchor" then s.block_layers ∷ blocks ss else blocks ss

abbrev pub concat : List (List ℕ) → List ℕ
concat [] = []
concat (b ∷ bs) = b ++ concat bs

concat-append : (xs ys : List (List ℕ)) → concat (xs ++ ys) ≡ concat xs ++ concat ys
concat-append [] ys = refl
concat-append (x ∷ xs) ys =
    ap (λ z. x ++ z) (concat-append xs ys) ∙ sym (append_assoc x (concat xs) (concat ys))

pub blocks-append : (xs ys : List StageSpec) → blocks (xs ++ ys) ≡ blocks xs ++ blocks ys
blocks-append [] ys = refl
blocks-append (x ∷ xs) ys = elim (Bool-cases (x.kind == "kld_reanchor")) [
  | inl e ↦ rw e (ap (λ z. x.block_layers ∷ z) (blocks-append xs ys))
  | inr e ↦ rw e (blocks-append xs ys)
]

-- The block has a layer, and not more of them than the interval.
abbrev pub IsBlock : ℕ → List ℕ → Type 0
IsBlock every b = (1 ≤ length b) × (length b ≤ every)

-- The blocks so far and the open block are the layers so far.
record IsTiled (every : ℕ) (done : List ℕ) (b : Building) : Type 0 where
  tiles : concat (blocks b.stages) ++ b.block ≡ done
  sized : All (IsBlock every) (blocks b.stages)
  open_block : length b.block < every

pub blocks-add_layer :
    (b : Building) (layer : ℕ) → blocks (add_layer b layer).stages ≡ blocks b.stages
unfolding add_layer layer_stages
blocks-add_layer b layer =
    blocks-append b.stages (layer_stages b layer) ∙ append-nil (blocks b.stages)

pub blocks-add_reanchor :
    (b : Building) → blocks (add_reanchor b).stages ≡ blocks b.stages ++ b.block ∷ []
unfolding add_reanchor
blocks-add_reanchor b = blocks-append b.stages _

add_reanchor-tiles :
    (b : Building) → concat (blocks (add_reanchor b).stages) ≡ concat (blocks b.stages) ++ b.block
add_reanchor-tiles b =
    ap concat (blocks-add_reanchor b)
    ∙ concat-append (blocks b.stages) (b.block ∷ [])
    ∙ ap (λ z. concat (blocks b.stages) ++ z) (append-nil b.block)

add_reanchor-sized :
    (every : ℕ) (b : Building)
    → All (IsBlock every) (blocks b.stages)
    → IsBlock every b.block
    → All (IsBlock every) (blocks (add_reanchor b).stages)
add_reanchor-sized every b h k =
    subst (All (IsBlock every)) (sym (blocks-add_reanchor b))
      (All-append (blocks b.stages) (b.block ∷ []) h (All-cons k (λ z m. absurd (elim m [ ]))))

-- A layer is added to the open block.
add_layer-tiles :
    (every : ℕ) (done : List ℕ) (b : Building) (layer : ℕ)
    → IsTiled every done b
    → concat (blocks (add_layer b layer).stages) ++ (add_layer b layer).block ≡ done ++ layer ∷ []
unfolding add_layer
add_layer-tiles every done b layer t =
    ap (λ z. concat z ++ (b.block ++ layer ∷ [])) (blocks-add_layer b layer)
    ∙ sym (append_assoc (concat (blocks b.stages)) b.block (layer ∷ []))
    ∙ ap (λ z. z ++ layer ∷ []) t.tiles

-- What holds after a round, and that no block is left open by the last one.
close_block-IsTiled :
    (interval : Interval) (every total index : ℕ)
    → ((m : ℕ) → equals m interval ≡ nat_eq m every)
    → (done layers : List ℕ) (layer : ℕ) (b : Building) → IsTiled every done b
    → index + suc (length layers) ≡ total
    → IsTiled every (done ++ layer ∷ []) (close_block interval total index (add_layer b layer))
      × (length layers ≡ 0 → (close_block interval total index (add_layer b layer)).block ≡ [])
unfolding add_layer
close_block-IsTiled interval every total index agrees done layers layer b t at =
    let next = add_layer b layer in
    let longer : length next.block ≡ suc (length b.block) =
      length-append b.block (layer ∷ []) ∙ omega arith in
    let sized : All (IsBlock every) (blocks next.stages) =
      subst (All (IsBlock every)) (sym (blocks-add_layer b layer)) t.sized in
    elim (Bool-cases (equals (length next.block) interval || nat_eq index (total - 1))) [
      | inl e ↦
          unfold close_block in
          rw (e, close_block)
            (
              record {
                tiles =
                    append-nil (concat (blocks (add_reanchor next).stages))
                    ∙ add_reanchor-tiles next
                    ∙ add_layer-tiles every done b layer t;
                sized =
                    add_reanchor-sized every next sized
                      (omega (arith, longer), omega (arith, longer, t.open_block));
                open_block = omega (arith, t.open_block);
              },
              (λ _. refl),
            )
      | inr e ↦
          let not_full : length next.block ≢ every =
            ground (arith, e, agrees (length next.block)) in
          let not_last : index ≢ total - 1 = ground (arith, e) in
          unfold close_block in
          rw (e, close_block)
            (
              record {
                tiles = add_layer-tiles every done b layer t;
                sized = sized;
                open_block = omega (arith, longer, t.open_block, not_full);
              },
              (λ z. absurd (not_last (omega (arith, at, z)))),
            )
    ]

add_layers-tiles :
    (interval : Interval) (every total index : ℕ)
    → ((m : ℕ) → equals m interval ≡ nat_eq m every)
    → (done layers : List ℕ) (b : Building) → IsTiled every done b
    → index + length layers ≡ total
    → (length layers ≡ 0 → b.block ≡ [])
    → (concat (blocks (add_layers interval total index layers b).stages) ≡ done ++ layers)
      × All (IsBlock every) (blocks (add_layers interval total index layers b).stages)
unfolding add_layers
add_layers-tiles interval every total index agrees done [] b t at closed = (
  sym (append-nil (concat (blocks b.stages)))
      ∙ ap (λ z. concat (blocks b.stages) ++ z) (sym (closed refl))
      ∙ t.tiles
      ∙ sym (append-nil done),
  t.sized,
)
add_layers-tiles interval every total index agrees done (layer ∷ layers) b t at closed =
    let (tiled, shut) =
      close_block-IsTiled interval every total index agrees done layers layer b t at in
    let (all_tiled, sized) =
      add_layers-tiles interval every total (suc index) agrees (done ++ layer ∷ []) layers
        (close_block interval total index (add_layer b layer)) tiled (omega (arith, at)) shut in
    (all_tiled ∙ append_assoc done (layer ∷ []) layers, sized)

-- A valid interval that equals a natural number equals no other, and the number is from 1 to 4.
equals_one :
    (interval : Interval) (n : ℕ)
    → IsInterval interval
    → equals n interval ≡ true
    → ((m : ℕ) → equals m interval ≡ nat_eq m n) × (1 ≤ n) × (n ≤ 4)
equals_one (truth b) n v h = absurd v
equals_one (ratio p q) n v h =
    let same : n * suc q ≡ p = ground (arith, h) in
    (
      (λ m. elim (Bool-cases (nat_eq m n)) [
        | inl e ↦ let one : m ≡ n = ground (arith, e) in rw (one, h) (ground arith)
        | inr e ↦
            let apart : m ≢ n = ground (arith, e) in
            let other : m * suc q ≢ p = λ z. apart (grind (arith, z, same)) in
            rw e (ground (arith, other))
      ]),
      grind (arith, same, v.0),
      grind (arith, same, v.1),
    )
equals_one outside n v h = absurd v

-- The stages after the loop have no block.
pub blocks-build_stages :
    (definition : CampaignDefinition)
    → blocks (build_stages definition)
      ≡ blocks
          (add_layers definition.reanchor_every_layers
            (length definition.layers)
            0
            definition.layers
            (first_building definition.layers)).stages
unfolding build_stages
blocks-build_stages definition =
    let b =
      add_layers definition.reanchor_every_layers (length definition.layers) 0 definition.layers
        (first_building definition.layers) in
    let checkpoint = ("allocation" ∷ []) ++ b.accepted_encode_ids ++ b.accepted_reanchor_ids in
    blocks-append b.stages (last_stages checkpoint) ∙ append-nil (blocks b.stages)

-- Where `validate` accepts a definition whose interval equals a natural number `n`, `n` is from 1 to 4, and in
-- the stages the blocks of the re-anchors are the layers in order, and each has a layer and at most `n` of
-- them.
pub build_stages-blocks :
    (definition : CampaignDefinition) (n : ℕ)
    → validate definition ≡ ok tt
    → equals n definition.reanchor_every_layers ≡ true
    → (concat (blocks (build_stages definition)) ≡ definition.layers)
      × All (IsBlock n) (blocks (build_stages definition))
      × (1 ≤ n)
      × (n ≤ 4)
build_stages-blocks definition n h whole =
    let (agrees, low, high) =
      equals_one definition.reanchor_every_layers n (IsValid-of_ok definition h).interval whole in
    let (tiles, sized) =
      add_layers-tiles definition.reanchor_every_layers n (length definition.layers) 0 agrees []
        definition.layers (first_building definition.layers)
        (record {
          tiles = refl;
          sized = λ z m. absurd (elim m [ ]);
          open_block = omega (arith, low);
        })
        (omega arith) (λ _. refl) in
    let same = sym (blocks-build_stages definition) in
    (
      subst (λ bs. concat bs ≡ definition.layers) same tiles,
      subst (All (IsBlock n)) same sized,
      low,
      high,
    )
