-- ===== src/Campaign/Stages/Order.antt =====
-- The stages stand in an order in which they can run: each depends on stages before it only.
use shapleymcg.Common.{
  ℕ, suc, ◌-◌, ◌≡◌, refl, sym, ap, subst, String, Bool, true, none, List, [], ◌∷◌, ◌++◌, map,
  length, all, ◌&&◌, arith, nat_eq, ◌||◌, ◌==◌, string_keys, ◌∈◌, All, All-cons, All-append, Memᴰ,
  mem-append_left, mem-append_right, Bool-cases, inl, inr,
}
use shapleymcg.Campaign.Definition.{CampaignDefinition, Interval, equals, contains}
use shapleymcg.Campaign.Definition.Valid.{mem-contains}
use shapleymcg.Campaign.Stages.{
  StageSpec, Building, encode_id, reanchor_id, if_any, predecessor_dependencies, layer_stages,
  add_layer, add_reanchor, close_block, add_layers, last_stages, first_building, build_stages,
}

-- Each stage depends on stages that were seen before it.
abbrev pub IsOrdered : List String → List StageSpec → Type 0
IsOrdered seen [] = Unit
IsOrdered seen (s ∷ ss) = All (λ d. d ∈ seen) s.dependencies × IsOrdered (s.stage_id ∷ seen) ss

abbrev pub ids : List StageSpec → List String
ids stages = map (λ (s : StageSpec). s.stage_id) stages

-- what was seen after the stages
abbrev after : List String → List StageSpec → List String
after seen [] = seen
after seen (s ∷ ss) = after (s.stage_id ∷ seen) ss

mem-after_seen :
    {x : String} (seen : List String) (ss : List StageSpec) → x ∈ seen → x ∈ after seen ss
mem-after_seen seen [] m = m
mem-after_seen seen (s ∷ ss) m = mem-after_seen (s.stage_id ∷ seen) ss (Memᴰ.tail m)

mem-after : {x : String} (seen : List String) (ss : List StageSpec) → x ∈ ids ss → x ∈ after seen ss
mem-after seen [] m = elim m [ ]
mem-after seen (s ∷ ss) (Memᴰ.head e) = mem-after_seen (s.stage_id ∷ seen) ss (Memᴰ.head e)
mem-after seen (s ∷ ss) (Memᴰ.tail m) = mem-after (s.stage_id ∷ seen) ss m

IsOrdered-append :
    (seen : List String) (xs ys : List StageSpec)
    → IsOrdered seen xs
    → IsOrdered (after seen xs) ys
    → IsOrdered seen (xs ++ ys)
IsOrdered-append seen [] ys h k = k
IsOrdered-append seen (x ∷ xs) ys h k = (h.0, IsOrdered-append (x.stage_id ∷ seen) xs ys h.1 k)

under :
    {seen more : List String} (x : String)
    → ((z : String) → z ∈ seen → z ∈ more)
    → (z : String) → z ∈ (x ∷ seen)
    → z ∈ (x ∷ more)
under x f z (Memᴰ.head e) = Memᴰ.head e
under x f z (Memᴰ.tail m) = Memᴰ.tail (f z m)

IsOrdered-more :
    (seen more : List String) (xs : List StageSpec)
    → ((z : String) → z ∈ seen → z ∈ more)
    → IsOrdered seen xs
    → IsOrdered more xs
IsOrdered-more seen more [] f h = tt
IsOrdered-more seen more (x ∷ xs) f h = (
  (λ d m. f d (h.0 d m)),
  IsOrdered-more (x.stage_id ∷ seen) (x.stage_id ∷ more) xs (under x.stage_id f) h.1,
)

-- Stages that depend on those before them may follow them.
follow :
    (xs ys : List StageSpec) → IsOrdered [] xs → IsOrdered (ids xs) ys → IsOrdered [] (xs ++ ys)
follow xs ys h k =
    IsOrdered-append [] xs ys h
      (IsOrdered-more (ids xs) (after [] xs) ys (λ z m. mem-after [] xs m) k)

ids-append : (xs ys : List StageSpec) → ids (xs ++ ys) ≡ ids xs ++ ids ys
ids-append [] ys = refl
ids-append (x ∷ xs) ys = ap (λ is. x.stage_id ∷ is) (ids-append xs ys)

kept :
    (xs ys : List StageSpec) (is : List String)
    → All (λ i. i ∈ ids xs) is
    → All (λ i. i ∈ ids (xs ++ ys)) is
kept xs ys is h i m =
    subst (λ l. i ∈ l) (sym (ids-append xs ys)) (mem-append_left (ids xs) (ids ys) (h i m))

added : (xs ys : List StageSpec) {i : String} → i ∈ ids ys → i ∈ ids (xs ++ ys)
added xs ys {i} m =
    subst (λ l. i ∈ l) (sym (ids-append xs ys)) (mem-append_right (ids xs) (ids ys) m)

-- What later stages depend on is there.
record IsSound (b : Building) : Type 0 where
  ordered : IsOrdered [] b.stages
  base : All (λ i. i ∈ ids b.stages) ("allocation" ∷ "confirmation" ∷ "teacher_capture" ∷ [])
  encodes : All (λ i. i ∈ ids b.stages) b.accepted_encode_ids
  reanchors : All (λ i. i ∈ ids b.stages) b.accepted_reanchor_ids
  encode : All (λ i. i ∈ ids b.stages) (if_any b.previous_encode)
  reanchor : All (λ i. i ∈ ids b.stages) (if_any b.previous_reanchor)

one_if_any : (S : List String) (i : String) → i ∈ S → All (λ z. z ∈ S) (if_any i)
one_if_any S i m = elim (Bool-cases (i == "")) [
  | inl e ↦ rw e (λ z k. absurd (elim k [ ]))
  | inr e ↦ rw e (All-cons m (λ z k. absurd (elim k [ ])))
]

add_layer-IsSound : (b : Building) (layer : ℕ) → IsSound b → IsSound (add_layer b layer)
unfolding add_layer layer_stages
add_layer-IsSound b layer s =
    let new = layer_stages b layer in
    let before : All (λ i. i ∈ ids b.stages) (predecessor_dependencies b) =
      All-append ("allocation" ∷ "confirmation" ∷ [])
        (if_any b.previous_encode ++ if_any b.previous_reanchor)
        (All-cons (s.base "allocation" (Memᴰ.head refl)) (
          All-cons (s.base "confirmation" (Memᴰ.tail (Memᴰ.head refl)))
            (λ z m. absurd (elim m [ ]))))
        (All-append (if_any b.previous_encode) (if_any b.previous_reanchor) s.encode s.reanchor) in
    let last : encode_id layer ∈ ids (b.stages ++ new) =
      added b.stages new (Memᴰ.tail (Memᴰ.tail (Memᴰ.tail (Memᴰ.head refl)))) in
    record {
      ordered = follow b.stages new s.ordered (
        before,
        (
          All-cons (Memᴰ.head refl) (λ d m. Memᴰ.tail (before d m)),
          (
            All-cons (Memᴰ.tail (Memᴰ.head refl))
                (All-cons (Memᴰ.head refl) (λ d m. Memᴰ.tail (Memᴰ.tail (before d m)))),
            (
              All-cons (Memᴰ.head refl) (
                  All-cons (Memᴰ.tail (Memᴰ.head refl))
                    (λ d m. Memᴰ.tail (Memᴰ.tail (Memᴰ.tail (before d m))))),
              tt,
            ),
          ),
        ),
      );
      base = kept b.stages new ("allocation" ∷ "confirmation" ∷ "teacher_capture" ∷ []) s.base;
      encodes =
          All-append b.accepted_encode_ids (encode_id layer ∷ [])
            (kept b.stages new b.accepted_encode_ids s.encodes)
            (All-cons last (λ z m. absurd (elim m [ ])));
      reanchors = kept b.stages new b.accepted_reanchor_ids s.reanchors;
      encode = one_if_any (ids (b.stages ++ new)) (encode_id layer) last;
      reanchor = kept b.stages new (if_any b.previous_reanchor) s.reanchor;
    }

add_reanchor-IsSound : (b : Building) → IsSound b → IsSound (add_reanchor b)
unfolding add_reanchor
add_reanchor-IsSound b s =
    let id = reanchor_id b.block_index in
    let new : List StageSpec =
      record {
        stage_id = id;
        kind = "kld_reanchor";
        dependencies = "teacher_capture" ∷ b.accepted_encode_ids;
        layer = none;
        block_layers = b.block;
      }
      ∷ [] in
    let last : id ∈ ids (b.stages ++ new) = added b.stages new (Memᴰ.head refl) in
    record {
      ordered = follow b.stages new s.ordered (
        All-cons (s.base "teacher_capture" (Memᴰ.tail (Memᴰ.tail (Memᴰ.head refl)))) s.encodes,
        tt,
      );
      base = kept b.stages new ("allocation" ∷ "confirmation" ∷ "teacher_capture" ∷ []) s.base;
      encodes = kept b.stages new b.accepted_encode_ids s.encodes;
      reanchors =
          All-append b.accepted_reanchor_ids (id ∷ [])
            (kept b.stages new b.accepted_reanchor_ids s.reanchors)
            (All-cons last (λ z m. absurd (elim m [ ])));
      encode = kept b.stages new (if_any b.previous_encode) s.encode;
      reanchor = one_if_any (ids (b.stages ++ new)) id last;
    }

close_block-IsSound :
    (every : Interval) (total index : ℕ) (b : Building)
    → IsSound b
    → IsSound (close_block every total index b)
close_block-IsSound every total index b s =
    elim (Bool-cases (equals (length b.block) every || nat_eq index (total - 1))) [
      | inl e ↦ unfold close_block in rw (e, close_block) (add_reanchor-IsSound b s)
      | inr e ↦ unfold close_block in rw (e, close_block) s
    ]

add_layers-IsSound :
    (every : Interval) (total index : ℕ) (layers : List ℕ) (b : Building)
    → IsSound b
    → IsSound (add_layers every total index layers b)
unfolding add_layers
add_layers-IsSound every total index [] b s = s
add_layers-IsSound every total index (layer ∷ layers) b s =
    add_layers-IsSound every total (suc index) layers
      (close_block every total index (add_layer b layer))
      (close_block-IsSound every total index (add_layer b layer) (add_layer-IsSound b layer s))

none_of : (S : List String) → All (λ z. z ∈ S) []
none_of S z m = absurd (elim m [ ])

All-contains :
    (seen xs : List String) → all (λ x. contains x seen) xs ≡ true → All (λ x. x ∈ seen) xs
All-contains seen [] h = none_of seen
All-contains seen (y ∷ ys) h =
    All-cons (mem-contains y seen (ground (arith, h))) (All-contains seen ys (ground (arith, h)))

-- The order, as a test.
abbrev pub is_ordered : List String → List StageSpec → Bool
is_ordered seen [] = true
is_ordered seen (s ∷ ss) =
    all (λ d. contains d seen) s.dependencies && is_ordered (s.stage_id ∷ seen) ss

pub IsOrdered-is_ordered :
    (seen : List String) (ss : List StageSpec) → is_ordered seen ss ≡ true → IsOrdered seen ss
IsOrdered-is_ordered seen [] h = tt
IsOrdered-is_ordered seen (s ∷ ss) h = (
  All-contains seen s.dependencies (ground (arith, h)),
  IsOrdered-is_ordered (s.stage_id ∷ seen) ss (ground (arith, h)),
)

first_building-IsSound : (layers : List ℕ) → IsSound (first_building layers)
first_building-IsSound layers = record {
  ordered = IsOrdered-is_ordered [] (first_building layers).stages refl;
  base =
      All-contains (ids (first_building layers).stages)
        ("allocation" ∷ "confirmation" ∷ "teacher_capture" ∷ []) refl;
  encodes = none_of (ids (first_building layers).stages);
  reanchors = none_of (ids (first_building layers).stages);
  encode = none_of (ids (first_building layers).stages);
  reanchor = none_of (ids (first_building layers).stages);
}

-- Every stage of `_build_stages` depends on stages before it only.
pub build_stages-IsOrdered :
    (definition : CampaignDefinition) → IsOrdered [] (build_stages definition)
unfolding build_stages
build_stages-IsOrdered definition =
    let b =
      add_layers definition.reanchor_every_layers (length definition.layers) 0 definition.layers
        (first_building definition.layers) in
    let s =
      add_layers-IsSound definition.reanchor_every_layers (length definition.layers) 0
        definition.layers (first_building definition.layers)
        (first_building-IsSound definition.layers) in
    let checkpoint = ("allocation" ∷ []) ++ b.accepted_encode_ids ++ b.accepted_reanchor_ids in
    follow b.stages (last_stages checkpoint) s.ordered (
      All-append ("allocation" ∷ []) (b.accepted_encode_ids ++ b.accepted_reanchor_ids)
          (All-cons (s.base "allocation" (Memᴰ.head refl)) (none_of (ids b.stages)))
          (All-append b.accepted_encode_ids b.accepted_reanchor_ids s.encodes s.reanchors),
      (
        All-cons (Memᴰ.head refl) (λ z m. absurd (elim m [ ])),
        (
          All-cons (Memᴰ.tail (Memᴰ.head refl))
              (All-cons (Memᴰ.head refl) (λ z m. absurd (elim m [ ]))),
          (
            All-cons
                (Memᴰ.tail (
                  Memᴰ.tail (
                    Memᴰ.tail (s.base "teacher_capture" (Memᴰ.tail (Memᴰ.tail (Memᴰ.head refl)))))))
                (All-cons (Memᴰ.head refl) (λ z m. absurd (elim m [ ]))),
            tt,
          ),
        ),
      ),
    )
