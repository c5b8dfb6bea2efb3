-- ===== src/Campaign/Definition/Valid.antt =====
-- `validate` accepts exactly the valid definitions.
use mathlib.Core.Bool.{false≢true}
use shapleymcg.Common.{
  ℕ, suc, ◌*◌, ◌≤◌, ◌<◌, ◌≡◌, ◌≢◌, ◌↔◌, refl, sym, ap₂, ◌∙◌, subst, String, Bool, true, false, not,
  ◌||◌, List, [], ◌∷◌, any, ltb, ltb→le, ◌==◌, string_keys, nat_keys, ◌∈◌, All, Memᴰ, arith,
  any-false, false-any, Bool-cases, inl, inr,
}
use shapleymcg.Common.Dict.{
  distinct, same_list, same_list-eq, same_list_refl, IsDistinct, distinct-IsDistinct, mem-distinct,
  distinct-mem, sorted-IsDistinct,
}
use shapleymcg.Common.Result.{ok, raise_if-then, raise_if-eq-ok}
use shapleymcg.Common.Sort.{sorted, sorted-mem, mem-sorted, IsAscending, sorted-IsAscending}
use shapleymcg.Campaign.Definition.{
  CampaignDefinition, Interval, truth, ratio, outside, in_range, validate, definition_schema,
  gate_policies, retention_modes, contains, is_nil, unsupported_definition_schema,
  experiment_spec_required, inputs_invalid, layers_empty, layers_not_increasing,
  reanchor_interval_invalid, failure_policy_invalid, retention_mode_invalid,
  max_generations_invalid,
}

-- Each number is less than all that follow it.
abbrev pub IsIncreasing : List ℕ → Type 0
IsIncreasing [] = Unit
IsIncreasing (x ∷ xs) = All (λ y. x < y) xs × IsIncreasing xs

-- The number is from 1 to 4.
abbrev pub IsInterval : Interval → Type 0
IsInterval (truth b) = ⊥
IsInterval (ratio p q) = (suc q ≤ p) × (p ≤ 4 * suc q)
IsInterval outside = ⊥

pub record IsValid (d : CampaignDefinition) : Type 0 where
  pub schema : d.schema ≡ definition_schema
  pub spec : d.experiment_spec ≢ ""
  pub some_input : d.inputs ≢ []
  pub inputs : All (λ e. (e.0 ≢ "") × (e.1 ≢ "")) d.inputs
  pub some_layer : d.layers ≢ []
  pub layers : IsIncreasing d.layers
  pub interval : IsInterval d.reanchor_every_layers
  pub policy : d.reanchor_failure_policy ∈ gate_policies
  pub retention : d.retention_mode ∈ retention_modes
  pub generations : 1 ≤ d.max_generations

ascending_distinct : (xs : List ℕ) → IsAscending (λ x. x) xs → IsDistinct xs → IsIncreasing xs
ascending_distinct [] h k = tt
ascending_distinct (x ∷ xs) h k =
    ((λ y m. omega (arith, h.0 y m, k.0 y m)), ascending_distinct xs h.1 k.1)

ltb_rises : (a b : ℕ) → ltb a b ≡ true → a ≤ b
ltb_rises a b h = ground arith

-- `sorted(set(layers))` increases.
sorted_set-IsIncreasing : (xs : List ℕ) → IsIncreasing (sorted ltb (distinct xs))
sorted_set-IsIncreasing xs =
    ascending_distinct (sorted ltb (distinct xs))
      (sorted-IsAscending ltb (λ x. x) ltb_rises (λ a b h. ltb→le a b h) (distinct xs))
      (sorted-IsDistinct ltb (distinct xs) (distinct-IsDistinct xs))

-- Increasing lists with the same items are equal.
IsIncreasing-unique :
    (xs ys : List ℕ)
    → IsIncreasing xs
    → IsIncreasing ys
    → ((z : ℕ) → z ∈ xs → z ∈ ys)
    → ((z : ℕ) → z ∈ ys → z ∈ xs)
    → xs ≡ ys
IsIncreasing-unique [] [] h k to from = refl
IsIncreasing-unique [] (y ∷ ys) h k to from = absurd (elim (from y (Memᴰ.head refl)) [ ])
IsIncreasing-unique (x ∷ xs) [] h k to from = absurd (elim (to x (Memᴰ.head refl)) [ ])
IsIncreasing-unique (x ∷ xs) (y ∷ ys) h k to from = ap₂ ◌∷◌ heads (
    IsIncreasing-unique xs ys h.1 k.1 (λ z m. rest z x y xs ys h heads m (to z (Memᴰ.tail m)))
      (λ z m. rest z y x ys xs k (sym heads) m (from z (Memᴰ.tail m))))
  where
    bound : (z a : ℕ) (ns : List ℕ) → IsIncreasing (a ∷ ns) → z ∈ (a ∷ ns) → a ≤ z
    bound z a ns i (Memᴰ.head e) = omega (arith, e)
    bound z a ns i (Memᴰ.tail m) = omega (arith, i.0 z m)

    heads : x ≡ y
    heads =
        omega
          (arith, bound x y ys k (to x (Memᴰ.head refl)), bound y x xs h (from y (Memᴰ.head refl)))

    rest :
        (z a b : ℕ) (ns ms : List ℕ)
        → IsIncreasing (a ∷ ns)
        → a ≡ b
        → z ∈ ns
        → z ∈ (b ∷ ms)
        → z ∈ ms
    rest z a b ns ms i e m (Memᴰ.head p) = absurd (omega (arith, i.0 z m, e, p))
    rest z a b ns ms i e m (Memᴰ.tail n) = n

sorted_set_id : (xs : List ℕ) → IsIncreasing xs → sorted ltb (distinct xs) ≡ xs
sorted_set_id xs h =
    IsIncreasing-unique (sorted ltb (distinct xs)) xs (sorted_set-IsIncreasing xs) h
      (λ z m. mem-distinct xs (mem-sorted ltb (distinct xs) m))
      (λ z m. sorted-mem ltb (distinct xs) (distinct-mem xs m))

text_ne : (s t : String) → (s == t) ≡ false → s ≢ t
text_ne s t h e = absurd (false≢true (sym h ∙ (string_keys.same_iff s t).1 e))

ne_text : (s t : String) → s ≢ t → (s == t) ≡ false
ne_text s t h = elim (Bool-cases (s == t)) [
  | inl e ↦ absurd (h ((string_keys.same_iff s t).0 e))
  | inr e ↦ e
]

pub mem-contains : (x : String) (xs : List String) → contains x xs ≡ true → x ∈ xs
mem-contains x [] h = absurd (false≢true h)
mem-contains x (y ∷ ys) h = elim (Bool-cases (y == x)) [
  | inl e ↦ Memᴰ.head (sym ((string_keys.same_iff y x).0 e))
  | inr e ↦ Memᴰ.tail (mem-contains x ys (ground (arith, h, e)))
]

pub contains_of_mem : (x : String) (xs : List String) → x ∈ xs → contains x xs ≡ true
contains_of_mem x [] m = elim m [ ]
contains_of_mem x (y ∷ ys) (Memᴰ.head e) =
    let q = (string_keys.same_iff y x).1 (sym e) in ground (arith, q)
contains_of_mem x (y ∷ ys) (Memᴰ.tail m) = ground (arith, contains_of_mem x ys m)

is_nil_ne {ℓ} : {A : Type ℓ} (xs : List A) → is_nil xs ≡ false → xs ≢ []
is_nil_ne [] h e = absurd (false≢true (sym h))
is_nil_ne (x ∷ xs) h e = cc

ne_is_nil {ℓ} : {A : Type ℓ} (xs : List A) → xs ≢ [] → is_nil xs ≡ false
ne_is_nil [] h = absurd (h refl)
ne_is_nil (x ∷ xs) h = refl

IsInterval-of_test : (i : Interval) → not (in_range i) ≡ false → IsInterval i
IsInterval-of_test (truth b) h = absurd (false≢true (sym h))
IsInterval-of_test (ratio p q) h = (ground (arith, h), ground (arith, h))
IsInterval-of_test outside h = absurd (false≢true (sym h))

in_range-of_interval : (i : Interval) → IsInterval i → in_range i ≡ true
in_range-of_interval (truth b) h = absurd h
in_range-of_interval (ratio p q) h = ground (arith, h.0, h.1)
in_range-of_interval outside h = absurd h

module _ (d : CampaignDefinition) where
  abbrev bad_inputs : Bool
  bad_inputs = is_nil d.inputs || any (λ (e : String × String). e.0 == "" || e.1 == "") d.inputs

  abbrev not_increasing : Bool
  not_increasing = not (same_list (sorted ltb (distinct d.layers)) d.layers)

  abbrev bad_interval : Bool
  bad_interval = not (in_range d.reanchor_every_layers)

  pub IsValid-of_ok : validate d ≡ ok tt → IsValid d
  unfolding validate
  IsValid-of_ok h0 =
      let (schema, h1) =
        raise_if-then (not (d.schema == definition_schema)) unsupported_definition_schema h0 in
      let (spec, h2) = raise_if-then (d.experiment_spec == "") experiment_spec_required h1 in
      let (inputs, h3) = raise_if-then bad_inputs inputs_invalid h2 in
      let (some_layer, h4) = raise_if-then (is_nil d.layers) layers_empty h3 in
      let (layers, h5) = raise_if-then not_increasing layers_not_increasing h4 in
      let (interval, h6) = raise_if-then bad_interval reanchor_interval_invalid h5 in
      let (policy, h7) =
        raise_if-then (not (contains d.reanchor_failure_policy gate_policies))
          failure_policy_invalid h6 in
      let (retention, h8) =
        raise_if-then (not (contains d.retention_mode retention_modes)) retention_mode_invalid h7 in
      let generations = raise_if-eq-ok (ltb d.max_generations 1) max_generations_invalid h8 in
      let same = same_list-eq (sorted ltb (distinct d.layers)) d.layers (ground (arith, layers)) in
      let each =
        any-false (λ (e : String × String). e.0 == "" || e.1 == "") d.inputs
          (ground (arith, inputs)) in
      record {
        schema = (string_keys.same_iff d.schema definition_schema).0 (ground (arith, schema));
        spec = text_ne d.experiment_spec "" spec;
        some_input = is_nil_ne d.inputs (ground (arith, inputs));
        inputs = λ e m.
            let q = each e m in
            (text_ne e.0 "" (ground (arith, q)), text_ne e.1 "" (ground (arith, q)));
        some_layer = is_nil_ne d.layers some_layer;
        layers = subst IsIncreasing same (sorted_set-IsIncreasing d.layers);
        interval = IsInterval-of_test d.reanchor_every_layers interval;
        policy = mem-contains d.reanchor_failure_policy gate_policies (ground (arith, policy));
        retention = mem-contains d.retention_mode retention_modes (ground (arith, retention));
        generations = ltb→le d.max_generations 1 generations;
      }

  ok_of_valid : IsValid d → validate d ≡ ok tt
  unfolding validate
  ok_of_valid v =
      let schema = (string_keys.same_iff d.schema definition_schema).1 v.schema in
      let inputs : any (λ (e : String × String). e.0 == "" || e.1 == "") d.inputs ≡ false =
        false-any (λ (e : String × String). e.0 == "" || e.1 == "") d.inputs
          (λ e m.
            ground (arith, ne_text e.0 "" (v.inputs e m).0, ne_text e.1 "" (v.inputs e m).1)) in
      let layers : same_list (sorted ltb (distinct d.layers)) d.layers ≡ true =
        subst (λ z. same_list z d.layers ≡ true) (sym (sorted_set_id d.layers v.layers))
          (same_list_refl d.layers) in
      let interval = in_range-of_interval d.reanchor_every_layers v.interval in
      let generations : ltb d.max_generations 1 ≡ false = ground (arith, v.generations) in
      rw
        (
          schema,
          ne_text d.experiment_spec "" v.spec,
          ne_is_nil d.inputs v.some_input,
          inputs,
          ne_is_nil d.layers v.some_layer,
          layers,
          interval,
          contains_of_mem d.reanchor_failure_policy gate_policies v.policy,
          contains_of_mem d.retention_mode retention_modes v.retention,
          generations,
        )
        refl

  -- `validate` accepts a definition exactly if its schema is the one supported, the experiment is named, there
  -- are inputs, each with a name and a path, there are layers that strictly increase, the interval is a
  -- number from 1 to 4, the policy and the retention mode are among those known, and a generation is allowed.
  pub validate-IsValid : (validate d ≡ ok tt) ↔ IsValid d
  validate-IsValid = (IsValid-of_ok, ok_of_valid)
