-- ===== src/Common/Json/Mappings.antt =====
-- Lookups in the fields of a JSON mapping after writes and a deletion, and finiteness.
use Prim.Native.String.{String}
use mathlib.Core.Path.{◌≡◌, refl, sym, ap, ◌∙◌}
use mathlib.Core.Logic.{inl, inr}
use mathlib.Core.Bool.{true, false}
use mathlib.Core.Option.{Option, none, some}
use native.Mathlib.Omega.{arith}
use shapleymcg.Common.Tests.{if◌then◌else◌, Bool-cases, ◌==◌, string_keys}
use shapleymcg.Common.Dict.{==_refl}
use shapleymcg.Common.Json.{
  Numbers, Json, Fields, end, field, get_field, put_field, del_field, put_fields, is_finite_json,
  all_fields_finite,
}

some-ne-none {ℓ} : {A : Type ℓ} {a : A} → some a ≡ none → ⊥
some-ne-none h = cc

module _ {N : Type 0} where
  -- Each key is there once, as in a Python mapping.
  abbrev pub HasUniqueKeys : Fields N → Type 0
  HasUniqueKeys end = Unit
  HasUniqueKeys (field k v fs) = (get_field k fs ≡ none) × HasUniqueKeys fs

  -- the first value, or the second if there is none
  abbrev pub or_else : Option (Json N) → Option (Json N) → Option (Json N)
  or_else none w = w
  or_else (some v) w = some v

  pub get_field-put_field :
      (k j : String) (v : Json N) (fs : Fields N)
      → get_field j (put_field k v fs) ≡ (if k == j then some v else get_field j fs)
  get_field-put_field k j v end = refl
  get_field-put_field k j v (field i w fs) = ground (
    arith,
    string_keys.same_iff k j,
    string_keys.same_iff i k,
    string_keys.same_iff i j,
    get_field-put_field k j v fs,
  )

  pub get_field-put_field_self :
      (k : String) (v : Json N) (fs : Fields N) → get_field k (put_field k v fs) ≡ some v
  get_field-put_field_self k v fs = rw (get_field-put_field k k v fs, ==_refl k)

  pub get_field-put_field_ne :
      (k j : String) (v : Json N) (fs : Fields N)
      → (k == j) ≡ false
      → get_field j (put_field k v fs) ≡ get_field j fs
  get_field-put_field_ne k j v fs h = rw (get_field-put_field k j v fs, h)

  -- A key that the written fields do not have keeps its value.
  pub get_field-put_fields :
      (j : String) (fs gs : Fields N)
      → get_field j gs ≡ none
      → get_field j (put_fields fs gs) ≡ get_field j fs
  get_field-put_fields j fs end h = refl
  get_field-put_fields j fs (field k v gs) h = elim (Bool-cases (k == j)) [
    | inl e ↦ absurd (some-ne-none (rw e at h))
    | inr e ↦
        get_field-put_fields j (put_field k v fs) gs (rw e at h) ∙ get_field-put_field_ne k j v fs e
  ]

  -- Written fields hide those that were there.
  pub get_field-put_fields_all :
      (j : String) (fs gs : Fields N)
      → HasUniqueKeys gs
      → get_field j (put_fields fs gs) ≡ or_else (get_field j gs) (get_field j fs)
  get_field-put_fields_all j fs end h = refl
  get_field-put_fields_all j fs (field k v gs) h =
      get_field-put_fields_all j (put_field k v fs) gs h.1
      ∙ ap (or_else (get_field j gs)) (get_field-put_field k j v fs)
      ∙ elim (Bool-cases (k == j)) [
        | inl e ↦
            let here : get_field j gs ≡ none =
              ap (λ z. get_field z gs) (sym ((string_keys.same_iff k j).0 e)) ∙ h.0 in
            rw (e, here) refl
        | inr e ↦ rw e refl
      ]

  -- A new key is deleted again.
  pub del_field-put_field :
      (k : String) (v : Json N) (fs : Fields N)
      → get_field k fs ≡ none
      → del_field k (put_field k v fs) ≡ fs
  del_field-put_field k v end h = rw (==_refl k) refl
  del_field-put_field k v (field j w fs) h = elim (Bool-cases (j == k)) [
    | inl e ↦ absurd (some-ne-none (rw e at h))
    | inr e ↦ rw (e, e) (ap (field j w) (del_field-put_field k v fs (rw e at h)))
  ]

module _ {N : Type 0} ⦃n : Numbers N⦄ where
  pub put_field_finite :
      (k : String) (v : Json N) (fs : Fields N)
      → is_finite_json v ≡ true
      → all_fields_finite fs ≡ true
      → all_fields_finite (put_field k v fs) ≡ true
  unfolding is_finite_json
  put_field_finite k v end p h = ground (arith, p)
  put_field_finite k v (field j w fs) p h = elim (Bool-cases (j == k)) [
    | inl e ↦ rw e (ground (arith, p, h))
    | inr e ↦ rw e (ground (arith, h, put_field_finite k v fs p (ground (arith, h))))
  ]

  pub put_fields_finite :
      (fs gs : Fields N)
      → all_fields_finite fs ≡ true
      → all_fields_finite gs ≡ true
      → all_fields_finite (put_fields fs gs) ≡ true
  unfolding is_finite_json
  put_fields_finite fs end h p = h
  put_fields_finite fs (field k v gs) h p =
      put_fields_finite (put_field k v fs) gs (put_field_finite k v fs (ground (arith, p)) h)
        (ground (arith, p))
