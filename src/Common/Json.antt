-- ===== src/Common/Json.antt =====
-- JSON values. Numbers other than Booleans are a type `N` with what Python asks of a number.
pub mod Mappings
use Prim.Native.Nat.{ℕ, zero, suc, ◌+◌}
use Prim.Native.String.{String}
use mathlib.Core.Bool.{Bool, true, false, ◌&&◌, ◌||◌}
use mathlib.Core.Option.{Option, none, some}
use mathlib.Core.List.{List, [], ◌∷◌}
use shapleymcg.Common.Tests.{if◌then◌else◌, nat_eq, ◌==◌, string_keys}

-- `int` and `float`: the natural numbers and -1 among them, `==`, `<` and `+`, the tests `math.isfinite` and
-- `isinstance(x, int)`, the number of an `int` that is not negative, `float(x)` and `int(x)`, which may raise,
-- and `int(s)` of a text.
pub record Numbers (N : Type 0) : Type 0 where
  pub of_nat : ℕ → N
  pub minus_one : N
  pub same_number : N → N → Bool
  pub less : N → N → Bool
  pub add : N → N → N
  pub is_finite_number : N → Bool
  pub is_int : N → Bool
  pub to_nat : N → Option ℕ
  pub to_float : N → Option N
  pub truncate : N → Option N
  pub parse_int : String → Option N

mutual
  pub data Json (N : Type 0) : Type 0 where
    null : Json N
    boolean : Bool → Json N
    number : N → Json N
    text : String → Json N
    array : Items N → Json N
    object : Fields N → Json N

  pub data Items (N : Type 0) : Type 0 where
    nil : Items N
    item : Json N → Items N → Items N

  pub data Fields (N : Type 0) : Type 0 where
    end : Fields N
    field : String → Json N → Fields N → Fields N

module _ {N : Type 0} where
  -- `d.get(k)`
  abbrev pub get_field : String → Fields N → Option (Json N)
  get_field k end = none
  get_field k (field j v fs) = if j == k then some v else get_field k fs

  -- `d[k] = v`
  abbrev pub put_field : String → Json N → Fields N → Fields N
  put_field k v end = field k v end
  put_field k v (field j w fs) = if j == k then field k v fs else field j w (put_field k v fs)

  -- `del d[k]`, for a key that is there
  abbrev pub del_field : String → Fields N → Fields N
  del_field k end = end
  del_field k (field j w fs) = if j == k then fs else field j w (del_field k fs)

  -- `{**fs, **gs}`
  abbrev pub put_fields : Fields N → Fields N → Fields N
  put_fields fs end = fs
  put_fields fs (field k v gs) = put_fields (put_field k v fs) gs

  abbrev pub count_fields : Fields N → ℕ
  count_fields end = 0
  count_fields (field k v fs) = suc (count_fields fs)

  -- `d.get(k, default)`
  abbrev pub get_default : String → Json N → Fields N → Json N
  get_default k default fs = elim (get_field k fs) [ none ↦ default | some v ↦ v ]

  -- `d.get(k)`
  abbrev pub get_or_null : String → Fields N → Json N
  get_or_null k fs = get_default k null fs

  -- the keys of a mapping
  abbrev pub field_names : Fields N → List String
  field_names end = []
  field_names (field k v fs) = k ∷ field_names fs

  -- `value == text`
  abbrev pub is_text : Json N → String → Bool
  is_text (text s) t = s == t
  is_text _ t = false

  -- `value is None`
  abbrev pub is_null : Json N → Bool
  is_null null = true
  is_null _ = false

  -- `isinstance(value, bool)`
  abbrev pub is_boolean : Json N → Bool
  is_boolean (boolean b) = true
  is_boolean _ = false

  -- a list or a mapping, which no set and no key of a mapping can be
  abbrev pub is_unhashable : Json N → Bool
  is_unhashable (array vs) = true
  is_unhashable (object fs) = true
  is_unhashable _ = false

  -- `tuple(value)` returns
  abbrev pub is_iterable : Json N → Bool
  is_iterable (array vs) = true
  is_iterable (object fs) = true
  is_iterable (text s) = true
  is_iterable _ = false

  -- the mapping that a value is, the list that it is, or none
  abbrev pub as_mapping : Json N → Option (Fields N)
  as_mapping (object fs) = some fs
  as_mapping _ = none

  -- the mapping that a value is, or the empty one
  abbrev pub mapping_or_empty : Json N → Fields N
  mapping_or_empty (object fs) = fs
  mapping_or_empty _ = end

  abbrev pub of_items : List (Json N) → Items N
  of_items [] = nil
  of_items (v ∷ vs) = item v (of_items vs)

  abbrev pub to_items : Items N → List (Json N)
  to_items nil = []
  to_items (item v vs) = v ∷ to_items vs

  abbrev pub as_list : Json N → Option (List (Json N))
  as_list (array vs) = some (to_items vs)
  as_list _ = none

module _ {N : Type 0} ⦃n : Numbers N⦄ where
  -- `_finite_json` returns
  unfoldable mutual
    pub is_finite_json : Json N → Bool
    is_finite_json null = true
    is_finite_json (boolean b) = true
    is_finite_json (number x) = n.is_finite_number x
    is_finite_json (text s) = true
    is_finite_json (array vs) = all_items_finite vs
    is_finite_json (object fs) = all_fields_finite fs

    pub all_items_finite : Items N → Bool
    all_items_finite nil = true
    all_items_finite (item v vs) = is_finite_json v && all_items_finite vs

    pub all_fields_finite : Fields N → Bool
    all_fields_finite end = true
    all_fields_finite (field k v fs) = is_finite_json v && all_fields_finite fs

  -- `True` is 1 and `False` is 0
  abbrev pub bit : Bool → N
  bit true = n.of_nat 1
  bit false = n.of_nat 0

  -- `v == w`: mappings are equal whatever the order of their keys
  unfoldable mutual
    pub same_json : Json N → Json N → Bool
    same_json null null = true
    same_json (boolean a) (boolean b) = n.same_number (bit a) (bit b)
    same_json (boolean a) (number y) = n.same_number (bit a) y
    same_json (number x) (boolean b) = n.same_number x (bit b)
    same_json (number x) (number y) = n.same_number x y
    same_json (text s) (text t) = s == t
    same_json (array vs) (array ws) = same_items vs ws
    same_json (object fs) (object gs) =
        nat_eq (count_fields fs) (count_fields gs) && in_fields fs gs
    same_json _ _ = false

    pub same_items : Items N → Items N → Bool
    same_items nil nil = true
    same_items (item v vs) (item w ws) = same_json v w && same_items vs ws
    same_items _ _ = false

    pub in_fields : Fields N → Fields N → Bool
    in_fields end gs = true
    in_fields (field k v fs) gs = elim (get_field k gs) [
      | none ↦ false
      | some w ↦ same_json v w && in_fields fs gs
    ]
