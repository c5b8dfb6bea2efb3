-- ===== src/Campaign/Tests/Trees.antt =====
-- Equality of JSON values with natural numbers, key by key in order: the lines of the test journal.
use mathlib.Core.Bool.{false≢true}
use shapleymcg.Common.{
  ℕ, ◌≡◌, refl, ap, ap₂, subst, String, Bool, true, false, ◌&&◌, nat_eq, nat_eq_iff, ◌==◌,
  string_keys, Keyed, arith,
}
use shapleymcg.Common.Json.{
  Json, null, boolean, number, text, array, object, Items, nil, item, Fields, end, field,
}

abbrev same_bit : Bool → Bool → Bool
same_bit true b = b
same_bit false true = false
same_bit false false = true

unfoldable mutual
  pub same_tree : Json ℕ → Json ℕ → Bool
  same_tree null null = true
  same_tree (boolean b) (boolean b') = same_bit b b'
  same_tree (number x) (number x') = nat_eq x x'
  same_tree (text s) (text s') = s == s'
  same_tree (array vs) (array vs') = same_row vs vs'
  same_tree (object fs) (object fs') = same_map fs fs'
  same_tree _ _ = false

  same_row : Items ℕ → Items ℕ → Bool
  same_row nil nil = true
  same_row (item v vs) (item w ws) = same_tree v w && same_row vs ws
  same_row _ _ = false

  same_map : Fields ℕ → Fields ℕ → Bool
  same_map end end = true
  same_map (field k v fs) (field j w gs) = k == j && same_tree v w && same_map fs gs
  same_map _ _ = false

both : (a b : Bool) → a && b ≡ true → (a ≡ true) × (b ≡ true)
both true b h = (refl, h)
both false b h = absurd (false≢true h)

field_eq :
    {k j : String} {v w : Json ℕ} {fs gs : Fields ℕ}
    → k ≡ j
    → v ≡ w
    → fs ≡ gs
    → field k v fs ≡ field j w gs
field_eq p q r = cc

bit_eq : (a b : Bool) → same_bit a b ≡ true → a ≡ b
bit_eq true true h = refl
bit_eq true false h = absurd (false≢true h)
bit_eq false true h = absurd (false≢true h)
bit_eq false false h = refl

bit_refl : (a : Bool) → same_bit a a ≡ true
bit_refl true = refl
bit_refl false = refl

mutual
  unfolding same_tree

  pub tree_eq : (v w : Json ℕ) → same_tree v w ≡ true → v ≡ w
  tree_eq null null h = refl
  tree_eq null (boolean b') h = absurd (false≢true h)
  tree_eq null (number x') h = absurd (false≢true h)
  tree_eq null (text s') h = absurd (false≢true h)
  tree_eq null (array vs') h = absurd (false≢true h)
  tree_eq null (object fs') h = absurd (false≢true h)
  tree_eq (boolean b) null h = absurd (false≢true h)
  tree_eq (boolean b) (boolean b') h = ap boolean (bit_eq b b' h)
  tree_eq (boolean b) (number x') h = absurd (false≢true h)
  tree_eq (boolean b) (text s') h = absurd (false≢true h)
  tree_eq (boolean b) (array vs') h = absurd (false≢true h)
  tree_eq (boolean b) (object fs') h = absurd (false≢true h)
  tree_eq (number x) null h = absurd (false≢true h)
  tree_eq (number x) (boolean b') h = absurd (false≢true h)
  tree_eq (number x) (number x') h = ap number ((nat_eq_iff x x').0 h)
  tree_eq (number x) (text s') h = absurd (false≢true h)
  tree_eq (number x) (array vs') h = absurd (false≢true h)
  tree_eq (number x) (object fs') h = absurd (false≢true h)
  tree_eq (text s) null h = absurd (false≢true h)
  tree_eq (text s) (boolean b') h = absurd (false≢true h)
  tree_eq (text s) (number x') h = absurd (false≢true h)
  tree_eq (text s) (text s') h = ap text ((string_keys.same_iff s s').0 h)
  tree_eq (text s) (array vs') h = absurd (false≢true h)
  tree_eq (text s) (object fs') h = absurd (false≢true h)
  tree_eq (array vs) null h = absurd (false≢true h)
  tree_eq (array vs) (boolean b') h = absurd (false≢true h)
  tree_eq (array vs) (number x') h = absurd (false≢true h)
  tree_eq (array vs) (text s') h = absurd (false≢true h)
  tree_eq (array vs) (array vs') h = ap array (row_eq vs vs' h)
  tree_eq (array vs) (object fs') h = absurd (false≢true h)
  tree_eq (object fs) null h = absurd (false≢true h)
  tree_eq (object fs) (boolean b') h = absurd (false≢true h)
  tree_eq (object fs) (number x') h = absurd (false≢true h)
  tree_eq (object fs) (text s') h = absurd (false≢true h)
  tree_eq (object fs) (array vs') h = absurd (false≢true h)
  tree_eq (object fs) (object fs') h = ap object (map_eq fs fs' h)

  row_eq : (vs ws : Items ℕ) → same_row vs ws ≡ true → vs ≡ ws
  row_eq nil nil h = refl
  row_eq nil (item w ws) h = absurd (false≢true h)
  row_eq (item v vs) nil h = absurd (false≢true h)
  row_eq (item v vs) (item w ws) h =
      ap₂ item (tree_eq v w (ground (arith, h))) (row_eq vs ws (ground (arith, h)))

  map_eq : (fs gs : Fields ℕ) → same_map fs gs ≡ true → fs ≡ gs
  map_eq end end h = refl
  map_eq end (field j w gs) h = absurd (false≢true h)
  map_eq (field k v fs) end h = absurd (false≢true h)
  map_eq (field k v fs) (field j w gs) h =
      let (heads, more) = both (k == j && same_tree v w) (same_map fs gs) h in
      let (key, value) = both (k == j) (same_tree v w) heads in
      field_eq ((string_keys.same_iff k j).0 key) (tree_eq v w value) (map_eq fs gs more)

mutual
  unfolding same_tree

  pub tree_refl : (v : Json ℕ) → same_tree v v ≡ true
  tree_refl null = refl
  tree_refl (boolean b) = bit_refl b
  tree_refl (number x) = (nat_eq_iff x x).1 refl
  tree_refl (text s) = (string_keys.same_iff s s).1 refl
  tree_refl (array vs) = row_refl vs
  tree_refl (object fs) = map_refl fs

  row_refl : (vs : Items ℕ) → same_row vs vs ≡ true
  row_refl nil = refl
  row_refl (item v vs) = ground (arith, tree_refl v, row_refl vs)

  map_refl : (fs : Fields ℕ) → same_map fs fs ≡ true
  map_refl end = refl
  map_refl (field k v fs) =
      let key = (string_keys.same_iff k k).1 refl in ground (arith, key, tree_refl v, map_refl fs)

instance abbrev pub json_lines : Keyed (Json ℕ)
json_lines = record {
  same = same_tree;
  same_iff = λ v w. (tree_eq v w, λ e. subst (λ z. same_tree v z ≡ true) e (tree_refl v));
}
