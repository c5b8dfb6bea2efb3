-- ===== src/Common/Sort.antt =====
-- Python's `sorted` and `list.sort`: a stable sort by the test "less than". The model is insertion
-- from the right, where an item stays before its equals.
use Prim.Native.Nat.{ℕ, ◌≤◌}
use mathlib.Core.Path.{◌≡◌, refl, ap, ◌∙◌}
use mathlib.Core.Logic.{inl, inr}
use mathlib.Core.Bool.{Bool, true, false}
use mathlib.Core.List.{List, [], ◌∷◌, Memᴰ, map}
use native.Mathlib.Nat.{le_trans}
use shapleymcg.Common.Tests.{if◌then◌else◌, Bool-cases}
use shapleymcg.Common.Lists.{◌∈◌, All, All-cons, mem_under}

module _ {ℓ} {A : Type ℓ} (lt : A → A → Bool) where
  unfoldable pub insert : A → List A → List A
  insert x [] = x ∷ []
  insert x (y ∷ ys) = if lt y x then y ∷ insert x ys else x ∷ y ∷ ys

  unfoldable pub sorted : List A → List A
  unfolding insert
  sorted [] = []
  sorted (x ∷ xs) = insert x (sorted xs)

-- The items' weights do not fall along the list.
abbrev pub IsAscending {ℓ} : {A : Type ℓ} → (A → ℕ) → List A → Type ℓ
IsAscending weight [] = Unit
IsAscending weight (x ∷ xs) = All (λ y. weight x ≤ weight y) xs × IsAscending weight xs

module _ {ℓ} {A : Type ℓ} (lt : A → A → Bool) where
  swap_mem :
      {a x y : A} {ys zs : List A} → (a ∈ (x ∷ ys) → a ∈ zs) → a ∈ (x ∷ y ∷ ys) → a ∈ (y ∷ zs)
  swap_mem f (Memᴰ.head e) = Memᴰ.tail (f (Memᴰ.head e))
  swap_mem f (Memᴰ.tail (Memᴰ.head e)) = Memᴰ.head e
  swap_mem f (Memᴰ.tail (Memᴰ.tail k)) = Memᴰ.tail (f (Memᴰ.tail k))

  unswap_mem :
      {a x y : A} {ys zs : List A} → (a ∈ zs → a ∈ (x ∷ ys)) → a ∈ (y ∷ zs) → a ∈ (x ∷ y ∷ ys)
  unswap_mem f (Memᴰ.head e) = Memᴰ.tail (Memᴰ.head e)
  unswap_mem {a} {x} {y} {ys} f (Memᴰ.tail k) = skip (f k)
    where
      skip : a ∈ (x ∷ ys) → a ∈ (x ∷ y ∷ ys)
      skip (Memᴰ.head e) = Memᴰ.head e
      skip (Memᴰ.tail m) = Memᴰ.tail (Memᴰ.tail m)

  insert-mem : {a : A} (x : A) (ys : List A) → a ∈ (x ∷ ys) → a ∈ insert lt x ys
  unfolding insert
  insert-mem x [] m = m
  insert-mem x (y ∷ ys) m = elim (Bool-cases (lt y x)) [
    | inl e ↦ rw e (swap_mem (insert-mem x ys) m)
    | inr e ↦ rw e m
  ]

  pub mem-insert : {a : A} (x : A) (ys : List A) → a ∈ insert lt x ys → a ∈ (x ∷ ys)
  unfolding insert
  mem-insert x [] m = m
  mem-insert {a} x (y ∷ ys) m = elim (Bool-cases (lt y x)) [
    | inl e ↦ unswap_mem (mem-insert x ys) (rw e at m)
    | inr e ↦ rw e at m
  ]

  -- Sorting keeps the items.
  pub sorted-mem : {a : A} (xs : List A) → a ∈ xs → a ∈ sorted lt xs
  unfolding sorted
  sorted-mem [] m = m
  sorted-mem (x ∷ xs) (Memᴰ.head e) = insert-mem x (sorted lt xs) (Memᴰ.head e)
  sorted-mem (x ∷ xs) (Memᴰ.tail m) = insert-mem x (sorted lt xs) (Memᴰ.tail (sorted-mem xs m))

  pub mem-sorted : {a : A} (xs : List A) → a ∈ sorted lt xs → a ∈ xs
  unfolding sorted
  mem-sorted [] m = m
  mem-sorted (x ∷ xs) m = mem_under (mem-sorted xs) (mem-insert x (sorted lt xs) m)

  -- A test that agrees with a weight sorts by that weight.
  module _ (weight : A → ℕ) (rises : (x y : A) → lt x y ≡ true → weight x ≤ weight y)
      (falls : (x y : A) → lt x y ≡ false → weight y ≤ weight x) where
    insert-IsAscending :
        (x : A) (ys : List A) → IsAscending weight ys → IsAscending weight (insert lt x ys)
    unfolding insert
    insert-IsAscending x [] h = (λ y m. absurd (elim m [ ]), tt)
    insert-IsAscending x (y ∷ ys) h = elim (Bool-cases (lt y x)) [
      | inl e ↦ rw e (
        λ z m. All-cons {P = λ z. weight y ≤ weight z} (rises y x e) h.0 z (mem-insert x ys m),
        insert-IsAscending x ys h.1,
      )
      | inr e ↦ rw e (All-cons (falls y x e) (λ z m. le_trans (falls y x e) (h.0 z m)), h)
    ]

    pub sorted-IsAscending : (xs : List A) → IsAscending weight (sorted lt xs)
    unfolding sorted
    sorted-IsAscending [] = tt
    sorted-IsAscending (x ∷ xs) = insert-IsAscending x (sorted lt xs) (sorted-IsAscending xs)

-- Sorting by a key sorts the keys.
module _ {ℓ κ} {A : Type ℓ} {K : Type κ} (key : A → K) (lt : K → K → Bool) where
  map-insert :
      (x : A) (ys : List A)
      → map key (insert (λ a b. lt (key a) (key b)) x ys) ≡ insert lt (key x) (map key ys)
  unfolding insert
  map-insert x [] = refl
  map-insert x (y ∷ ys) = elim (Bool-cases (lt (key y) (key x))) [
    | inl e ↦ rw e (ap (λ ks. key y ∷ ks) (map-insert x ys))
    | inr e ↦ rw e
  ]

  pub map-sorted :
      (xs : List A) → map key (sorted (λ a b. lt (key a) (key b)) xs) ≡ sorted lt (map key xs)
  unfolding sorted
  map-sorted [] = refl
  map-sorted (x ∷ xs) =
      map-insert x (sorted (λ a b. lt (key a) (key b)) xs) ∙ ap (insert lt (key x)) (map-sorted xs)
