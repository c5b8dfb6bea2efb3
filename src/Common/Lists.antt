-- ===== src/Common/Lists.antt =====
-- Lists measured by native numbers, and membership as a family that can be matched.
use Prim.Native.Nat.{ℕ, zero, suc, ◌+◌}
use mathlib.Core.Path.{◌≡◌, refl, ap, sym, subst}
use mathlib.Core.Logic.{◌⊎◌, inl, inr}
use mathlib.Core.Bool.{Bool, true, false, ◌||◌, ◌&&◌}
use mathlib.Core.List.{List, [], ◌∷◌, ◌++◌, map, Memᴰ}
use mathlib.Core.Option.{Option, none, some}
use native.Mathlib.Omega.{arith}

module _ {ℓ} {A : Type ℓ} where
  abbrev pub length : List A → ℕ
  length [] = 0
  length (x ∷ xs) = suc (length xs)

  pub length-append : (xs ys : List A) → length (xs ++ ys) ≡ length xs + length ys
  length-append [] ys = omega arith
  length-append (x ∷ xs) ys = omega (arith, length-append xs ys)

  abbrev pub get_elem? : List A → ℕ → Option A
  get_elem? [] i = none
  get_elem? (x ∷ xs) zero = some x
  get_elem? (x ∷ xs) (suc i) = get_elem? xs i

  abbrev pub get_or : List A → ℕ → A → A
  get_or [] i d = d
  get_or (x ∷ xs) zero d = x
  get_or (x ∷ xs) (suc i) d = get_or xs i d

  abbrev pub set : List A → ℕ → A → List A
  set [] i v = []
  set (x ∷ xs) zero v = v ∷ xs
  set (x ∷ xs) (suc i) v = x ∷ set xs i v

  abbrev pub take : ℕ → List A → List A
  take zero xs = []
  take (suc n) [] = []
  take (suc n) (x ∷ xs) = x ∷ take n xs

  abbrev pub drop : ℕ → List A → List A
  drop zero xs = xs
  drop (suc n) [] = []
  drop (suc n) (x ∷ xs) = drop n xs

  abbrev pub replicate : ℕ → A → List A
  replicate zero a = []
  replicate (suc n) a = a ∷ replicate n a

  -- `any(test(x) for x in xs)`
  abbrev pub any : (A → Bool) → List A → Bool
  any test [] = false
  any test (x ∷ xs) = test x || any test xs

  -- `all(test(x) for x in xs)`
  abbrev pub all : (A → Bool) → List A → Bool
  all test [] = true
  all test (x ∷ xs) = test x && all test xs

infix 4 ◌∈◌
abbrev pub ◌∈◌ {ℓ} : {A : Type ℓ} → A → List A → Type ℓ
◌∈◌ {A} x xs = Memᴰ x xs

-- Every item of the list satisfies the predicate.
abbrev pub All {ℓ κ} : {A : Type ℓ} → (A → Type κ) → List A → Type (ℓ ⊔ κ)
All {A} P xs = (x : A) → x ∈ xs → P x

-- Some item of the list satisfies the predicate; the item is kept.
abbrev pub Some {ℓ κ} : {A : Type ℓ} → (A → Type κ) → List A → Type (ℓ ⊔ κ)
Some {A} P xs = (x : A) × (x ∈ xs) × P x

module _ {ℓ κ} {A : Type ℓ} {P : A → Type κ} where
  pub All-cons : {x : A} {xs : List A} → P x → All P xs → All P (x ∷ xs)
  All-cons p h y (Memᴰ.head e) = subst P (sym e) p
  All-cons p h y (Memᴰ.tail m) = h y m

  pub All-append : (xs ys : List A) → All P xs → All P ys → All P (xs ++ ys)
  All-append [] ys p q = q
  All-append (x ∷ xs) ys p q =
      All-cons (p x (Memᴰ.head refl)) (All-append xs ys (λ y m. p y (Memᴰ.tail m)) q)

module _ {ℓ} {A : Type ℓ} (test : A → Bool) where
  pub any-false : (xs : List A) → any test xs ≡ false → All (λ x. test x ≡ false) xs
  any-false [] h x m = elim m [ ]
  any-false (y ∷ xs) h x (Memᴰ.head e) = rw e (ground (arith, h))
  any-false (y ∷ xs) h x (Memᴰ.tail m) = any-false xs (ground (arith, h)) x m

  pub false-any : (xs : List A) → All (λ x. test x ≡ false) xs → any test xs ≡ false
  false-any [] h = refl
  false-any (y ∷ xs) h = rw (h y (Memᴰ.head refl)) (false-any xs (λ x m. h x (Memᴰ.tail m)))

module _ {ℓ} {A : Type ℓ} where
  pub mem_under : {a x : A} {ys zs : List A} → (a ∈ ys → a ∈ zs) → a ∈ (x ∷ ys) → a ∈ (x ∷ zs)
  mem_under f (Memᴰ.head e) = Memᴰ.head e
  mem_under f (Memᴰ.tail k) = Memᴰ.tail (f k)

  pub mem_head : (x : A) (xs : List A) → x ∈ (x ∷ xs)
  mem_head x xs = Memᴰ.head refl

  pub mem-append_left : {x : A} (xs ys : List A) → x ∈ xs → x ∈ (xs ++ ys)
  mem-append_left [] ys m = elim m [ ]
  mem-append_left (y ∷ xs) ys (Memᴰ.head e) = Memᴰ.head e
  mem-append_left (y ∷ xs) ys (Memᴰ.tail m) = Memᴰ.tail (mem-append_left xs ys m)

  pub mem-append_right : {x : A} (xs ys : List A) → x ∈ ys → x ∈ (xs ++ ys)
  mem-append_right [] ys m = m
  mem-append_right (y ∷ xs) ys m = Memᴰ.tail (mem-append_right xs ys m)

  pub mem-append : {x : A} (xs ys : List A) → x ∈ (xs ++ ys) → (x ∈ xs) ⊎ (x ∈ ys)
  mem-append [] ys m = inr m
  mem-append (y ∷ xs) ys (Memᴰ.head e) = inl (Memᴰ.head e)
  mem-append (y ∷ xs) ys (Memᴰ.tail m) = elim (mem-append xs ys m) [
    | inl l ↦ inl (Memᴰ.tail l)
    | inr r ↦ inr r
  ]

  pub mem_one : {x y : A} → x ∈ (y ∷ []) → x ≡ y
  mem_one (Memᴰ.head e) = e
  mem_one (Memᴰ.tail m) = elim m [ ]

  pub mem-map {κ} : {B : Type κ} (f : A → B) {x : A} (xs : List A) → x ∈ xs → f x ∈ map f xs
  mem-map f [] m = elim m [ ]
  mem-map f (y ∷ xs) (Memᴰ.head e) = Memᴰ.head (ap f e)
  mem-map f (y ∷ xs) (Memᴰ.tail m) = Memᴰ.tail (mem-map f xs m)

  pub mem_of_map {κ} :
      {B : Type κ} (f : A → B) {y : B} (xs : List A) → y ∈ map f xs → (x : A) × (x ∈ xs) × (f x ≡ y)
  mem_of_map f [] m = elim m [ ]
  mem_of_map f (x ∷ xs) (Memᴰ.head e) = (x, Memᴰ.head refl, sym e)
  mem_of_map f (x ∷ xs) (Memᴰ.tail m) = let (z, k, e) = mem_of_map f xs m in (z, Memᴰ.tail k, e)
