-- ===== src/Common/Loops.antt =====
-- Nested loops over two sequences, and the running minimum.
use mathlib.Core.Path.{◌≡◌, refl, sym, subst}
use mathlib.Core.Bool.{Bool, true, false}
use mathlib.Core.Logic.{◌⊎◌, inl, inr}
use mathlib.Core.Option.{Option, none, some}
use mathlib.Core.List.{List, [], ◌∷◌, Memᴰ}
use native.Mathlib.Omega.{arith}
use shapleymcg.Common.Tests.{if◌then◌else◌, Bool-cases}
use shapleymcg.Common.Lists.{◌∈◌, All}

module _ {ℓ κ μ} {X : Type ℓ} {Y : Type κ} {S : Type μ} (body : X → Y → S → S) where
  -- `for y in ys: body(x, y)`
  unfoldable pub each : X → List Y → S → S
  each x [] s = s
  each x (y ∷ ys) s = each x ys (body x y s)

  -- `for x in xs: for y in ys: body(x, y)`
  unfoldable pub each_pair : List X → List Y → S → S
  unfolding each
  each_pair [] ys s = s
  each_pair (x ∷ xs) ys s = each_pair xs ys (each x ys s)

  module _ {ν} (P : S → Type ν) where
    each-keeps :
        (x : X) (ys : List Y) (s : S)
        → ((y : Y) (t : S) → y ∈ ys → P t → P (body x y t))
        → P s
        → P (each x ys s)
    unfolding each
    each-keeps x [] s keep p = p
    each-keeps x (y ∷ ys) s keep p =
        each-keeps x ys (body x y s) (λ z t m. keep z t (Memᴰ.tail m)) (keep y s (Memᴰ.head refl) p)

    -- A property that every round keeps.
    pub each_pair-keeps :
        (xs : List X) (ys : List Y) (s : S)
        → ((x : X) (y : Y) (t : S) → x ∈ xs → y ∈ ys → P t → P (body x y t))
        → P s
        → P (each_pair xs ys s)
    unfolding each_pair
    each_pair-keeps [] ys s keep p = p
    each_pair-keeps (x ∷ xs) ys s keep p =
        each_pair-keeps xs ys (each x ys s) (λ z y t m. keep z y t (Memᴰ.tail m))
          (each-keeps x ys s (λ y t. keep x y t (Memᴰ.head refl)) p)

    each-hits :
        (x : X) {y : Y} (ys : List Y) (s : S)
        → ((z : Y) (t : S) → z ∈ ys → P t → P (body x z t))
        → ((t : S) → P (body x y t))
        → y ∈ ys
        → P (each x ys s)
    unfolding each
    each-hits x [] s keep hit m = elim m [ ]
    each-hits x (z ∷ ys) s keep hit (Memᴰ.head e) =
        each-keeps x ys (body x z s) (λ w t m. keep w t (Memᴰ.tail m))
          (subst (λ w. P (body x w s)) e (hit s))
    each-hits x (z ∷ ys) s keep hit (Memᴰ.tail m) =
        each-hits x ys (body x z s) (λ w t k. keep w t (Memᴰ.tail k)) hit m

    -- A property that one round sets up and every round keeps.
    pub each_pair-hits :
        {x : X} {y : Y} (xs : List X) (ys : List Y) (s : S)
        → ((z : X) (w : Y) (t : S) → z ∈ xs → w ∈ ys → P t → P (body z w t))
        → ((t : S) → P (body x y t))
        → x ∈ xs
        → y ∈ ys
        → P (each_pair xs ys s)
    unfolding each_pair
    each_pair-hits [] ys s keep hit m k = elim m [ ]
    each_pair-hits {y} (z ∷ xs) ys s keep hit (Memᴰ.head e) k =
        each_pair-keeps xs ys (each z ys s) (λ w v t m. keep w v t (Memᴰ.tail m))
          (each-hits z ys s (λ v t. keep z v t (Memᴰ.head refl))
            (λ t. subst (λ w. P (body w y t)) e (hit t)) k)
    each_pair-hits (z ∷ xs) ys s keep hit (Memᴰ.tail m) k =
        each_pair-hits xs ys (each z ys s) (λ w v t n. keep w v t (Memᴰ.tail n)) hit m k

-- `min(xs, key=...)`: the first of the least items.
module _ {ℓ} {A : Type ℓ} (lt : A → A → Bool) where
  unfoldable pub min_from : A → List A → A
  min_from best [] = best
  min_from best (x ∷ xs) = min_from (if lt x best then x else best) xs

  unfoldable pub min_of : List A → Option A
  unfolding min_from
  min_of [] = none
  min_of (x ∷ xs) = some (min_from x xs)

  pub min_of_mem : {y : A} (xs : List A) → y ∈ xs → (a : A) × (min_of xs ≡ some a)
  unfolding min_of
  min_of_mem [] m = elim m [ ]
  min_of_mem (x ∷ xs) m = (min_from x xs, refl)

  module _ {κ} (P : A → Type κ) where
    min_from-keeps : (best : A) (xs : List A) → P best → All P xs → P (min_from best xs)
    unfolding min_from
    min_from-keeps best [] p h = p
    min_from-keeps best (x ∷ xs) p h = elim (Bool-cases (lt x best)) [
      | inl e ↦ rw e (min_from-keeps x xs (h x (Memᴰ.head refl)) (λ y m. h y (Memᴰ.tail m)))
      | inr e ↦ rw e (min_from-keeps best xs p (λ y m. h y (Memᴰ.tail m)))
    ]

    -- The least item is one of the items.
    pub min_of-All : (xs : List A) {a : A} → min_of xs ≡ some a → All P xs → P a
    unfolding min_of
    min_of-All [] e h = cc
    min_of-All (x ∷ xs) e h =
        subst P (ground (arith, e))
          (min_from-keeps x xs (h x (Memᴰ.head refl)) (λ y m. h y (Memᴰ.tail m)))

  -- No item passes the least one, in any preorder that the test agrees with.
  module _ {κ} (Below : A → A → Type κ) (below_refl : (a : A) → Below a a)
      (below_trans : (a b c : A) → Below a b → Below b c → Below a c)
      (less : (a b : A) → lt a b ≡ true → Below a b)
      (not_less : (a b : A) → lt a b ≡ false → Below b a) where
    min_from-Below-start : (best : A) (xs : List A) → Below (min_from best xs) best
    unfolding min_from
    min_from-Below-start best [] = below_refl best
    min_from-Below-start best (x ∷ xs) = elim (Bool-cases (lt x best)) [
      | inl e ↦ rw e (below_trans _ x best (min_from-Below-start x xs) (less x best e))
      | inr e ↦ rw e (min_from-Below-start best xs)
    ]

    min_from-Below : (best : A) (xs : List A) → All (Below (min_from best xs)) xs
    unfolding min_from
    min_from-Below best [] y m = elim m [ ]
    min_from-Below best (x ∷ xs) y (Memᴰ.head e) =
        subst (Below (min_from best (x ∷ xs))) (sym e) (first (Bool-cases (lt x best)))
      where
        first : (lt x best ≡ true) ⊎ (lt x best ≡ false) → Below (min_from best (x ∷ xs)) x
        first (inl p) = rw p (min_from-Below-start x xs)
        first (inr p) =
            rw p (below_trans _ best x (min_from-Below-start best xs) (not_less x best p))
    min_from-Below best (x ∷ xs) y (Memᴰ.tail m) =
        min_from-Below (if lt x best then x else best) xs y m

    pub min_of-Below : (xs : List A) {a : A} → min_of xs ≡ some a → All (Below a) xs
    unfolding min_of
    min_of-Below [] e y m = elim m [ ]
    min_of-Below (x ∷ xs) {a} e y (Memᴰ.head p) =
        subst (λ z. Below z y) (ground (arith, e))
          (subst (Below (min_from x xs)) (sym p) (min_from-Below-start x xs))
    min_of-Below (x ∷ xs) {a} e y (Memᴰ.tail m) =
        subst (λ z. Below z y) (ground (arith, e)) (min_from-Below x xs y m)
