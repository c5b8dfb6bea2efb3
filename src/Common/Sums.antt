-- ===== src/Common/Sums.antt =====
-- Sums over lists: Python's `sum`, and the number of items that pass a test.
use Prim.Native.Nat.{ℕ, ◌+◌, ◌≤◌}
use mathlib.Core.Path.{◌≡◌, refl, ap, ◌∙◌, sym}
use mathlib.Core.Logic.{◌≢◌, inl, inr}
use mathlib.Core.Bool.{Bool, true, false}
use mathlib.Core.Option.{none, some}
use mathlib.Core.List.{List, [], ◌∷◌, ◌++◌, Memᴰ}
use native.Mathlib.Omega.{arith}
use shapleymcg.Common.Tests.{Bool-cases, Option-cases, Keyed, ◌==◌}
use shapleymcg.Common.Lists.{◌∈◌, All}
use shapleymcg.Common.Sort.{insert, sorted}
use shapleymcg.Common.Dict.{Dict, get, put}

some-ne-none {ℓ} : {A : Type ℓ} {a : A} → some a ≡ none → ⊥
some-ne-none h = cc

abbrev pub one_if : Bool → ℕ
one_if true = 1
one_if false = 0

module _ {ℓ} {A : Type ℓ} where
  -- `sum(size(x) for x in xs)`
  unfoldable pub sum_of : (A → ℕ) → List A → ℕ
  sum_of size [] = 0
  sum_of size (x ∷ xs) = size x + sum_of size xs

  pub sum_of-append :
      (size : A → ℕ) (xs ys : List A) → sum_of size (xs ++ ys) ≡ sum_of size xs + sum_of size ys
  unfolding sum_of
  sum_of-append size [] ys = omega arith
  sum_of-append size (x ∷ xs) ys = omega (arith, sum_of-append size xs ys)

  sum_of-insert :
      (size : A → ℕ) (lt : A → A → Bool) (x : A) (xs : List A)
      → sum_of size (insert lt x xs) ≡ size x + sum_of size xs
  unfolding sum_of insert
  sum_of-insert size lt x [] = refl
  sum_of-insert size lt x (y ∷ ys) = elim (Bool-cases (lt y x)) [
    | inl e ↦ rw e (omega (arith, sum_of-insert size lt x ys))
    | inr e ↦ rw e
  ]

  -- Sorting changes no sum.
  pub sum_of-sorted :
      (size : A → ℕ) (lt : A → A → Bool) (xs : List A) → sum_of size (sorted lt xs) ≡ sum_of size xs
  unfolding sum_of sorted
  sum_of-sorted size lt [] = refl
  sum_of-sorted size lt (x ∷ xs) =
      omega (arith, sum_of-insert size lt x (sorted lt xs), sum_of-sorted size lt xs)

  size_le-sum_of : (size : A → ℕ) {x : A} (xs : List A) → x ∈ xs → size x ≤ sum_of size xs
  unfolding sum_of
  size_le-sum_of size [] m = elim m [ ]
  size_le-sum_of size (y ∷ ys) (Memᴰ.head e) = omega (arith, ap size e)
  size_le-sum_of size (y ∷ ys) (Memᴰ.tail m) = omega (arith, size_le-sum_of size ys m)

  -- Two items that differ both count.
  pub two_le-sum_of :
      (size : A → ℕ) {x y : A} (xs : List A)
      → x ∈ xs
      → y ∈ xs
      → x ≢ y
      → size x + size y ≤ sum_of size xs
  unfolding sum_of
  two_le-sum_of size [] m k ne = elim m [ ]
  two_le-sum_of size (z ∷ zs) (Memᴰ.head e) (Memᴰ.head d) ne = absurd (ne (e ∙ sym d))
  two_le-sum_of size (z ∷ zs) (Memᴰ.head e) (Memᴰ.tail k) ne =
      omega (arith, ap size e, size_le-sum_of size zs k)
  two_le-sum_of size (z ∷ zs) (Memᴰ.tail m) (Memᴰ.head d) ne =
      omega (arith, ap size d, size_le-sum_of size zs m)
  two_le-sum_of size (z ∷ zs) (Memᴰ.tail m) (Memᴰ.tail k) ne =
      omega (arith, two_le-sum_of size zs m k ne)

  -- How many items pass the test.
  abbrev pub how_many : (A → Bool) → List A → ℕ
  how_many test xs = sum_of (λ x. one_if (test x)) xs

  -- An item that passes is counted.
  pub how_many-mem :
      (test : A → Bool) {x : A} (xs : List A) → x ∈ xs → test x ≡ true → 1 ≤ how_many test xs
  unfolding sum_of
  how_many-mem test [] m h = elim m [ ]
  how_many-mem test (y ∷ ys) (Memᴰ.head e) h =
      omega (arith, ap (λ z. one_if (test z)) e, ap one_if h)
  how_many-mem test (y ∷ ys) (Memᴰ.tail m) h = omega (arith, how_many-mem test ys m h)

  -- Where no item passes, none is counted.
  pub how_many-none :
      (test : A → Bool) (xs : List A) → All (λ x. test x ≡ false) xs → how_many test xs ≡ 0
  unfolding sum_of
  how_many-none test [] h = refl
  how_many-none test (y ∷ ys) h =
      omega
        (arith, ap one_if (h y (Memᴰ.head refl)), how_many-none test ys (λ x m. h x (Memᴰ.tail m)))

-- `groups.setdefault(k, []).append(x)`, or the append to a defaultdict of lists.
module _ {ℓ κ} {K : Type ℓ} ⦃e : Keyed K⦄ {A : Type κ} where
  unfoldable pub file_under : K → A → Dict K (List A) → Dict K (List A)
  file_under k x groups = elim (get k groups) [
    | none ↦ put k (x ∷ []) groups
    | some xs ↦ put k (xs ++ x ∷ []) groups
  ]

  -- The sizes of all the groups' items.
  abbrev pub total_of : (A → ℕ) → Dict K (List A) → ℕ
  total_of size groups = sum_of (λ (g : K × List A). sum_of size g.1) groups

  total_of-put-some :
      (size : A → ℕ) (k : K) (xs ys : List A) (groups : Dict K (List A))
      → get k groups ≡ some ys
      → total_of size (put k xs groups) + sum_of size ys ≡ total_of size groups + sum_of size xs
  unfolding sum_of get put
  total_of-put-some size k xs ys [] h = cc
  total_of-put-some size k xs ys ((j, zs) ∷ groups) h = elim (Bool-cases (j == k)) [
    | inl p ↦ let same : zs ≡ ys = cc (rw p at h) in rw p (omega (arith, ap (sum_of size) same))
    | inr p ↦ rw p (omega (arith, total_of-put-some size k xs ys groups (rw p at h)))
  ]

  total_of-put-none :
      (size : A → ℕ) (k : K) (xs : List A) (groups : Dict K (List A))
      → get k groups ≡ none
      → total_of size (put k xs groups) ≡ total_of size groups + sum_of size xs
  unfolding sum_of get put
  total_of-put-none size k xs [] h = omega arith
  total_of-put-none size k xs ((j, ys) ∷ groups) h = elim (Bool-cases (j == k)) [
    | inl p ↦ absurd (some-ne-none (rw p at h))
    | inr p ↦ rw p (omega (arith, total_of-put-none size k xs groups (rw p at h)))
  ]

  pub total_of-file_under :
      (size : A → ℕ) (k : K) (x : A) (groups : Dict K (List A))
      → total_of size (file_under k x groups) ≡ size x + total_of size groups
  total_of-file_under size k x groups = elim (Option-cases (get k groups)) [
    | inl e ↦
        unfold file_under in
        rw (e, file_under)
          (unfold sum_of in omega (arith, total_of-put-none size k (x ∷ []) groups e))
    | inr (xs, e) ↦
        unfold file_under in
        rw (e, file_under)
          (unfold sum_of in
            omega (
              arith,
              total_of-put-some size k (xs ++ x ∷ []) xs groups e,
              sum_of-append size xs (x ∷ []),
            ))
  ]
