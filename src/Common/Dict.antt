-- ===== src/Common/Dict.antt =====
-- Python's `dict`: an association list in the order in which the keys were first written. A write to a
-- key that is there keeps its place.
use mathlib.Core.Path.{◌≡◌, refl, sym, ap, ap₂, ◌∙◌, subst}
use mathlib.Core.Logic.{◌≢◌, ◌⊎◌, inl, inr}
use mathlib.Core.Bool.{Bool, ◌&&◌, true, false, false≢true}
use mathlib.Core.Option.{Option, none, some}
use mathlib.Core.List.{List, [], ◌∷◌, Memᴰ, map}
use native.Mathlib.Omega.{arith}
use shapleymcg.Common.Tests.{if◌then◌else◌, Bool-cases, Keyed, ◌==◌}
use shapleymcg.Common.Sort.{insert, sorted, mem-insert, mem-sorted}
use shapleymcg.Common.Lists.{any, all, ◌∈◌, All, All-cons, mem-map}

abbrev pub Dict {ℓ κ} : Type ℓ → Type κ → Type (ℓ ⊔ κ)
Dict K V = List (K × V)

pub ==_refl {ℓ} : {K : Type ℓ} ⦃e : Keyed K⦄ (k : K) → (k == k) ≡ true
==_refl ⦃e⦄ k = (e.same_iff k k).1 refl

module _ {ℓ κ} {K : Type ℓ} ⦃e : Keyed K⦄ {V : Type κ} where
  -- `d.get(k)`
  unfoldable pub get : K → Dict K V → Option V
  get k [] = none
  get k ((j, v) ∷ d) = if j == k then some v else get k d

  -- `d[k] = v`
  unfoldable pub put : K → V → Dict K V → Dict K V
  put k v [] = (k, v) ∷ []
  put k v ((j, w) ∷ d) = if j == k then (k, v) ∷ d else (j, w) ∷ put k v d

  pub get-put :
      (k j : K) (v : V) (d : Dict K V) → get j (put k v d) ≡ (if k == j then some v else get j d)
  unfolding get put
  get-put k j v [] = refl
  get-put k j v ((i, w) ∷ d) =
      ground (arith, e.same_iff k j, e.same_iff i k, e.same_iff i j, get-put k j v d)

  pub get-put_self : (k : K) (v : V) (d : Dict K V) → get k (put k v d) ≡ some v
  get-put_self k v d = rw (get-put k k v d, ==_refl k)

  pub get-put_eq : (k j : K) (v : V) (d : Dict K V) → (k == j) ≡ true → get j (put k v d) ≡ some v
  get-put_eq k j v d q = rw (get-put k j v d, q)

  pub get-put_ne : (k j : K) (v : V) (d : Dict K V) → (k == j) ≡ false → get j (put k v d) ≡ get j d
  get-put_ne k j v d q = rw (get-put k j v d, q)

  -- What `get` finds is an entry.
  pub get-mem : (k : K) (d : Dict K V) {v : V} → get k d ≡ some v → (k, v) ∈ d
  unfolding get
  get-mem k [] h = cc
  get-mem k ((j, w) ∷ d) {v} h = elim (Bool-cases (j == k)) [
    | inl p ↦ Memᴰ.head (ground (arith, (e.same_iff j k).0 p, rw p at h))
    | inr p ↦ Memᴰ.tail (get-mem k d (rw p at h))
  ]

  -- A write changes no entry but that of its key.
  pub put-All {μ} :
      {P : K × V → Type μ} (k : K) (v : V) (d : Dict K V) → All P d → P (k, v) → All P (put k v d)
  unfolding put
  put-All k v [] h p = All-cons p h
  put-All k v ((j, w) ∷ d) h p = elim (Bool-cases (j == k)) [
    | inl q ↦ rw q (All-cons p (λ x m. h x (Memᴰ.tail m)))
    | inr q ↦
        rw q (All-cons (h (j, w) (Memᴰ.head refl)) (put-All k v d (λ x m. h x (Memᴰ.tail m)) p))
  ]

-- No two items of the list are equal.
abbrev pub IsDistinct {ℓ} : {A : Type ℓ} → List A → Type ℓ
IsDistinct [] = Unit
IsDistinct (x ∷ xs) = All (λ y. y ≢ x) xs × IsDistinct xs

module _ {ℓ} {A : Type ℓ} (lt : A → A → Bool) where
  insert-IsDistinct :
      (x : A) (ys : List A) → All (λ y. y ≢ x) ys → IsDistinct ys → IsDistinct (insert lt x ys)
  unfolding insert
  insert-IsDistinct x [] h k = (h, tt)
  insert-IsDistinct x (y ∷ ys) h k = elim (Bool-cases (lt y x)) [
    | inl e ↦
        rw (e, insert)
          (
            (λ z m.
                All-cons {P = λ w. w ≢ y} (λ p. h y (Memᴰ.head refl) (sym p)) k.0 z
                  (mem-insert lt x ys m)),
            insert-IsDistinct x ys (λ z m. h z (Memᴰ.tail m)) k.1,
          )
    | inr e ↦ rw (e, insert) (h, k)
  ]

  -- Sorting keeps the items different.
  pub sorted-IsDistinct : (xs : List A) → IsDistinct xs → IsDistinct (sorted lt xs)
  unfolding sorted
  sorted-IsDistinct [] h = tt
  sorted-IsDistinct (x ∷ xs) h =
      insert-IsDistinct x (sorted lt xs) (λ y m. h.0 y (mem-sorted lt xs m))
        (sorted-IsDistinct xs h.1)

-- `d.keys()`
abbrev pub keys {ℓ κ} : {K : Type ℓ} {V : Type κ} → Dict K V → List K
keys d = map (λ e. e.0) d

-- The keys in the order of their first occurrence, `k` the next one.
module _ {ℓ} {K : Type ℓ} ⦃e : Keyed K⦄ where
  unfoldable pub add_key : K → List K → List K
  add_key k [] = k ∷ []
  add_key k (j ∷ ks) = if j == k then j ∷ ks else j ∷ add_key k ks

  pub mem-add_key : (k : K) (ks : List K) {j : K} → j ∈ add_key k ks → (j ∈ ks) ⊎ (j ≡ k)
  unfolding add_key
  mem-add_key k [] (Memᴰ.head p) = inr p
  mem-add_key k [] (Memᴰ.tail m) = elim m [ ]
  mem-add_key k (i ∷ ks) {j} m = elim (Bool-cases (i == k)) [
    | inl q ↦ inl (rw q at m)
    | inr q ↦ under (rw q at m) (λ m'. mem-add_key k ks m')
  ]
    where
      under :
          j ∈ (i ∷ add_key k ks)
          → (j ∈ add_key k ks → (j ∈ ks) ⊎ (j ≡ k))
          → (j ∈ (i ∷ ks)) ⊎ (j ≡ k)
      under (Memᴰ.head p) f = inl (Memᴰ.head p)
      under (Memᴰ.tail t) f = elim (f t) [ inl l ↦ inl (Memᴰ.tail l) | inr p ↦ inr p ]

  pub add_key-mem_self : (k : K) (ks : List K) → k ∈ add_key k ks
  unfolding add_key
  add_key-mem_self k [] = Memᴰ.head refl
  add_key-mem_self k (j ∷ ks) = elim (Bool-cases (j == k)) [
    | inl q ↦ rw (q, add_key) (Memᴰ.head (sym ((e.same_iff j k).0 q)))
    | inr q ↦ rw (q, add_key) (Memᴰ.tail (add_key-mem_self k ks))
  ]

  pub add_key-mem : (k : K) (ks : List K) {j : K} → j ∈ ks → j ∈ add_key k ks
  unfolding add_key
  add_key-mem k [] m = elim m [ ]
  add_key-mem k (i ∷ ks) (Memᴰ.head p) = elim (Bool-cases (i == k)) [
    | inl q ↦ rw (q, add_key) (Memᴰ.head p)
    | inr q ↦ rw (q, add_key) (Memᴰ.head p)
  ]
  add_key-mem k (i ∷ ks) (Memᴰ.tail m) = elim (Bool-cases (i == k)) [
    | inl q ↦ rw (q, add_key) (Memᴰ.tail m)
    | inr q ↦ rw (q, add_key) (Memᴰ.tail (add_key-mem k ks m))
  ]

  pub add_key-IsDistinct : (k : K) (ks : List K) → IsDistinct ks → IsDistinct (add_key k ks)
  unfolding add_key
  add_key-IsDistinct k [] h = (λ y m. elim m [ ], tt)
  add_key-IsDistinct k (j ∷ ks) h = elim (Bool-cases (j == k)) [
    | inl q ↦ rw q h
    | inr q ↦ rw q (
      λ y m. elim (mem-add_key k ks m) [
        | inl old ↦ h.0 y old
        | inr new ↦ λ p. absurd (false≢true (sym q ∙ (e.same_iff j k).1 (sym p ∙ new)))
      ],
      add_key-IsDistinct k ks h.1,
    )
  ]

-- the different items: `set(us)`
abbrev pub distinct {ℓ} : {K : Type ℓ} ⦃e : Keyed K⦄ → List K → List K
distinct [] = []
distinct (u ∷ us) = add_key u (distinct us)

module _ {ℓ} {K : Type ℓ} ⦃e : Keyed K⦄ where
  pub distinct-IsDistinct : (us : List K) → IsDistinct (distinct us)
  distinct-IsDistinct [] = tt
  distinct-IsDistinct (u ∷ us) = add_key-IsDistinct u (distinct us) (distinct-IsDistinct us)

  pub mem-distinct : {x : K} (us : List K) → x ∈ distinct us → x ∈ us
  mem-distinct [] m = m
  mem-distinct (u ∷ us) m = elim (mem-add_key u (distinct us) m) [
    | inl old ↦ Memᴰ.tail (mem-distinct us old)
    | inr new ↦ Memᴰ.head new
  ]

  pub distinct-mem : {x : K} (us : List K) → x ∈ us → x ∈ distinct us
  distinct-mem [] m = elim m [ ]
  distinct-mem (u ∷ us) (Memᴰ.head p) =
      subst (λ z. z ∈ add_key u (distinct us)) (sym p) (add_key-mem_self u (distinct us))
  distinct-mem (u ∷ us) (Memᴰ.tail m) = add_key-mem u (distinct us) (distinct-mem us m)

-- `us == vs` for sequences
abbrev pub same_list {ℓ} : {K : Type ℓ} ⦃e : Keyed K⦄ → List K → List K → Bool
same_list [] [] = true
same_list [] (v ∷ vs) = false
same_list (u ∷ us) [] = false
same_list (u ∷ us) (v ∷ vs) = u == v && same_list us vs

module _ {ℓ} {K : Type ℓ} ⦃e : Keyed K⦄ where
  pub same_list-eq : (us vs : List K) → same_list us vs ≡ true → us ≡ vs
  same_list-eq [] [] h = refl
  same_list-eq [] (v ∷ vs) h = absurd (false≢true h)
  same_list-eq (u ∷ us) [] h = absurd (false≢true h)
  same_list-eq (u ∷ us) (v ∷ vs) h =
      ap₂ ◌∷◌ ((e.same_iff u v).0 (ground (arith, h))) (same_list-eq us vs (ground (arith, h)))

  pub same_list_refl : (us : List K) → same_list us us ≡ true
  same_list_refl [] = refl
  same_list_refl (u ∷ us) = ground (arith, ==_refl u, same_list_refl us)

-- `set(us) == set(vs)`
abbrev pub same_set {ℓ} : {K : Type ℓ} ⦃e : Keyed K⦄ → List K → List K → Bool
same_set us vs = all (λ u. any (λ v. u == v) vs) us && all (λ v. any (λ u. u == v) us) vs

module _ {ℓ κ} {K : Type ℓ} ⦃e : Keyed K⦄ {V : Type κ} where
  pub keys-put : (k : K) (v : V) (d : Dict K V) → keys (put k v d) ≡ add_key k (keys d)
  unfolding put add_key
  keys-put k v [] = refl
  keys-put k v ((j, w) ∷ d) = elim (Bool-cases (j == k)) [
    | inl q ↦ rw q (ap (λ i. i ∷ keys d) (sym ((e.same_iff j k).0 q)))
    | inr q ↦ rw q (ap (λ ks. j ∷ ks) (keys-put k v d))
  ]

  -- Where no key stands twice, an entry is what `get` finds.
  pub get_of_mem :
      (d : Dict K V) {k : K} {v : V} → IsDistinct (keys d) → (k, v) ∈ d → get k d ≡ some v
  unfolding get
  get_of_mem [] h m = elim m [ ]
  get_of_mem ((j, w) ∷ d) {k} {v} h (Memᴰ.head p) =
      let q : (j == k) ≡ true = (e.same_iff j k).1 (cc (ap (λ (x : K × V). x.0) p)) in
      rw q (cc (ap (λ (x : K × V). x.1) p))
  get_of_mem ((j, w) ∷ d) {k} {v} h (Memᴰ.tail m) = elim (Bool-cases (j == k)) [
    | inl q ↦ absurd (h.0 k (mem-map (λ (x : K × V). x.0) d m) (sym ((e.same_iff j k).0 q)))
    | inr q ↦ rw q (get_of_mem d h.1 m)
  ]
