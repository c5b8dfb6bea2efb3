-- ===== src/Corpus/Windows/Origin.antt =====
-- Every window that `build_windows` returns was cut from one of the documents.
use shapleymcg.Common.{
  ℕ, zero, suc, ◌+◌, ◌-◌, ◌≡◌, refl, subst, String, Bool, true, false, Option, some, List, [], ◌∷◌,
  ◌++◌, ltb, nat_eq, length, take, drop, Bool-cases, Option-cases, inl, inr, ◌∈◌, All, All-cons,
  All-append, Memᴰ, string_keys,
}
use shapleymcg.Common.Dict.{get, get-mem, put-All}
use shapleymcg.Common.Result.{ok, raise_if, bind-eq-ok, ok_injective}
use shapleymcg.Common.Sort.{sorted, mem-sorted}
use shapleymcg.Common.Sums.{file_under}
use shapleymcg.Corpus.Documents.{Document, zero_step}
use shapleymcg.Corpus.Windows.{
  Window, Pools, pop, range, domain_lt, window_at, cut, cut_all, shuffle_all, one_pass, passes,
  build_windows,
}

nothing {ℓ κ} : {A : Type ℓ} (P : A → Type κ) → All P []
nothing P x m = absurd (elim m [ ])

module _ {ℓ κ} {A : Type ℓ} (P : A → Type κ) where
  pop-All : (xs : List A) {ys : List A} {y : A} → pop xs ≡ some (ys, y) → All P xs → All P ys × P y
  pop-All [] h all = cc
  pop-All (x ∷ xs) {ys} {y} h all = elim (Option-cases (pop xs)) [
    | inl e ↦
        let same : ◌≡◌ {A = Option (List A × A)} (some ([], x)) (some (ys, y)) = rw (e, pop) at h in
        let none_left : [] ≡ ys = cc same in
        let last : x ≡ y = cc same in
        (subst (All P) none_left (nothing P), subst P last (all x (Memᴰ.head refl)))
    | inr ((zs, z), e) ↦
        let same : ◌≡◌ {A = Option (List A × A)} (some (x ∷ zs, z)) (some (ys, y)) =
          rw (e, pop) at h in
        let more : (x ∷ zs) ≡ ys = cc same in
        let last : z ≡ y = cc same in
        let (some_left, popped) = pop-All xs e (λ w m. all w (Memᴰ.tail m)) in
        (subst (All P) more (All-cons (all x (Memᴰ.head refl)) some_left), subst P last popped)
  ]

module _ {T : Type 0} (P : Window T → Type 0) where
  -- Every window of the pools satisfies the predicate.
  abbrev IsPooled : Pools T → Type 0
  IsPooled pools = All (λ (e : String × List (Window T)). All P e.1) pools

  file_under-IsPooled :
      (domain : String) (window : Window T) (pools : Pools T)
      → IsPooled pools
      → P window
      → IsPooled (file_under domain window pools)
  unfolding file_under
  file_under-IsPooled domain window pools h p = elim (Option-cases (get domain pools)) [
    | inl e ↦ rw (e, file_under) (put-All domain (window ∷ []) pools h (All-cons p (nothing P)))
    | inr (ws, e) ↦
        rw (e, file_under)
          (put-All domain (ws ++ window ∷ []) pools h (
            All-append ws (window ∷ []) (h (domain, ws) (get-mem domain pools e))
              (All-cons p (nothing P))))
  ]

  one_pass-IsPooled :
      (limit : ℕ) (pools : Pools T) (selected : List (Window T)) (advanced : Bool)
      → IsPooled pools
      → All P selected
      → IsPooled (one_pass limit pools selected advanced).pools
        × All P (one_pass limit pools selected advanced).selected
  unfolding one_pass
  one_pass-IsPooled limit [] selected advanced h k = (h, k)
  one_pass-IsPooled limit ((domain, windows) ∷ pools) selected advanced h k =
      let here : All P windows = h (domain, windows) (Memᴰ.head refl) in
      let there : IsPooled pools = λ e m. h e (Memᴰ.tail m) in
      elim (Option-cases (pop windows)) [
        | inl e ↦
            let rest = one_pass-IsPooled limit pools selected advanced there k in
            rw (e, one_pass) (All-cons here rest.0, rest.1)
        | inr ((left, window), e) ↦
            let (kept, popped) = pop-All P windows e here in
            let more : All P (selected ++ window ∷ []) =
              All-append selected (window ∷ []) k (All-cons popped (nothing P)) in
            elim (Bool-cases (nat_eq (length (selected ++ window ∷ [])) limit)) [
              | inl full ↦ rw (e, full, one_pass) (All-cons kept there, more)
              | inr room ↦
                  let rest =
                    one_pass-IsPooled limit pools (selected ++ window ∷ []) true there more in
                  rw (e, room, one_pass) (All-cons kept rest.0, rest.1)
            ]
      ]

  passes-All :
      (fuel limit : ℕ) (pools : Pools T) (selected : List (Window T))
      → IsPooled pools
      → All P selected
      → All P (passes fuel limit pools selected)
  unfolding passes
  passes-All zero limit pools selected h k = k
  passes-All (suc fuel) limit pools selected h k =
      let pass = one_pass limit pools selected false in
      let (left, taken) = one_pass-IsPooled limit pools selected false h k in
      elim (Bool-cases (ltb (length selected) limit)) [
        | inr e ↦ rw (e, passes) k
        | inl e ↦ elim (Bool-cases pass.advanced) [
          | inl q ↦ rw (e, q, passes) (passes-All fuel limit pass.pools pass.selected left taken)
          | inr q ↦ rw (e, q, passes) taken
        ]
      ]

  shuffle_all-IsPooled :
      {G : Type 0} (shuffle : G → List (Window T) → G × List (Window T)) (g : G) (pools : Pools T)
      → ((k : G) (ws : List (Window T)) → All (λ w. w ∈ ws) (shuffle k ws).1)
      → IsPooled pools
      → IsPooled (shuffle_all shuffle g pools)
  unfolding shuffle_all
  shuffle_all-IsPooled shuffle g [] keeps h = h
  shuffle_all-IsPooled shuffle g ((domain, windows) ∷ pools) keeps h =
      All-cons (λ w m. h (domain, windows) (Memᴰ.head refl) w (keeps g windows w m))
        (shuffle_all-IsPooled shuffle (shuffle g windows).0 pools keeps (λ e m. h e (Memᴰ.tail m)))

  module _ (encode : String → List T) (token_hash : List T → String) (window_tokens : ℕ) where
    cut-IsPooled :
        (document : Document) (tokens : List T) (offsets : List ℕ) (pools : Pools T)
        → ((offset : ℕ) → P (window_at encode token_hash window_tokens document tokens offset))
        → IsPooled pools
        → IsPooled (cut encode token_hash window_tokens document tokens offsets pools)
    unfolding cut
    cut-IsPooled document tokens [] pools p h = h
    cut-IsPooled document tokens (offset ∷ offsets) pools p h =
        let window = window_at encode token_hash window_tokens document tokens offset in
        elim (Bool-cases
          (nat_eq (length (take window_tokens (drop offset tokens))) window_tokens)) [
            | inl full ↦
                rw (full, cut)
                  (cut-IsPooled document tokens offsets (file_under document.domain window pools) p
                    (file_under-IsPooled document.domain window pools h (p offset)))
            | inr short ↦ rw (short, cut) (cut-IsPooled document tokens offsets pools p h)
          ]

    cut_all-IsPooled :
        (documents : List Document) (pools cut_pools : Pools T)
        → All
            (λ d.
              (offset : ℕ) → P (window_at encode token_hash window_tokens d (encode d.text) offset))
            documents
        → IsPooled pools
        → cut_all encode token_hash window_tokens documents pools ≡ ok cut_pools
        → IsPooled cut_pools
    unfolding cut_all
    cut_all-IsPooled [] pools cut_pools p h e = subst IsPooled (ok_injective e) h
    cut_all-IsPooled (document ∷ documents) pools cut_pools p h e =
        let tokens = encode document.text in
        let offsets = range (length tokens + 1 - window_tokens) window_tokens in
        let next = cut encode token_hash window_tokens document tokens offsets pools in
        let (_, _, rest) =
          bind-eq-ok (raise_if (nat_eq window_tokens 0) zero_step)
            (λ _. cut_all encode token_hash window_tokens documents next) {b = cut_pools} e in
        cut_all-IsPooled documents next cut_pools (λ d m. p d (Memᴰ.tail m))
          (cut-IsPooled document tokens offsets pools (p document (Memᴰ.head refl)) h) rest

    -- What holds of every window that can be cut from the documents holds of those that are returned.
    pub build_windows-All :
        {G : Type 0} (shuffle : G → List (Window T) → G × List (Window T))
        (documents : List Document) (limit : ℕ) (generator : G) (windows : List (Window T))
        → ((k : G) (ws : List (Window T)) → All (λ w. w ∈ ws) (shuffle k ws).1)
        → All
            (λ d.
              (offset : ℕ) → P (window_at encode token_hash window_tokens d (encode d.text) offset))
            documents
        → build_windows encode token_hash shuffle documents window_tokens limit generator
          ≡ ok windows
        → All P windows
    unfolding build_windows
    build_windows-All shuffle documents limit generator windows keeps p e =
        let (pools, made, done) =
          bind-eq-ok (cut_all encode token_hash window_tokens documents []) _ {b = windows} e in
        let pooled = cut_all-IsPooled documents [] pools p (λ x m. absurd (elim m [ ])) made in
        let shuffled = shuffle_all-IsPooled shuffle generator pools keeps pooled in
        subst (All P) (ok_injective done) (
          passes-All limit limit (sorted domain_lt (shuffle_all shuffle generator pools)) []
            (λ x m. shuffled x (mem-sorted domain_lt (shuffle_all shuffle generator pools) m))
            (nothing P))
