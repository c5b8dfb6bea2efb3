-- ===== src/Corpus/Windows/Total.antt =====
-- `build_windows` returns as many windows as the limit asks for, or every full window of the documents.
use native.Mathlib.Nat.{div-eq_of_lt, div-eq-sub-div}
use shapleymcg.Common.{
  ℕ, zero, suc, min, ◌+◌, ◌-◌, ◌/◌, ◌≤◌, ◌<◌, ◌≡◌, refl, sym, ap, ◌∙◌, String, false, List, [], ◌∷◌,
  arith, ltb, ltb→lt, ltb→le, nat_eq, nat_eq_iff, All, All-cons, Memᴰ, length, take, drop,
  Bool-cases, inl, inr, string_keys,
}
use shapleymcg.Common.Result.{ok}
use shapleymcg.Common.Sort.{sorted}
use shapleymcg.Common.Sums.{sum_of, sum_of-sorted, total_of, total_of-file_under, file_under}
use shapleymcg.Corpus.Documents.{Document}
use shapleymcg.Corpus.Windows.{
  Window, Pools, range_from, range, domain_lt, window_at, cut, cut_all, shuffle_all, passes,
  build_windows,
}
use shapleymcg.Corpus.Windows.Count.{left_in, passes-length}

-- The number of offsets from `start` on at which a full window begins.
range_from-length :
    (fuel start total w : ℕ)
    → 0 < w
    → start ≤ total
    → total + 1 ≤ start + w + fuel
    → length (range_from fuel start (total + 1 - w) w) ≡ (total - start) / w
range_from-length zero start total w p h k = sym (div-eq_of_lt (omega (arith, p, h, k)))
range_from-length (suc fuel) start total w p h k = elim (Bool-cases (ltb start (total + 1 - w))) [
  | inr e ↦
      rw (e, range_from)
        (sym (div-eq_of_lt (omega (arith, p, h, k, ltb→le start (total + 1 - w) e))))
  | inl e ↦
      let room : start + w ≤ total = omega (arith, p, ltb→lt start (total + 1 - w) e) in
      let rest = range_from-length fuel (start + w) total w p room (omega (arith, p, k)) in
      let before : total - start - w ≡ total - (start + w) = omega arith in
      rw (e, range_from)
        (ap suc (rest ∙ ap (λ a. a / w) (sym before))
          ∙ sym (div-eq-sub-div p (omega (arith, room)) ∙ omega arith))
]

module _ {ℓ} {A : Type ℓ} where
  take-length : (n : ℕ) (xs : List A) → n ≤ length xs → length (take n xs) ≡ n
  take-length zero xs h = refl
  take-length (suc n) [] h = absurd (omega (arith, h))
  take-length (suc n) (x ∷ xs) h = ap suc (take-length n xs (omega (arith, h)))

  drop-length : (n : ℕ) (xs : List A) → length (drop n xs) ≡ length xs - n
  drop-length zero xs = omega arith
  drop-length (suc n) [] = omega arith
  drop-length (suc n) (x ∷ xs) = drop-length n xs ∙ omega arith

-- The offsets all leave room for a window.
range_from-room :
    (fuel start total w : ℕ) → All (λ o. o + w ≤ total) (range_from fuel start (total + 1 - w) w)
range_from-room zero start total w o m = elim m [ ]
range_from-room (suc fuel) start total w o m = elim (Bool-cases (ltb start (total + 1 - w))) [
  | inr e ↦ elim (rw (e, range_from) at m) [ ]
  | inl e ↦
      All-cons {P = λ z. z + w ≤ total} (omega (arith, ltb→lt start (total + 1 - w) e))
        (range_from-room fuel (start + w) total w) o (rw (e, range_from) at m)
]

length-eq-sum_of {ℓ} : {A : Type ℓ} (xs : List A) → length xs ≡ sum_of (λ _. 1) xs
unfolding sum_of
length-eq-sum_of [] = refl
length-eq-sum_of (x ∷ xs) = omega (arith, length-eq-sum_of xs)

module _ {T : Type 0} where
  left_in-eq-total_of : (pools : Pools T) → left_in pools ≡ total_of (λ _. 1) pools
  unfolding sum_of
  left_in-eq-total_of [] = refl
  left_in-eq-total_of ((domain, windows) ∷ pools) =
      omega (arith, length-eq-sum_of windows, left_in-eq-total_of pools)

  left_in-file_under :
      (domain : String) (window : Window T) (pools : Pools T)
      → left_in (file_under domain window pools) ≡ suc (left_in pools)
  left_in-file_under domain window pools = omega (
    arith,
    left_in-eq-total_of (file_under domain window pools),
    left_in-eq-total_of pools,
    total_of-file_under (λ (_ : Window T). 1) domain window pools,
  )

  shuffle_all-left :
      {G : Type 0} (shuffle : G → List (Window T) → G × List (Window T)) (g : G) (pools : Pools T)
      → ((k : G) (ws : List (Window T)) → length (shuffle k ws).1 ≡ length ws)
      → left_in (shuffle_all shuffle g pools) ≡ left_in pools
  unfolding shuffle_all sum_of
  shuffle_all-left shuffle g [] keeps = refl
  shuffle_all-left shuffle g ((domain, windows) ∷ pools) keeps =
      omega (arith, keeps g windows, shuffle_all-left shuffle (shuffle g windows).0 pools keeps)

  module _ (encode : String → List T) (token_hash : List T → String) (window_tokens : ℕ) where
    cut-left :
        (document : Document) (tokens : List T) (offsets : List ℕ) (pools : Pools T)
        → All (λ o. o + window_tokens ≤ length tokens) offsets
        → left_in (cut encode token_hash window_tokens document tokens offsets pools)
          ≡ length offsets + left_in pools
    unfolding cut
    cut-left document tokens [] pools h = omega arith
    cut-left document tokens (offset ∷ offsets) pools h =
        let room = h offset (Memᴰ.head refl) in
        let full : length (take window_tokens (drop offset tokens)) ≡ window_tokens =
          take-length window_tokens (drop offset tokens)
            (omega (arith, room, drop-length offset tokens)) in
        let taken =
          (nat_eq_iff (length (take window_tokens (drop offset tokens))) window_tokens).1 full in
        rw (taken, cut)
          (cut-left document tokens offsets
              (file_under document.domain
                (window_at encode token_hash window_tokens document tokens offset) pools)
              (λ o m. h o (Memᴰ.tail m))
            ∙ omega (
              arith,
              left_in-file_under document.domain
                  (window_at encode token_hash window_tokens document tokens offset) pools,
            ))

    -- The number of full windows of the documents.
    abbrev pub full_windows : List Document → ℕ
    full_windows documents =
        sum_of (λ (d : Document). length (encode d.text) / window_tokens) documents

    cut_all-left :
        (documents : List Document) (pools : Pools T)
        → 0 < window_tokens
        → (cut_pools : Pools T) × (cut_all encode token_hash window_tokens documents pools
            ≡ ok cut_pools)
          × (left_in cut_pools ≡ full_windows documents + left_in pools)
    unfolding cut_all sum_of
    cut_all-left [] pools p = (pools, refl, omega arith)
    cut_all-left (document ∷ documents) pools p =
        let tokens = encode document.text in
        let offsets = range (length tokens + 1 - window_tokens) window_tokens in
        let next = cut encode token_hash window_tokens document tokens offsets pools in
        let (cut_pools, e, count) = cut_all-left documents next p in
        let from_zero : length tokens - 0 ≡ length tokens = omega arith in
        let offset_count : length offsets ≡ length tokens / window_tokens =
          range_from-length (length tokens + 1 - window_tokens) 0 (length tokens) window_tokens p
            (omega arith) (omega (arith, p))
          ∙ ap (λ a. a / window_tokens) from_zero in
        let positive : nat_eq window_tokens 0 ≡ false = ground (arith, p) in
        (
          cut_pools,
          rw positive e,
          count
              ∙ omega (
                arith,
                cut-left document tokens offsets pools (
                    range_from-room (length tokens + 1 - window_tokens) 0 (length tokens)
                      window_tokens),
                offset_count,
              ),
        )

    -- For windows of a positive number of tokens, and a shuffle that keeps the number of windows,
    -- `build_windows` returns as many windows as the limit, or as the documents have full windows where those
    -- are fewer.
    pub build_windows-length :
        {G : Type 0} (shuffle : G → List (Window T) → G × List (Window T))
        (documents : List Document) (limit : ℕ) (generator : G)
        → ((g : G) (ws : List (Window T)) → length (shuffle g ws).1 ≡ length ws)
        → 0 < window_tokens
        → (windows : List (Window T)) × (build_windows encode token_hash shuffle documents
              window_tokens limit generator
            ≡ ok windows)
          × (length windows ≡ min limit (full_windows documents))
    unfolding build_windows sum_of
    build_windows-length shuffle documents limit generator keeps p =
        let (pools, e, count) = cut_all-left documents [] p in
        let shuffled = shuffle_all shuffle generator pools in
        let sort =
          sum_of-sorted (λ (x : String × List (Window T)). length x.1) domain_lt shuffled in
        (
          passes limit limit (sorted domain_lt shuffled) [],
          rw e,
          passes-length limit limit (sorted domain_lt shuffled) [] (omega arith) (omega arith)
              ∙ ap (min limit)
                  (omega (arith, sort, shuffle_all-left shuffle generator pools keeps, count)),
        )
