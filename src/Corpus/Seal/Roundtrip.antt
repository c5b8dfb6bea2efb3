-- ===== src/Corpus/Seal/Roundtrip.antt =====
-- What `seal_corpus` returns passes `verify_sealed_corpus`.
use shapleymcg.Common.{
  ℕ, ◌<◌, ◌≡◌, refl, sym, subst, String, true, false, not, some, List, [], ◌∷◌, map, ltb, nat_eq,
  nat_eq_iff, length, ◌==◌, string_keys, arith, ◌∈◌, All, All-cons, Memᴰ,
}
use shapleymcg.Common.Dict.{Dict, get, keys, same_set, ==_refl}
use shapleymcg.Common.Result.{
  ok, raise_if, bind-eq-ok, raise_if-eq-ok, ok_injective, bind_ok, raise_if-false,
}
use shapleymcg.Corpus.Documents.{
  role_limits_differ, leakage, insufficient_windows, insufficient_domains, read_documents,
  body_hash_mismatch, roles_incomplete,
}
use shapleymcg.Corpus.Split.{
  Role, fit, conditional_fit, selection, confirmation, final, roles, Split, document_split,
}
use shapleymcg.Corpus.Windows.{Window}
use shapleymcg.Corpus.Seal.{
  role_name, Body, SealedCorpus, Runtime, any_meet, windows_of, domain_count, document_ids,
  limit_of, check_new_roles, role_windows, body_of, sealed, seal_windows, seal_corpus, check_tokens,
  is_nil, check_roles, seal_differs, verify_sealed_corpus,
}
use shapleymcg.Corpus.Seal.RoleWindows.{
  windows_of-All, IsHashed, keys-role_windows, role_windows-IsHashed,
}

module _ {T : Type 0} where
  -- What the tests of a new corpus found of a role.
  record IsFilled (role_limits : Dict String ℕ) (minimum_domains : ℕ)
      (windows : Dict String (List (Window T))) (role : Role) : Type 0 where
    counted : length (windows_of windows role) ≡ limit_of role_limits role
    spread : ltb (domain_count (windows_of windows role)) minimum_domains ≡ false

  check_new_roles-IsFilled :
      (role_limits : Dict String ℕ) (minimum_domains : ℕ) (windows : Dict String (List (Window T)))
      (rs : List Role)
      → check_new_roles role_limits minimum_domains windows rs ≡ ok tt
      → All (IsFilled role_limits minimum_domains windows) rs
  unfolding check_new_roles
  check_new_roles-IsFilled role_limits minimum_domains windows [] h = λ r m. absurd (elim m [ ])
  check_new_roles-IsFilled role_limits minimum_domains windows (role ∷ rest) h =
      let short = not (nat_eq (length (windows_of windows role)) (limit_of role_limits role)) in
      let narrow = ltb (domain_count (windows_of windows role)) minimum_domains in
      let (_, p, q) =
        bind-eq-ok (raise_if short (insufficient_windows (role_name role))) _ {b = tt} h in
      let (_, r, s) =
        bind-eq-ok (raise_if narrow (insufficient_domains (role_name role))) _ {b = tt} q in
      let full = raise_if-eq-ok short (insufficient_windows (role_name role)) p in
      All-cons
        (record {
          counted = ground (arith, full);
          spread = raise_if-eq-ok narrow (insufficient_domains (role_name role)) r;
        })
        (check_new_roles-IsFilled role_limits minimum_domains windows rest s)

  count_at :
      (windows : Dict String (List (Window T))) (role : Role)
      → get (role_name role) (map (λ r. (role_name r, length (windows_of windows r))) roles)
        ≡ some (length (windows_of windows role))
  unfolding get
  count_at windows fit = refl
  count_at windows conditional_fit = refl
  count_at windows selection = refl
  count_at windows confirmation = refl
  count_at windows final = refl

not_nil : {T : Type 0} (ws : List (Window T)) → 0 < length ws → is_nil ws ≡ false
not_nil [] h = absurd (omega (arith, h))
not_nil (w ∷ ws) h = refl

module _ {V T G X : Type 0} (runtime : Runtime V T G X) where
  check_tokens_ok :
      (role : Role) (windows : List (Window T))
      → All (IsHashed runtime) windows
      → check_tokens runtime role windows ≡ ok (document_ids windows)
  unfolding check_tokens
  check_tokens_ok role [] h = refl
  check_tokens_ok role (w ∷ ws) h =
      let same =
        (string_keys.same_iff (runtime.token_hash w.token_ids) w.token_sha256).1
          (h w (Memᴰ.head refl)) in
      rw (same, check_tokens_ok role ws (λ x m. h x (Memᴰ.tail m))) refl

  module _ (role_limits : Dict String ℕ) (minimum_domains : ℕ) (body : Body T X)
      (counts : (role : Role)
        → get (role_name role) body.role_counts ≡ some (length (windows_of body.windows role)))
      (hashed : All (λ e. All (IsHashed runtime) e.1) body.windows) where
    check_roles_ok :
        (rs : List Role)
        → All (IsFilled role_limits minimum_domains body.windows) rs
        → All (λ r. 0 < limit_of role_limits r) rs
        → check_roles runtime minimum_domains body rs
          ≡ ok (map (λ r. document_ids (windows_of body.windows r)) rs)
    unfolding check_roles
    check_roles_ok [] filled positive = refl
    check_roles_ok (role ∷ rest) filled positive =
        let here = filled role (Memᴰ.head refl) in
        let windows = windows_of body.windows role in
        let same : nat_eq (length windows) (length windows) ≡ true =
          (nat_eq_iff (length windows) (length windows)).1 refl in
        let some_left : is_nil windows ≡ false =
          not_nil windows (omega (arith, here.counted, positive role (Memᴰ.head refl))) in
        rw
          (
            counts role,
            same,
            some_left,
            here.spread,
            check_tokens_ok role windows
                (windows_of-All (IsHashed runtime) body.windows role hashed),
            check_roles_ok rest (λ r m. filled r (Memᴰ.tail m)) (λ r m. positive r (Memᴰ.tail m)),
          )
          refl

  module _ (encode : String → List T) (window_tokens : ℕ) (role_limits : Dict String ℕ) (seed : ℕ)
      (tokenizer source : X) (minimum_domains : ℕ) where
    -- What the tests of a new corpus let pass is verified.
    verify_ok :
        (windows : Dict String (List (Window T)))
        → keys windows ≡ map role_name roles
        → All (λ e. All (IsHashed runtime) e.1) windows
        → ((b : Body T X) → (runtime.seal_of b == "") ≡ false)
        → All (IsFilled role_limits minimum_domains windows) roles
        → All (λ r. 0 < limit_of role_limits r) roles
        → any_meet (map (λ r. document_ids (windows_of windows r)) roles) ≡ false
        → verify_sealed_corpus runtime (
            sealed runtime encode window_tokens role_limits seed (
              body_of runtime encode window_tokens role_limits seed tokenizer source minimum_domains
                windows))
          ≡ ok tt
    unfolding verify_sealed_corpus
    verify_ok windows named hashed nonempty filled positive apart =
        let b =
          body_of runtime encode window_tokens role_limits seed tokenizer source minimum_domains
            windows in
        let differs = seal_differs (some (runtime.seal_of b)) (runtime.seal_of b) in
        let sealed_so : differs ≡ false = ground (arith, nonempty b, ==_refl (runtime.seal_of b)) in
        let complete : not (same_set (keys windows) (map role_name roles)) ≡ false =
          subst (λ ks. not (same_set ks (map role_name roles)) ≡ false) (sym named) refl in
        bind_ok _ _ (raise_if-false differs body_hash_mismatch sealed_so) (
          bind_ok _ _
            (raise_if-false (not (same_set (keys windows) (map role_name roles))) roles_incomplete
              complete)
            (bind_ok (check_roles runtime minimum_domains b roles)
              (λ sets. raise_if (any_meet sets) leakage)
              (check_roles_ok role_limits minimum_domains b (count_at windows) hashed roles filled
                positive)
              (raise_if-false (any_meet (map (λ r. document_ids (windows_of windows r)) roles))
                leakage apart)))

    seal_windows_inv :
        (windows : Dict String (List (Window T))) (artifact : SealedCorpus T X)
        → seal_windows runtime encode window_tokens role_limits seed tokenizer source
            minimum_domains windows
          ≡ ok artifact
        → All (IsFilled role_limits minimum_domains windows) roles
          × (any_meet (map (λ r. document_ids (windows_of windows r)) roles) ≡ false)
          × (sealed runtime encode window_tokens role_limits seed (
                body_of runtime encode window_tokens role_limits seed tokenizer source
                  minimum_domains windows)
              ≡ artifact)
    unfolding seal_windows
    seal_windows_inv windows artifact h =
        let meeting = any_meet (map (λ r. document_ids (windows_of windows r)) roles) in
        let (u, p, q) =
          bind-eq-ok (check_new_roles role_limits minimum_domains windows roles) _ {b = artifact}
            h in
        let (_, r, s) = bind-eq-ok (raise_if meeting leakage) _ {b = artifact} q in
        (
          check_new_roles-IsFilled role_limits minimum_domains windows roles p,
          raise_if-eq-ok meeting leakage r,
          ok_injective s,
        )

    seal_corpus_inv :
        (lines : List String) (artifact : SealedCorpus T X)
        → seal_corpus runtime encode window_tokens role_limits seed lines tokenizer source
            minimum_domains
          ≡ ok artifact
        → (split : Split) × (windows : Dict String (List (Window T))) × (role_windows runtime encode
              window_tokens role_limits seed split 0 roles
            ≡ ok windows)
          × (seal_windows runtime encode window_tokens role_limits seed tokenizer source
                minimum_domains windows
              ≡ ok artifact)
    unfolding seal_corpus
    seal_corpus_inv lines artifact h =
        let wrong = not (same_set (keys role_limits) (map role_name roles)) in
        let (_, _, p) = bind-eq-ok (raise_if wrong role_limits_differ) _ {b = artifact} h in
        let (documents, _, q) =
          bind-eq-ok (read_documents runtime.loads runtime.str runtime.is_blank lines) _
            {b = artifact} p in
        let split = document_split runtime.sha256 (runtime.show_seed seed) documents in
        let (windows, r, s) =
          bind-eq-ok (role_windows runtime encode window_tokens role_limits seed split 0 roles) _
            {b = artifact} q in
        (split, windows, r, s)

    -- Where `shuffle` adds no window and no seal is the empty text: what `seal_corpus` returns, with a positive
    -- limit for every role, passes `verify_sealed_corpus`.
    pub verify_sealed_corpus-seal_corpus :
        (lines : List String) (artifact : SealedCorpus T X)
        → ((g : G) (ws : List (Window T)) → All (λ w. w ∈ ws) (runtime.shuffle g ws).1)
        → ((b : Body T X) → (runtime.seal_of b == "") ≡ false)
        → All (λ r. 0 < limit_of role_limits r) roles
        → seal_corpus runtime encode window_tokens role_limits seed lines tokenizer source
            minimum_domains
          ≡ ok artifact
        → verify_sealed_corpus runtime artifact ≡ ok tt
    verify_sealed_corpus-seal_corpus lines artifact keeps nonempty positive h =
        let (split, windows, made, rest) = seal_corpus_inv lines artifact h in
        let (filled, apart, same) = seal_windows_inv windows artifact rest in
        let named =
          keys-role_windows runtime encode window_tokens role_limits seed split 0 roles windows
            made in
        let hashed =
          role_windows-IsHashed runtime encode window_tokens role_limits seed keeps split 0 roles
            windows made in
        subst (λ a. verify_sealed_corpus runtime a ≡ ok tt) same
          (verify_ok windows named hashed nonempty filled positive apart)
