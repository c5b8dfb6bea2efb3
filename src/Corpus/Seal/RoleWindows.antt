-- ===== src/Corpus/Seal/RoleWindows.antt =====
-- The windows of the roles of a new corpus: their keys are the roles' names, and each carries the hash of
-- its tokens.
use shapleymcg.Common.{
  ℕ, suc, ◌+◌, ◌≡◌, refl, sym, ap, ◌∙◌, subst, String, List, [], ◌∷◌, map, string_keys,
  Option-cases, inl, inr, ◌∈◌, All, All-cons,
}
use shapleymcg.Common.Dict.{Dict, get, keys, get-mem}
use shapleymcg.Common.Result.{ok, bind-eq-ok, ok_injective}
use shapleymcg.Corpus.Split.{Role, Split}
use shapleymcg.Corpus.Windows.{Window, build_windows}
use shapleymcg.Corpus.Windows.Origin.{build_windows-All}
use shapleymcg.Corpus.Seal.{role_name, Runtime, windows_of, limit_of, role_windows}

module _ {T : Type 0} where
  pub windows_of-All :
      (P : Window T → Type 0) (windows : Dict String (List (Window T))) (role : Role)
      → All (λ e. All P e.1) windows
      → All P (windows_of windows role)
  windows_of-All P windows role h = elim (Option-cases (get (role_name role) windows)) [
    | inl e ↦ unfold windows_of in rw (e, windows_of) (λ w m. absurd (elim m [ ]))
    | inr (ws, e) ↦
        unfold windows_of in
        rw (e, windows_of) (h (role_name role, ws) (get-mem (role_name role) windows e))
  ]

module _ {V T G X : Type 0} (runtime : Runtime V T G X) where
  -- The window carries the hash of its tokens.
  abbrev pub IsHashed : Window T → Type 0
  IsHashed w = runtime.token_hash w.token_ids ≡ w.token_sha256

  module _ (encode : String → List T) (window_tokens : ℕ) (role_limits : Dict String ℕ)
      (seed : ℕ) where
    pub role_step :
        (split : Split) (index : ℕ) (role : Role) (rest : List Role)
        (windows : Dict String (List (Window T)))
        → role_windows runtime encode window_tokens role_limits seed split index (role ∷ rest)
          ≡ ok windows
        → (ws : List (Window T)) × (others : Dict String (List (Window T))) × (build_windows encode
              runtime.token_hash runtime.shuffle
              (split role)
              window_tokens
              (limit_of role_limits role)
              (runtime.random (seed + index))
            ≡ ok ws)
          × (role_windows runtime encode window_tokens role_limits seed split (suc index) rest
              ≡ ok others)
          × (windows ≡ (role_name role, ws) ∷ others)
    unfolding role_windows
    role_step split index role rest windows h =
        let (ws, p, q) =
          bind-eq-ok
            (build_windows encode runtime.token_hash runtime.shuffle (split role) window_tokens
              (limit_of role_limits role) (runtime.random (seed + index)))
            _ {b = windows} h in
        let (others, r, s) =
          bind-eq-ok
            (role_windows runtime encode window_tokens role_limits seed split (suc index) rest) _
            {b = windows} q in
        (ws, others, p, r, sym (ok_injective s))

    pub keys-role_windows :
        (split : Split) (index : ℕ) (rs : List Role) (windows : Dict String (List (Window T)))
        → role_windows runtime encode window_tokens role_limits seed split index rs ≡ ok windows
        → keys windows ≡ map role_name rs
    keys-role_windows split index [] windows h =
        let empty : [] ≡ windows = unfold role_windows in ok_injective h in ap keys (sym empty)
    keys-role_windows split index (role ∷ rest) windows h =
        let (ws, others, _, r, s) = role_step split index role rest windows h in
        ap keys s
        ∙ ap (λ ks. role_name role ∷ ks) (keys-role_windows split (suc index) rest others r)

    module _
        (keeps : (g : G) (ws : List (Window T)) → All (λ w. w ∈ ws) (runtime.shuffle g ws).1) where
      pub role_windows-IsHashed :
          (split : Split) (index : ℕ) (rs : List Role) (windows : Dict String (List (Window T)))
          → role_windows runtime encode window_tokens role_limits seed split index rs ≡ ok windows
          → All (λ e. All IsHashed e.1) windows
      role_windows-IsHashed split index [] windows h =
          let empty : [] ≡ windows = unfold role_windows in ok_injective h in
          subst (λ ws. All (λ e. All IsHashed e.1) ws) empty (λ e m. absurd (elim m [ ]))
      role_windows-IsHashed split index (role ∷ rest) windows h =
          let (ws, others, p, r, s) = role_step split index role rest windows h in
          subst (λ es. All (λ e. All IsHashed e.1) es) (sym s)
            (All-cons {P = λ (e : String × List (Window T)). All IsHashed e.1}
              (build_windows-All IsHashed encode runtime.token_hash window_tokens runtime.shuffle
                (split role) (limit_of role_limits role) (runtime.random (seed + index)) ws keeps
                (λ d m offset. refl) p)
              (role_windows-IsHashed split (suc index) rest others r))
