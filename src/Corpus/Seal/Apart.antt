-- ===== src/Corpus/Seal/Apart.antt =====
-- The leakage test of `seal_corpus` never raises: the roles' windows are of different documents.
use shapleymcg.Common.{
  ℕ, suc, ◌+◌, ◌≡◌, ◌≢◌, refl, sym, ap, ◌∙◌, subst, String, false, Option, none, some, List, [],
  ◌∷◌, map, any, ◌==◌, string_keys, arith, ◌∈◌, All, All-cons, Some, mem_of_map, false-any,
  any-false, Option-cases, inl, inr,
}
use shapleymcg.Common.Dict.{Dict, get, get-mem, IsDistinct}
use shapleymcg.Common.Result.{ok, ok_injective}
use shapleymcg.Corpus.Documents.{Document, read_documents}
use shapleymcg.Corpus.Split.{
  Role, fit, conditional_fit, selection, confirmation, final, roles, Split, same_role,
  document_split,
}
use shapleymcg.Corpus.Split.Partition.{document_split_no_leak, not_same, same_role-ne}
use shapleymcg.Corpus.Windows.{Window}
use shapleymcg.Corpus.Windows.Origin.{build_windows-All}
use shapleymcg.Corpus.Seal.{
  role_name, Runtime, meet, any_meet, windows_of, document_ids, role_windows, limit_of,
}
use shapleymcg.Corpus.Seal.RoleWindows.{role_step}

-- the role of a name
abbrev named_role : Option Role → Role
named_role none = fit
named_role (some r) = r

role_of_name : (r : Role) → named_role (get (role_name r) (map (λ q. (role_name q, q)) roles)) ≡ r
unfolding get
role_of_name fit = refl
role_of_name conditional_fit = refl
role_of_name selection = refl
role_of_name confirmation = refl
role_of_name final = refl

role_name_injective : (r q : Role) → role_name r ≡ role_name q → r ≡ q
role_name_injective r q e =
    sym (role_of_name r)
    ∙ ap (λ n. named_role (get n (map (λ z. (role_name z, z)) roles))) e
    ∙ role_of_name q

meet-false : (us vs : List String) → ((u v : String) → u ∈ us → v ∈ vs → u ≢ v) → meet us vs ≡ false
meet-false us vs apart =
    false-any (λ u. any (λ v. u == v) vs) us
      (λ u m. false-any (λ v. u == v) vs (λ v k. not_same u v (apart u v m k)))

any_meet-false :
    (ids : Role → List String) (rs : List Role)
    → IsDistinct rs
    → ((r q : Role) → r ≢ q → meet (ids r) (ids q) ≡ false)
    → any_meet (map ids rs) ≡ false
any_meet-false ids [] h apart = refl
any_meet-false ids (r ∷ rs) (other, h) apart =
    let first = false-any (meet (ids r)) (map ids rs) (λ us m.
      let (q, k, e) = mem_of_map ids rs m in
      subst (λ z. meet (ids r) z ≡ false) e (apart r q (λ p. other q k (sym p)))) in
    ground (arith, first, any_meet-false ids rs h apart)

not_among : (r : Role) (rs : List Role) → any (same_role r) rs ≡ false → All (λ q. q ≢ r) rs
not_among r rs h q m e = same_role-ne r q (any-false (same_role r) rs h q m) (sym e)

roles-IsDistinct : IsDistinct roles
roles-IsDistinct = (
  not_among fit (conditional_fit ∷ selection ∷ confirmation ∷ final ∷ []) refl,
  (
    not_among conditional_fit (selection ∷ confirmation ∷ final ∷ []) refl,
    (
      not_among selection (confirmation ∷ final ∷ []) refl,
      (not_among confirmation (final ∷ []) refl, (not_among final [] refl, tt)),
    ),
  ),
)

module _ {V T G X : Type 0} (runtime : Runtime V T G X) (encode : String → List T)
    (window_tokens : ℕ) (role_limits : Dict String ℕ) (seed : ℕ)
    (keeps : (g : G) (ws : List (Window T)) → All (λ w. w ∈ ws) (runtime.shuffle g ws).1) where
  -- The window was cut from a document of the role.
  abbrev IsOf : Split → Role → Window T → Type 0
  IsOf split r w = Some (λ d. d.id ≡ w.document_id) (split r)

  role_windows-IsOf :
      (split : Split) (index : ℕ) (rs : List Role) (windows : Dict String (List (Window T)))
      → role_windows runtime encode window_tokens role_limits seed split index rs ≡ ok windows
      → All (λ e. (r : Role) → role_name r ≡ e.0 → All (IsOf split r) e.1) windows
  role_windows-IsOf split index [] windows h =
      let empty : [] ≡ windows = unfold role_windows in ok_injective h in
      subst (λ ws. All (λ e. (r : Role) → role_name r ≡ e.0 → All (IsOf split r) e.1) ws) empty
        (λ e m. absurd (elim m [ ]))
  role_windows-IsOf split index (role ∷ rest) windows h =
      let (ws, others, p, r, s) =
        role_step runtime encode window_tokens role_limits seed split index role rest windows h in
      let cut : All (IsOf split role) ws =
        build_windows-All (IsOf split role) encode runtime.token_hash window_tokens runtime.shuffle
          (split role) (limit_of role_limits role) (runtime.random (seed + index)) ws keeps
          (λ d m offset. (d, m, refl)) p in
      subst (λ es. All (λ e. (q : Role) → role_name q ≡ e.0 → All (IsOf split q) e.1) es) (sym s)
        (All-cons
          {P = λ (e : String × List (Window T)).
            (q : Role) → role_name q ≡ e.0 → All (IsOf split q) e.1}
          (λ q e. subst (λ z. All (IsOf split z) ws) (sym (role_name_injective q role e)) cut)
          (role_windows-IsOf split (suc index) rest others r))

  windows_of-IsOf :
      (split : Split) (windows : Dict String (List (Window T))) (role : Role)
      → All (λ e. (r : Role) → role_name r ≡ e.0 → All (IsOf split r) e.1) windows
      → All (IsOf split role) (windows_of windows role)
  windows_of-IsOf split windows role h = elim (Option-cases (get (role_name role) windows)) [
    | inl e ↦ unfold windows_of in rw (e, windows_of) (λ w m. absurd (elim m [ ]))
    | inr (ws, e) ↦
        unfold windows_of in
        rw (e, windows_of) (h (role_name role, ws) (get-mem (role_name role) windows e) role refl)
  ]

  -- Where `shuffle` adds no window: of the documents that `read_documents` returns, the windows that
  -- `seal_corpus` builds for the roles of `document_split` are of different documents in different roles, so
  -- that its test for leakage does not raise.
  pub seal_corpus_apart :
      (lines : List String) (documents : List Document) (windows : Dict String (List (Window T)))
      → read_documents runtime.loads runtime.str runtime.is_blank lines ≡ ok documents
      → role_windows runtime encode window_tokens role_limits seed
          (document_split runtime.sha256 (runtime.show_seed seed) documents)
          0
          roles
        ≡ ok windows
      → any_meet (map (λ r. document_ids (windows_of windows r)) roles) ≡ false
  seal_corpus_apart lines documents windows read made =
      let split = document_split runtime.sha256 (runtime.show_seed seed) documents in
      let origin = role_windows-IsOf split 0 roles windows made in
      any_meet-false (λ r. document_ids (windows_of windows r)) roles roles-IsDistinct
        (λ r q ne.
          meet-false (document_ids (windows_of windows r)) (document_ids (windows_of windows q))
            (λ u v mu mv same.
              let (w, mw, wu) =
                mem_of_map (λ (x : Window T). x.document_id) (windows_of windows r) mu in
              let (z, mz, zv) =
                mem_of_map (λ (x : Window T). x.document_id) (windows_of windows q) mv in
              let (d, md, dw) = windows_of-IsOf split windows r origin w mw in
              let (e, me, ez) = windows_of-IsOf split windows q origin z mz in
              ne (
                document_split_no_leak runtime.loads runtime.str runtime.is_blank runtime.sha256
                  (runtime.show_seed seed) lines documents r q d e read md me
                  (dw ∙ wu ∙ same ∙ sym zv ∙ sym ez))))
