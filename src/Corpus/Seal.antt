-- ===== src/Corpus/Seal.antt =====
-- `seal_corpus` and `verify_sealed_corpus`. What they call of other packages is the record `Runtime`. Reading
-- the file into lines and writing the artifact are left out.
pub mod RoleWindows
pub mod Roundtrip
pub mod Apart
use shapleymcg.Common.{
  ℕ, suc, ◌+◌, String, Bool, true, false, not, ◌&&◌, ◌||◌, Option, none, some, List, [], ◌∷◌, map,
  any, all, ltb, nat_eq, length, ◌==◌, string_keys,
}
use shapleymcg.Common.Dict.{distinct, Dict, get, keys, add_key, same_set}
use shapleymcg.Common.Result.{Result, ok, ◌>>=◌, ◌>>◌, raise_if}
use shapleymcg.Corpus.Documents.{
  Document, CorpusError, role_limits_differ, leakage, insufficient_windows, insufficient_domains,
  body_hash_mismatch, unsupported_schema, roles_incomplete, count_mismatch, domain_mismatch,
  token_hash_mismatch, read_documents,
}
use shapleymcg.Corpus.Split.{
  Role, fit, conditional_fit, selection, confirmation, final, roles, Split, document_split,
}
use shapleymcg.Corpus.Windows.{Window, build_windows}

abbrev pub role_name : Role → String
role_name fit = "fit"
role_name conditional_fit = "conditional_fit"
role_name selection = "selection"
role_name confirmation = "confirmation"
role_name final = "final"

-- `LEGACY_ROLES`
abbrev pub legacy_roles : List Role
legacy_roles = fit ∷ selection ∷ confirmation ∷ final ∷ []

-- The artifact without its seal. An absent `minimum_domains` is `none`.
pub record Body (T X : Type 0) : Type 0 where
  pub schema : String
  pub seed : ℕ
  pub window_tokens : ℕ
  pub minimum_domains : Option ℕ
  pub tokenizer : X
  pub source : X
  pub role_counts : Dict String ℕ
  pub windows : Dict String (List (Window T))

pub record SealedCorpus (T X : Type 0) : Type 0 where
  pub body : Body T X
  pub seal_sha256 : Option String

-- What the module calls: `json.loads`, `str`, the test that a line is blank, SHA-256 of a text, the printed
-- seed, `random.Random`, its `shuffle`, and the hashes of the canonical JSON of tokens and of a body.
pub record Runtime (V T G X : Type 0) : Type 0 where
  pub loads : String → Dict String V
  pub str : V → String
  pub is_blank : String → Bool
  pub sha256 : String → String
  pub show_seed : ℕ → String
  pub random : ℕ → G
  pub shuffle : G → List (Window T) → G × List (Window T)
  pub token_hash : List T → String
  pub seal_of : Body T X → String

abbrev pub schema_v1 : String
schema_v1 = "quant-pipeline.sealed-corpus.v1"

abbrev pub schema_v2 : String
schema_v2 = "quant-pipeline.sealed-corpus.v2"

-- `set(us) & set(vs)` is not empty
abbrev pub meet : List String → List String → Bool
meet us vs = any (λ u. any (λ v. u == v) vs) us

-- `any(ids[i] & ids[j] for i in ... for j in range(i + 1, ...))`
abbrev pub any_meet : List (List String) → Bool
any_meet [] = false
any_meet (us ∷ rest) = any (meet us) rest || any_meet rest

-- `role_limits[role]`
unfoldable pub limit_of : Dict String ℕ → Role → ℕ
limit_of role_limits role = elim (get (role_name role) role_limits) [ none ↦ 0 | some n ↦ n ]

-- `int(role_counts.get(role, -1)) != len(windows)`
abbrev pub count_differs : Option ℕ → ℕ → Bool
count_differs none n = true
count_differs (some count) n = not (nat_eq count n)

abbrev pub is_nil : {T : Type 0} → List (Window T) → Bool
is_nil [] = true
is_nil (w ∷ ws) = false

-- `not expected_seal or ... != expected_seal`
abbrev pub seal_differs : Option String → String → Bool
seal_differs none seal = true
seal_differs (some expected) seal = expected == "" || not (seal == expected)

abbrev pub expected_roles : String → List Role
expected_roles schema = elim (schema == schema_v2) [ true ↦ roles | false ↦ legacy_roles ]

-- `int(value.get("minimum_domains", 1))`
abbrev pub or_one : Option ℕ → ℕ
or_one none = 1
or_one (some n) = n

module _ {T : Type 0} where
  -- `windows[role]`; every role is a key where this is asked
  unfoldable pub windows_of : Dict String (List (Window T)) → Role → List (Window T)
  windows_of windows role = elim (get (role_name role) windows) [ none ↦ [] | some ws ↦ ws ]

  -- `len({window["domain"] for window in windows})`
  unfoldable pub domain_count : List (Window T) → ℕ
  domain_count windows = length (distinct (map (λ (w : Window T). w.domain) windows))

  -- `[window["document_id"] for window in windows]`
  abbrev pub document_ids : List (Window T) → List String
  document_ids windows = map (λ (w : Window T). w.document_id) windows

  -- the loop that tests the roles of a new corpus
  unfoldable pub check_new_roles :
      Dict String ℕ → ℕ → Dict String (List (Window T)) → List Role → Result CorpusError (Unit {0})
  unfolding windows_of domain_count limit_of
  check_new_roles role_limits minimum_domains windows [] = ok tt
  check_new_roles role_limits minimum_domains windows (role ∷ rest) = do
    raise_if (not (nat_eq (length (windows_of windows role)) (limit_of role_limits role)))
        (insufficient_windows (role_name role))
    raise_if (ltb (domain_count (windows_of windows role)) minimum_domains)
        (insufficient_domains (role_name role))
    check_new_roles role_limits minimum_domains windows rest

module _ {V T G X : Type 0} (runtime : Runtime V T G X) where
  module _ (encode : String → List T) (window_tokens : ℕ) (role_limits : Dict String ℕ)
      (seed : ℕ) where
    -- the windows of the roles, `index` the number of the first of them
    unfoldable pub role_windows :
        Split → ℕ → List Role → Result CorpusError (Dict String (List (Window T)))
    unfolding build_windows limit_of
    role_windows split index [] = ok []
    role_windows split index (role ∷ rest) = do
      windows ←
          build_windows encode runtime.token_hash runtime.shuffle (split role) window_tokens
            (limit_of role_limits role) (runtime.random (seed + index))
      others ← role_windows split (suc index) rest
      ok ((role_name role, windows) ∷ others)

    abbrev pub body_of : X → X → ℕ → Dict String (List (Window T)) → Body T X
    body_of tokenizer source minimum_domains windows = record {
      schema = schema_v2;
      seed = seed;
      window_tokens = window_tokens;
      minimum_domains = some minimum_domains;
      tokenizer = tokenizer;
      source = source;
      role_counts = map (λ r. (role_name r, length (windows_of windows r))) roles;
      windows = windows;
    }

    abbrev pub sealed : Body T X → SealedCorpus T X
    sealed body = record { body = body; seal_sha256 = some (runtime.seal_of body) }

    -- what follows the windows
    unfoldable pub seal_windows :
        X → X → ℕ → Dict String (List (Window T)) → Result CorpusError (SealedCorpus T X)
    unfolding check_new_roles windows_of
    seal_windows tokenizer source minimum_domains windows = do
      check_new_roles role_limits minimum_domains windows roles
      raise_if (any_meet (map (λ r. document_ids (windows_of windows r)) roles)) leakage
      ok (sealed (body_of tokenizer source minimum_domains windows))

    unfoldable pub seal_corpus : List String → X → X → ℕ → Result CorpusError (SealedCorpus T X)
    unfolding role_windows seal_windows read_documents document_split
    seal_corpus lines tokenizer source minimum_domains = do
      raise_if (not (same_set (keys role_limits) (map role_name roles))) role_limits_differ
      documents ← read_documents runtime.loads runtime.str runtime.is_blank lines
      windows ←
          role_windows (document_split runtime.sha256 (runtime.show_seed seed) documents) 0 roles
      seal_windows tokenizer source minimum_domains windows

  -- the loop over the windows of one role, which returns their documents
  unfoldable pub check_tokens : Role → List (Window T) → Result CorpusError (List String)
  check_tokens role [] = ok []
  check_tokens role (window ∷ windows) = do
    raise_if (not (runtime.token_hash window.token_ids == window.token_sha256))
        (token_hash_mismatch (role_name role))
    documents ← check_tokens role windows
    ok (window.document_id ∷ documents)

  -- the loop over the roles, which returns the documents of each
  unfoldable pub check_roles : ℕ → Body T X → List Role → Result CorpusError (List (List String))
  unfolding check_tokens windows_of domain_count
  check_roles minimum_domains body [] = ok []
  check_roles minimum_domains body (role ∷ rest) =
      let windows = windows_of body.windows role in
      do
        raise_if
            (count_differs (get (role_name role) body.role_counts) (length windows)
              || is_nil windows)
            (count_mismatch (role_name role))
        raise_if (ltb (domain_count windows) minimum_domains) (domain_mismatch (role_name role))
        documents ← check_tokens role windows
        others ← check_roles minimum_domains body rest
        ok (documents ∷ others)

  unfoldable pub verify_sealed_corpus : SealedCorpus T X → Result CorpusError (Unit {0})
  unfolding check_roles
  verify_sealed_corpus value =
      let body = value.body in
      do
        raise_if (seal_differs value.seal_sha256 (runtime.seal_of body)) body_hash_mismatch
        raise_if (not (body.schema == schema_v1 || body.schema == schema_v2)) unsupported_schema
        raise_if (not (same_set (keys body.windows) (map role_name (expected_roles body.schema))))
            roles_incomplete
        document_sets ← check_roles (or_one body.minimum_domains) body (expected_roles body.schema)
        raise_if (any_meet document_sets) leakage
