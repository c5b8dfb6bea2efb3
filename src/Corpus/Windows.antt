-- ===== src/Corpus/Windows.antt =====
-- `build_windows`: the full windows of the documents' tokens, shuffled in each domain and taken in turn from
-- the domains. `encode` is the tokenizer, `token_hash` the hash of the canonical JSON of a window, and
-- `shuffle` the generator's `shuffle`, which returns the next state of the generator.
pub mod Count
pub mod Total
pub mod Origin
use shapleymcg.Common.{
  ℕ, zero, suc, ◌+◌, ◌-◌, String, Bool, true, false, not, Option, none, some, List, [], ◌∷◌, ◌++◌,
  ltb, nat_eq, str_ltb, length, take, drop, if◌then◌else◌, string_keys,
}
use shapleymcg.Common.Dict.{Dict, get, put}
use shapleymcg.Common.Sort.{sorted}
use shapleymcg.Common.Sums.{file_under}
use shapleymcg.Common.Result.{Result, ok, ◌>>=◌, ◌>>◌, raise_if}
use shapleymcg.Corpus.Documents.{Document, CorpusError, zero_step}

pub record Window (T : Type 0) : Type 0 where
  pub document_id : String
  pub domain : String
  pub offset : ℕ
  pub token_ids : List T
  pub token_sha256 : String

-- `range(start, stop, step)` for a positive step; `stop` rounds are enough
abbrev pub range_from : ℕ → ℕ → ℕ → ℕ → List ℕ
range_from zero start stop step = []
range_from (suc fuel) start stop step = elim (ltb start stop) [
  | true ↦ start ∷ range_from fuel (start + step) stop step
  | false ↦ []
]

abbrev pub range : ℕ → ℕ → List ℕ
range stop step = range_from stop 0 stop step

-- `xs.pop()`
abbrev pub pop {ℓ} : {A : Type ℓ} → List A → Option (List A × A)
pop [] = none
pop (x ∷ xs) = elim (pop xs) [ none ↦ some ([], x) | some (ys, y) ↦ some (x ∷ ys, y) ]

-- The windows that are left in each domain.
abbrev pub Pools : Type 0 → Type 0
Pools T = Dict String (List (Window T))

-- What a pass over the domains leaves: the pools, the selected windows, and whether it took any.
pub record Pass (T : Type 0) : Type 0 where
  pub pools : Pools T
  pub selected : List (Window T)
  pub advanced : Bool

module _ {T : Type 0} where
  abbrev pub domain_lt : String × List (Window T) → String × List (Window T) → Bool
  domain_lt a b = str_ltb a.0 b.0

  module _ (encode : String → List T) (token_hash : List T → String) (window_tokens : ℕ) where
    abbrev pub window_at : Document → List T → ℕ → Window T
    window_at document tokens offset =
        let window = take window_tokens (drop offset tokens) in
        record {
          document_id = document.id;
          domain = document.domain;
          offset = offset;
          token_ids = window;
          token_sha256 = token_hash window;
        }

    -- the loop over the offsets of one document
    unfoldable pub cut : Document → List T → List ℕ → Pools T → Pools T
    unfolding file_under
    cut document tokens [] pools = pools
    cut document tokens (offset ∷ offsets) pools = cut document tokens offsets (
        if not (nat_eq (length (take window_tokens (drop offset tokens))) window_tokens)
        then pools
        else file_under document.domain (window_at document tokens offset) pools)

    -- the loop over the documents; `range` raises on a step of 0
    unfoldable pub cut_all : List Document → Pools T → Result CorpusError (Pools T)
    unfolding cut
    cut_all [] pools = ok pools
    cut_all (document ∷ documents) pools =
        let tokens = encode document.text in
        raise_if (nat_eq window_tokens 0) zero_step
        >> cut_all documents
            (cut document tokens (range (length tokens + 1 - window_tokens) window_tokens) pools)

  -- the shuffles of the domains, in the order in which the domains were met
  unfoldable pub shuffle_all :
      {G : Type 0} → (G → List (Window T) → G × List (Window T)) → G → Pools T → Pools T
  shuffle_all shuffle generator [] = []
  shuffle_all shuffle generator ((domain, windows) ∷ pools) =
      let (next, shuffled) = shuffle generator windows in
      (domain, shuffled) ∷ shuffle_all shuffle next pools

  -- `for domain in domains: ...`, with the break
  unfoldable pub one_pass : ℕ → Pools T → List (Window T) → Bool → Pass T
  one_pass limit [] selected advanced = record {
    pools = [];
    selected = selected;
    advanced = advanced;
  }
  one_pass limit ((domain, windows) ∷ pools) selected advanced = elim (pop windows) [
    | none ↦
        let rest = one_pass limit pools selected advanced in
        record {
          pools = (domain, windows) ∷ rest.pools;
          selected = rest.selected;
          advanced = rest.advanced;
        }
    | some (left, window) ↦ elim (nat_eq (length (selected ++ window ∷ [])) limit) [
      | true ↦ record {
        pools = (domain, left) ∷ pools;
        selected = selected ++ window ∷ [];
        advanced = true;
      }
      | false ↦
          let rest = one_pass limit pools (selected ++ window ∷ []) true in
          record {
            pools = (domain, left) ∷ rest.pools;
            selected = rest.selected;
            advanced = rest.advanced;
          }
    ]
  ]

  -- `while len(selected) < limit: ...`; `limit` passes are enough
  unfoldable pub passes : ℕ → ℕ → Pools T → List (Window T) → List (Window T)
  unfolding one_pass
  passes zero limit pools selected = selected
  passes (suc fuel) limit pools selected = elim (ltb (length selected) limit) [
    | true ↦
        let pass = one_pass limit pools selected false in
        elim pass.advanced [
          | true ↦ passes fuel limit pass.pools pass.selected
          | false ↦ pass.selected
        ]
    | false ↦ selected
  ]

  unfoldable pub build_windows :
      {G : Type 0}
      → (String → List T)
      → (List T → String)
      → (G → List (Window T) → G × List (Window T))
      → List Document
      → ℕ
      → ℕ
      → G
      → Result CorpusError (List (Window T))
  unfolding cut_all shuffle_all passes sorted
  build_windows encode token_hash shuffle documents window_tokens limit generator = do
    pools ← cut_all encode token_hash window_tokens documents []
    ok (passes limit limit (sorted domain_lt (shuffle_all shuffle generator pools)) [])
