-- ===== src/Corpus/Documents.antt =====
-- The documents of the corpus and `read_documents`. A line of the file is a string; `json.loads`, `str` and
-- the test that a line is blank are parameters.
use mathlib.Core.Bool.{false≢true}
use shapleymcg.Common.{
  ◌≡◌, refl, sym, subst, ◌∙◌, ◌≢◌, All-cons, String, Bool, true, false, Option, some, List, [], ◌∷◌,
  map, any, ◌∈◌, All, Memᴰ, ◌==◌, string_keys, Bool-cases, inl, inr, any-false,
}
use shapleymcg.Common.Dict.{Dict, get, IsDistinct}
use shapleymcg.Common.Result.{
  Result, ok, err, ◌>>=◌, ◌>>◌, raise_if, bind-eq-ok, raise_if-eq-ok, ok_injective,
}

-- The exceptions of the module, by what raises them.
pub data CorpusError : Type 0 where
  keys_missing zero_step role_limits_differ leakage : CorpusError
  duplicate_document : String → CorpusError
  insufficient_windows insufficient_domains : String → CorpusError
  body_hash_mismatch unsupported_schema roles_incomplete : CorpusError
  count_mismatch domain_mismatch token_hash_mismatch : String → CorpusError

pub record Document : Type 0 where
  pub id : String
  pub domain : String
  pub text : String

module _ {V : Type 0} (loads : String → Dict String V) (str : V → String)
    (is_blank : String → Bool) where
  abbrev pub document_of : Option V → Option V → Option V → Result CorpusError Document
  document_of (some id) (some domain) (some text) =
      ok (record { id = str id; domain = str domain; text = str text })
  document_of _ _ _ = err keys_missing

  unfoldable pub read_row : Dict String V → Result CorpusError Document
  unfolding get
  read_row row = document_of (get "id" row) (get "domain" row) (get "text" row)

  -- the loop over the lines, with the ids that were seen
  unfoldable pub read_lines : List String → List String → Result CorpusError (List Document)
  unfolding read_row
  read_lines [] seen = ok []
  read_lines (line ∷ lines) seen = elim (is_blank line) [
    | true ↦ read_lines lines seen
    | false ↦ do
      document ← read_row (loads line)
      raise_if (any (λ id. id == document.id) seen) (duplicate_document document.id)
      documents ← read_lines lines (document.id ∷ seen)
      ok (document ∷ documents)
  ]

  unfoldable pub read_documents : List String → Result CorpusError (List Document)
  unfolding read_lines
  read_documents lines = read_lines lines []

  -- The ids that are read are new, and no two of them are equal.
  abbrev IsNew : List String → List String → Type 0
  IsNew seen ids = All (λ id. (i : String) → i ∈ seen → i ≢ id) ids × IsDistinct ids

  read_step :
      (line : String) (lines : List String) (seen : List String) (documents : List Document)
      → is_blank line ≡ false
      → read_lines (line ∷ lines) seen ≡ ok documents
      → (d : Document) × (ds : List Document) × (any (λ id. id == d.id) seen ≡ false)
        × (read_lines lines (d.id ∷ seen) ≡ ok ds)
        × (documents ≡ d ∷ ds)
  unfolding read_lines
  read_step line lines seen documents b h =
      let (d, _, p) =
        bind-eq-ok (read_row (loads line)) _ {b = documents} (rw (b, read_lines) at h) in
      let (_, fresh, q) =
        bind-eq-ok (raise_if (any (λ id. id == d.id) seen) (duplicate_document d.id)) _
          {b = documents} p in
      let (ds, rest, e) = bind-eq-ok (read_lines lines (d.id ∷ seen)) _ {b = documents} q in
      (
        d,
        ds,
        raise_if-eq-ok (any (λ id. id == d.id) seen) (duplicate_document d.id) fresh,
        rest,
        sym (ok_injective e),
      )

  unseen :
      (id : String) (seen : List String)
      → any (λ i. i == id) seen ≡ false
      → (i : String) → i ∈ seen
      → i ≢ id
  unseen id seen h i m e =
      absurd
        (false≢true (sym (any-false (λ j. j == id) seen h i m) ∙ (string_keys.same_iff i id).1 e))

  IsNew-cons :
      (id : String) (seen ids : List String)
      → any (λ i. i == id) seen ≡ false
      → IsNew (id ∷ seen) ids
      → IsNew seen (id ∷ ids)
  IsNew-cons id seen ids h (apart, distinct) = (
    All-cons (unseen id seen h) (λ j m i k. apart j m i (Memᴰ.tail k)),
    (λ j m e. apart j m id (Memᴰ.head refl) (sym e), distinct),
  )

  read_lines-IsNew :
      (lines seen : List String) (documents : List Document)
      → read_lines lines seen ≡ ok documents
      → IsNew seen (map (λ (d : Document). d.id) documents)
  unfolding read_lines
  read_lines-IsNew [] seen documents h =
      subst (λ ds. IsNew seen (map (λ (d : Document). d.id) ds)) (ok_injective h)
        (λ j m. absurd (elim m [ ]), tt)
  read_lines-IsNew (line ∷ lines) seen documents h = elim (Bool-cases (is_blank line)) [
    | inl b ↦ read_lines-IsNew lines seen documents (rw (b, read_lines) at h)
    | inr b ↦
        let (d, ds, fresh, rest, e) = read_step line lines seen documents b h in
        subst (λ xs. IsNew seen (map (λ (x : Document). x.id) xs)) (sym e)
          (IsNew-cons d.id seen (map (λ (x : Document). x.id) ds) fresh
            (read_lines-IsNew lines (d.id ∷ seen) ds rest))
  ]

  -- No two documents that are read have one id.
  pub read_documents-IsDistinct :
      (lines : List String) (documents : List Document)
      → read_documents lines ≡ ok documents
      → IsDistinct (map (λ (d : Document). d.id) documents)
  unfolding read_documents
  read_documents-IsDistinct lines documents h = (read_lines-IsNew lines [] documents h).1
