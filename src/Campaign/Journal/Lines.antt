-- ===== src/Campaign/Journal/Lines.antt =====
-- The loop over the lines of a journal: a line that `append` writes, one read step, and one line more.
use shapleymcg.Common.{
  ℕ, suc, ◌+◌, ◌≡◌, refl, sym, ap, ◌∙◌, subst, String, none, some, List, [], ◌∷◌, ◌++◌, length,
  Keyed, string_keys, arith,
}
use shapleymcg.Common.Dict.{==_refl}
use shapleymcg.Common.Json.{
  Numbers, number, text, object, Fields, get_field, put_field, del_field, same_json,
}
use shapleymcg.Common.Json.Mappings.{
  get_field-put_field_self, get_field-put_field_ne, del_field-put_field,
}
use shapleymcg.Common.Result.{ok, bind-eq-ok, ok_injective, bind_ok}
use shapleymcg.Campaign.Journal.{Format, journal_schema, check_line, read_lines, hash_of, last_hash}
use shapleymcg.Campaign.Journal.Line.{check_line-IsLine}
use shapleymcg.Campaign.Journal.Laws.{Reads, IsLawful}

module _ {N L : Type 0} ⦃n : Numbers N⦄ ⦃k : Keyed L⦄ (format : Format N L) where
  -- The fields of an event at its place in the journal, before it is sealed.
  pub record IsPlaced (index : ℕ) (previous : String) (event : Fields N) : Type 0 where
    pub schema : get_field "schema" event ≡ some (text journal_schema)
    pub event_index : get_field "event_index" event ≡ some (number (n.of_nat index))
    pub previous_hash : get_field "previous_event_sha256" event ≡ some (text previous)
    pub open_hash : get_field "event_sha256" event ≡ none

  module _ (laws : IsLawful format) where
    -- A line that was written passes the tests of its place.
    pub check_line_written :
        (index : ℕ) (previous : String) (event : Fields N) (line data_line : L)
        → IsPlaced index previous event
        → format.canonical (object event) ≡ some line
        → format.canonical (object (put_field "event_sha256" (text (format.sha256 line)) event))
          ≡ some data_line
        → (gs : Fields N) × (check_line format index previous data_line
            ≡ ok (gs, format.sha256 line))
          × Reads format (put_field "event_sha256" (text (format.sha256 line)) event) gs
    unfolding check_line same_json
    check_line_written index previous event line data_line placed written sealed_written =
        let hash = format.sha256 line in
        let sealed = put_field "event_sha256" (text hash) event in
        let (gs, loaded, again, reads) = laws.reads sealed data_line sealed_written in
        let schema =
          reads.texts "schema" journal_schema (
            get_field-put_field_ne "event_sha256" "schema" (text hash) event refl
            ∙ placed.schema) in
        let event_index = reads.numbers "event_index" (n.of_nat index) (
          get_field-put_field_ne "event_sha256" "event_index" (text hash) event refl
          ∙ placed.event_index) in
        let previous_hash = reads.texts "previous_event_sha256" previous (
          get_field-put_field_ne "event_sha256" "previous_event_sha256" (text hash) event refl
          ∙ placed.previous_hash) in
        let own_hash =
          reads.texts "event_sha256" hash
            (get_field-put_field_self "event_sha256" (text hash) event) in
        let body : format.canonical (object (del_field "event_sha256" gs)) ≡ some line =
          reads.without "event_sha256"
          ∙ ap (λ z. format.canonical (object z))
              (del_field-put_field "event_sha256" (text hash) event placed.open_hash)
          ∙ written in
        (
          gs,
          rw
              (
                loaded,
                again,
                ==_refl data_line,
                schema,
                event_index,
                laws.same_nat index,
                previous_hash,
                ==_refl previous,
                own_hash,
                laws.hashes line,
                body,
                ==_refl hash,
                reads.finite,
              )
              refl,
          reads,
        )

  module _ where
    -- The steps of a read of one line more.
    pub read_step :
        (index : ℕ) (previous : String) (raw : L) (lines : List L) (events : List (Fields N))
        → read_lines format index previous (raw ∷ lines) ≡ ok events
        → (fields : Fields N) × (hash : String) × (rest : List (Fields N)) × (check_line format
              index previous raw
            ≡ ok (fields, hash))
          × (read_lines format (suc index) hash lines ≡ ok rest)
          × (events ≡ fields ∷ rest)
    unfolding read_lines
    read_step index previous raw lines events h =
        let ((fields, hash), p, q) =
          bind-eq-ok (check_line format index previous raw) _ {b = events} h in
        let (rest, r, s) = bind-eq-ok (read_lines format (suc index) hash lines) _ {b = events} q in
        (fields, hash, rest, p, r, sym (ok_injective s))

    pub length-read_lines :
        (index : ℕ) (previous : String) (lines : List L) (events : List (Fields N))
        → read_lines format index previous lines ≡ ok events
        → length events ≡ length lines
    unfolding read_lines
    length-read_lines index previous [] events h = ap length (sym (ok_injective h))
    length-read_lines index previous (raw ∷ lines) events h =
        let (fields, hash, rest, _, r, s) = read_step index previous raw lines events h in
        ap length s ∙ ap suc (length-read_lines (suc index) hash lines rest r)

    -- A line that fits the end of the journal is read after the others.
    pub read_lines-append :
        (index : ℕ) (previous : String) (lines : List L) (events : List (Fields N)) (raw : L)
        (fields : Fields N) (hash : String)
        → read_lines format index previous lines ≡ ok events
        → check_line format (index + length lines) (last_hash format previous events) raw
          ≡ ok (fields, hash)
        → read_lines format index previous (lines ++ raw ∷ []) ≡ ok (events ++ fields ∷ [])
    unfolding read_lines
    read_lines-append index previous [] events raw fields hash h c =
        let empty : [] ≡ events = ok_injective h in
        let here : check_line format index previous raw ≡ ok (fields, hash) =
          subst
            (λ es. check_line format index (last_hash format previous es) raw ≡ ok (fields, hash))
            (sym empty)
            (subst
              (λ i. check_line format i (last_hash format previous events) raw ≡ ok (fields, hash))
              (omega arith) c) in
        rw here (ap (λ es. ok (es ++ fields ∷ [])) empty)
    read_lines-append index previous (raw' ∷ lines) events raw fields hash h c =
        let (f, g, rest, p, r, s) = read_step index previous raw' lines events h in
        let own = (check_line-IsLine format index previous raw' f g p).own_hash in
        let threaded : last_hash format previous events ≡ last_hash format g rest =
          ap (last_hash format previous) s
          ∙ ap (λ v. last_hash format (hash_of format v) rest) own in
        let place : index + suc (length lines) ≡ suc index + length lines = omega arith in
        let later : check_line format (suc index + length lines) (last_hash format g rest) raw
            ≡ ok (fields, hash) =
          subst (λ z. check_line format (suc index + length lines) z raw ≡ ok (fields, hash))
            threaded
            (subst
              (λ i. check_line format i (last_hash format previous events) raw ≡ ok (fields, hash))
              place c) in
        bind_ok (check_line format index previous raw') _ p (
          bind_ok (read_lines format (suc index) g (lines ++ raw ∷ [])) _
            (read_lines-append (suc index) g lines rest raw fields hash r later)
            (ap (λ es. ok (es ++ fields ∷ [])) (sym s)))
