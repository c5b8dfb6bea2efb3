-- ===== src/Campaign/Journal/Append.antt =====
-- What `append` writes is read back: the events before it stay, and the new one follows them.
use shapleymcg.Common.{
  ◌+◌, ◌≡◌, refl, sym, ap, ◌∙◌, subst, String, true, false, Option, none, some, List, [], ◌∷◌, ◌++◌,
  length, Keyed, string_keys, arith,
}
use shapleymcg.Common.Json.{
  Numbers, text, object, Fields, end, put_field, is_finite_json, all_fields_finite,
}
use shapleymcg.Common.Json.Mappings.{put_field_finite, put_fields_finite}
use shapleymcg.Common.Result.{Result, ok, raise_if, bind-eq-ok, ok_injective}
use shapleymcg.Campaign.Journal.{
  Format, File, JournalError, zero_hash, check_line, read_lines, read_file, fragment_raises, is_nil,
  last_hash, unsealed, position, add_line, append, journal_empty,
}
use shapleymcg.Campaign.Journal.Laws.{Reads, IsLawful}
use shapleymcg.Campaign.Journal.Lines.{check_line_written, length-read_lines, read_lines-append}
use shapleymcg.Campaign.Journal.Sealed.{IsFree, IsSealed, unsealed-IsPlaced, unsealed-IsSealed}

module _ {N L : Type 0} ⦃n : Numbers N⦄ ⦃k : Keyed L⦄ (format : Format N L) where
  -- The events of a journal; one that is not there has none.
  abbrev pub history : Option (File L) → Result JournalError (List (Fields N))
  history none = ok []
  history (some file) = read_file format file

  pub read_file_inv :
      (file : File L) (events : List (Fields N))
      → read_file format file ≡ ok events
      → (read_lines format 0 zero_hash file.lines ≡ ok events) × (file.fragment ≡ none)
  unfolding read_file
  read_file_inv file events h =
      let (es, p, q) = bind-eq-ok (read_lines format 0 zero_hash file.lines) _ {b = events} h in
      let (_, r, s) =
        bind-eq-ok (fragment_raises format (length file.lines) file.fragment) _ {b = events} q in
      let (_, _, t) = bind-eq-ok (raise_if (is_nil format es) journal_empty) _ {b = events} s in
      (p ∙ ap ok (ok_injective t), whole file.fragment r)
    where
      whole :
          (fragment : Option L)
          → {u : Unit {0}} → fragment_raises format (length file.lines) fragment ≡ ok u
          → fragment ≡ none
      whole none e = refl
      whole (some f) e = absurd (cc)

  is_nil-append : (es : List (Fields N)) (e : Fields N) → is_nil format (es ++ e ∷ []) ≡ false
  is_nil-append [] e = refl
  is_nil-append (x ∷ es) e = refl

  read_file_ok :
      (lines : List L) (events : List (Fields N)) (e : Fields N)
      → read_lines format 0 zero_hash lines ≡ ok (events ++ e ∷ [])
      → read_file format (record { lines = lines; fragment = none }) ≡ ok (events ++ e ∷ [])
  unfolding read_file
  read_file_ok lines events e h = rw (h, is_nil-append events e) refl

  -- One more line at the end of the journal.
  add_line_read :
      (file : Option (File L)) (events : List (Fields N)) (raw : L) (fields : Fields N)
      (hash : String)
      → history file ≡ ok events
      → check_line format (length events) (last_hash format zero_hash events) raw
        ≡ ok (fields, hash)
      → read_file format (add_line format file raw) ≡ ok (events ++ fields ∷ [])
  unfolding read_lines
  add_line_read none events raw fields hash h c =
      let empty : [] ≡ events = ok_injective h in
      let first : check_line format 0 zero_hash raw ≡ ok (fields, hash) =
        subst
          (λ es.
            check_line format (length es) (last_hash format zero_hash es) raw ≡ ok (fields, hash))
          (sym empty) c in
      read_file_ok (raw ∷ []) events fields (rw first (ap (λ es. ok (es ++ fields ∷ [])) empty))
  add_line_read (some file) events raw fields hash h c =
      let (lines, whole) = read_file_inv file events h in
      let place : length events ≡ 0 + length file.lines =
        length-read_lines format 0 zero_hash file.lines events lines ∙ omega arith in
      read_file_ok (file.lines ++ raw ∷ []) events fields (
        read_lines-append format 0 zero_hash file.lines events raw fields hash lines (
          subst
            (λ i. check_line format i (last_hash format zero_hash events) raw ≡ ok (fields, hash))
            place c))

  position_of_history :
      (file : Option (File L)) (events : List (Fields N))
      → history file ≡ ok events
      → position format file ≡ ok (length events, last_hash format zero_hash events)
  unfolding position
  position_of_history none events h =
      ap (λ es. ok (length es, last_hash format zero_hash es)) (ok_injective h)
  position_of_history (some file) events h = rw h refl

  -- Under the laws of the JSON format: to a journal that is absent or can be read, `append` adds an event with
  -- a finite body that has each key once and sets none of its own keys. The event has at each key what
  -- `append` sets there or else what the body has, with its number, the hash of the event before it and, as
  -- its own, the hash of the line that it is without it. The journal is then read as the events that were
  -- there and, after them, the event as it is read back, which is written as the event is.
  pub read_file-append :
      (laws : IsLawful format) (timestamp : String) (body : Fields N) (file : Option (File L))
      (events : List (Fields N))
      → IsFree body
      → all_fields_finite body ≡ true
      → history file ≡ ok events
      → (journal : File L) × (sealed : Fields N) × (gs : Fields N) × (append format timestamp body
            file
          ≡ ok (journal, sealed))
        × IsSealed format (length events) timestamp (last_hash format zero_hash events) body sealed
        × (read_file format journal ≡ ok (events ++ gs ∷ []))
        × Reads format sealed gs
  unfolding append is_finite_json
  read_file-append laws timestamp body file events free finite h =
      let index = length events in
      let previous = last_hash format zero_hash events in
      let event = unsealed format index timestamp previous body in
      let event_finite : all_fields_finite event ≡ true =
        put_fields_finite (unsealed format index timestamp previous end) body
          (ground (arith, laws.finite_nat index)) finite in
      let (line, written) = laws.writes (object event) event_finite in
      let sealed = put_field "event_sha256" (text (format.sha256 line)) event in
      let (data_line, sealed_written) =
        laws.writes (object sealed)
          (put_field_finite "event_sha256" (text (format.sha256 line)) event refl event_finite) in
      let (gs, checked, reads) =
        check_line_written format laws index previous event line data_line
          (unsealed-IsPlaced format index timestamp previous body free) written sealed_written in
      (
        add_line format file data_line,
        sealed,
        gs,
        rw (finite, position_of_history file events h, written, sealed_written) refl,
        unsealed-IsSealed format index timestamp previous body line free written,
        add_line_read file events data_line gs (format.sha256 line) h checked,
        reads,
      )
