-- ===== src/Campaign/Journal.antt =====
-- `EventJournal`: a log of events, each sealed and bound to the one before it by its hash. A file is its
-- terminated lines, and a fragment after them if the last line is not terminated.
pub mod Laws
pub mod Line
pub mod Lines
pub mod Sealed
pub mod Append
pub mod Recovery
pub mod Chain
use Prim.Native.String.{◌++◌ as append_text}
use shapleymcg.Common.{
  ℕ, suc, String, Bool, true, false, not, ◌&&◌, ◌||◌, Option, none, some, List, [], ◌∷◌, ◌++◌,
  length, Keyed, ◌==◌, string_keys,
}
use shapleymcg.Common.Dict.{Dict, get, put}
use shapleymcg.Common.Json.{
  Numbers, Json, null, number, text, object, nil, Fields, end, field, get_field, put_field,
  del_field, put_fields, is_finite_json, all_fields_finite, same_json,
}
use shapleymcg.Common.Result.{or_raise, Result, ok, err, ◌>>=◌, ◌>>◌, raise_if}
use shapleymcg.Common.Texts.{is_sha256}

-- The exceptions of the journal, by what raises them; a number is that of the line.
pub data JournalError : Type 0 where
  file_not_found journal_empty not_serializable event_not_finite no_valid_prefix : JournalError
  quarantine_collision : JournalError
  not_terminated malformed not_canonical not_a_mapping invalid_schema_or_index : ℕ → JournalError
  chain_breaks invalid_event_hash event_hash_mismatch line_not_finite : ℕ → JournalError

-- What the journal calls: `canonical_json`, which raises on a number that is not finite, `json.loads`, the
-- hash of a line or a fragment, and the number of its bytes.
pub record Format (N L : Type 0) : Type 0 where
  pub canonical : Json N → Option L
  pub loads : L → Option (Json N)
  pub sha256 : L → String
  pub byte_count : L → ℕ

pub record File (L : Type 0) : Type 0 where
  pub lines : List L
  pub fragment : Option L

abbrev pub journal_schema : String
journal_schema = "quant-pipeline.campaign-event.v1"

abbrev pub zero_hash : String
zero_hash = "0000000000000000000000000000000000000000000000000000000000000000"

-- `event.get(key) == value`
abbrev pub has_value : {N : Type 0} → ⦃n : Numbers N⦄ → Option (Json N) → Json N → Bool
has_value none value = false
has_value (some v) value = same_json v value

abbrev pub fields_of : {N : Type 0} → Json N → Option (Fields N)
fields_of (object fs) = some fs
fields_of _ = none

-- `_require_hash(value, ...)`
abbrev pub require_hash : {E N : Type 0} → Option (Json N) → E → Result E String
require_hash (some (text s)) e = raise_if (not (is_sha256 s)) e >> ok s
require_hash _ e = err e

module _ {N L : Type 0} ⦃n : Numbers N⦄ ⦃k : Keyed L⦄ (format : Format N L) where
  -- the tests of one line, which return the event's hash
  unfoldable pub check_line : ℕ → String → L → Result JournalError (Fields N × String)
  unfolding is_sha256 is_finite_json same_json
  check_line index previous raw = do
    event ← or_raise (format.loads raw) (malformed index)
    line ← or_raise (format.canonical event) not_serializable
    raise_if (not (line == raw)) (not_canonical index)
    fields ← or_raise (fields_of event) (not_a_mapping index)
    raise_if
        (not (has_value (get_field "schema" fields) (text journal_schema))
          || not (has_value (get_field "event_index" fields) (number (n.of_nat index))))
        (invalid_schema_or_index index)
    raise_if (not (has_value (get_field "previous_event_sha256" fields) (text previous)))
        (chain_breaks index)
    expected ← require_hash (get_field "event_sha256" fields) (invalid_event_hash index)
    body ← or_raise (format.canonical (object (del_field "event_sha256" fields))) not_serializable
    raise_if (not (format.sha256 body == expected)) (event_hash_mismatch index)
    raise_if (not (is_finite_json (object fields))) (line_not_finite index)
    ok (fields, expected)

  -- the loop over the lines; an event is its fields
  unfoldable pub read_lines : ℕ → String → List L → Result JournalError (List (Fields N))
  unfolding check_line
  read_lines index previous [] = ok []
  read_lines index previous (raw ∷ lines) = do
    (fields, hash) ← check_line index previous raw
    events ← read_lines (suc index) hash lines
    ok (fields ∷ events)

  abbrev pub fragment_raises : ℕ → Option L → Result JournalError (Unit {0})
  fragment_raises index none = ok tt
  fragment_raises index (some fragment) = err (not_terminated index)

  abbrev pub is_nil : List (Fields N) → Bool
  is_nil [] = true
  is_nil (e ∷ es) = false

  unfoldable pub read_file : File L → Result JournalError (List (Fields N))
  unfolding read_lines
  read_file file = do
    events ← read_lines 0 zero_hash file.lines
    fragment_raises (length file.lines) file.fragment
    raise_if (is_nil events) journal_empty
    ok events

  unfoldable pub read : Option (File L) → Result JournalError (List (Fields N))
  unfolding read_file
  read none = err file_not_found
  read (some file) = read_file file

  -- `events[-1]["event_sha256"]`, which every event that was read has
  abbrev pub hash_of : Option (Json N) → String
  hash_of (some (text s)) = s
  hash_of _ = ""

  abbrev pub last_hash : String → List (Fields N) → String
  last_hash previous [] = previous
  last_hash previous (e ∷ es) = last_hash (hash_of (get_field "event_sha256" e)) es

  -- the event before its hash
  abbrev pub unsealed : ℕ → String → String → Fields N → Fields N
  unsealed index timestamp previous body =
      put_fields
        (field "schema" (text journal_schema) (
          field "event_index" (number (n.of_nat index)) (
            field "timestamp" (text timestamp)
              (field "previous_event_sha256" (text previous) end))))
        body

  -- the number of events before the new one, and the hash that it is bound to
  unfoldable pub position : Option (File L) → Result JournalError (ℕ × String)
  unfolding read_file
  position none = ok (0, zero_hash)
  position (some file) = do events ← read_file file; ok (length events, last_hash zero_hash events)

  abbrev pub add_line : Option (File L) → L → File L
  add_line none line = record { lines = line ∷ []; fragment = none }
  add_line (some file) line = record { lines = file.lines ++ line ∷ []; fragment = none }

  -- `append` at the time `timestamp`; it returns the file and the event
  unfoldable pub append :
      String → Fields N → Option (File L) → Result JournalError (File L × Fields N)
  unfolding position all_fields_finite
  append timestamp body file = do
    raise_if (not (all_fields_finite body)) event_not_finite
    (index, previous) ← position file
    let event = unsealed index timestamp previous body
    line ← or_raise (format.canonical (object event)) not_serializable
    let sealed = put_field "event_sha256" (text (format.sha256 line)) event
    data_line ← or_raise (format.canonical (object sealed)) not_serializable
    ok (add_line file data_line, sealed)

-- The journal's file and the quarantined fragments by their names.
pub record Disk (L : Type 0) : Type 0 where
  pub journal : File L
  pub quarantine : Dict String L

abbrev pub quarantine_path : String → String
quarantine_path hash = append_text "journal-recovery/torn-tail-" (append_text hash ".bin")

-- the event of a recovery
abbrev pub recovery_event : {N : Type 0} → ⦃n : Numbers N⦄ → String → String → ℕ → Fields N
recovery_event ⦃n⦄ plan_sha256 hash bytes = field "event" (text "journal_tail_recovered") (
    field "plan_sha256" (text plan_sha256) (
      field "stage_id" null (
        field "kind" (text "journal_recovery") (
          field "attempt" (number (n.of_nat 0)) (
            field "input_hashes" (object end) (
              field "output_hashes" (object (field "fragment_sha256" (text hash) end)) (
                field "predecessor_state_hash" (text zero_hash) (
                  field "details"
                    (object (
                      field "fragment_bytes" (number (n.of_nat bytes))
                        (field "quarantine_path" (text (quarantine_path hash)) end)))
                    end))))))))

module _ {N L : Type 0} ⦃n : Numbers N⦄ ⦃k : Keyed L⦄ (format : Format N L) where
  -- the quarantine of a fragment, which refuses another fragment of the same name
  unfoldable pub keep_fragment : L → Dict String L → Result JournalError (Dict String L)
  unfolding get put
  keep_fragment fragment quarantine =
      let hash = format.sha256 fragment in
      elim (get (quarantine_path hash) quarantine) [
        | none ↦ ok (put (quarantine_path hash) fragment quarantine)
        | some old ↦
            raise_if (not (format.sha256 old == hash)) quarantine_collision >> ok quarantine
      ]

  -- `recover_torn_tail`; it returns the event if there was something to recover
  unfoldable pub recover_torn_tail :
      String → String → Disk L → Result JournalError (Disk L × Option (Fields N))
  unfolding append read_file keep_fragment
  recover_torn_tail timestamp plan_sha256 disk = elim disk.journal.lines [
    | [] ↦ err no_valid_prefix
    | line ∷ lines ↦ elim disk.journal.fragment [
      | none ↦ ok (disk, none)
      | some fragment ↦ do
        let prefix : File L = record { lines = line ∷ lines; fragment = none }
        checked ← read_file format prefix
        quarantine ← keep_fragment fragment disk.quarantine
        (journal, event) ←
            append format timestamp
              (recovery_event plan_sha256 (format.sha256 fragment) (format.byte_count fragment))
              (some prefix)
        ok (record { journal = journal; quarantine = quarantine }, some event)
    ]
  ]
