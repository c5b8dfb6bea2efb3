-- ===== src/Campaign/Journal/Recovery.antt =====
-- What `recover_torn_tail` leaves of a journal whose last line was cut off.
use Prim.Native.String.{◌++◌ as append_text}
use shapleymcg.Common.{
  length, ℕ, ◌≡◌, refl, String, true, none, some, List, [], ◌∷◌, ◌++◌, Keyed, string_keys, arith,
}
use shapleymcg.Common.Dict.{==_refl, Dict, get, put, get-put_self}
use shapleymcg.Common.Json.{
  null, text, number, object, end, field, get_field, Numbers, Fields, all_fields_finite,
  is_finite_json,
}
use shapleymcg.Common.Result.{ok, bind_ok}
use shapleymcg.Campaign.Journal.{
  Format, File, Disk, zero_hash, last_hash, read_file, append, recovery_event, quarantine_path,
  keep_fragment, recover_torn_tail,
}
use shapleymcg.Campaign.Journal.Laws.{Reads, IsLawful}
use shapleymcg.Campaign.Journal.Sealed.{IsFree, IsSealed}
use shapleymcg.Campaign.Journal.Append.{read_file-append}

module _ {N L : Type 0} ⦃n : Numbers N⦄ ⦃k : Keyed L⦄ (format : Format N L) where
  recovery_event-IsFree :
      (plan_sha256 hash : String) (bytes : ℕ)
      → IsFree {N = N} (recovery_event plan_sha256 hash bytes)
  recovery_event-IsFree plan_sha256 hash bytes = record {
    no_schema = refl;
    no_index = refl;
    no_timestamp = refl;
    no_previous = refl;
    no_hash = refl;
    unique = (refl, (refl, (refl, (refl, (refl, (refl, (refl, (refl, (refl, tt)))))))));
  }

  recovery_event_finite :
      (laws : IsLawful format) (plan_sha256 hash : String) (bytes : ℕ)
      → all_fields_finite {N = N} (recovery_event plan_sha256 hash bytes) ≡ true
  unfolding is_finite_json
  recovery_event_finite laws plan_sha256 hash bytes =
      ground (arith, laws.finite_nat 0, laws.finite_nat bytes)

  -- The event of a recovery: of which plan, of what fragment, how long it is and where it is quarantined.
  pub record IsRecovery (plan_sha256 : String) (fragment : L) (event : Fields N) : Type 0 where
    pub event_name : get_field "event" event ≡ some (text "journal_tail_recovered")
    pub plan : get_field "plan_sha256" event ≡ some (text plan_sha256)
    pub stage : get_field "stage_id" event ≡ some null
    pub kind : get_field "kind" event ≡ some (text "journal_recovery")
    pub attempt : get_field "attempt" event ≡ some (number (n.of_nat 0))
    pub inputs : get_field "input_hashes" event ≡ some (object end)
    pub outputs :
        get_field "output_hashes" event
        ≡ some (object (field "fragment_sha256" (text (format.sha256 fragment)) end))
    pub predecessor : get_field "predecessor_state_hash" event ≡ some (text zero_hash)
    pub details :
        get_field "details" event
        ≡ some (
            object (
              field "fragment_bytes" (number (n.of_nat (format.byte_count fragment))) (
                field "quarantine_path"
                  (text (
                    append_text "journal-recovery/torn-tail-"
                      (append_text (format.sha256 fragment) ".bin")))
                  end)))

  sealed-IsRecovery :
      (index : ℕ) (timestamp previous plan_sha256 : String) (fragment : L) (event : Fields N)
      → IsSealed format index timestamp previous
          (recovery_event plan_sha256 (format.sha256 fragment) (format.byte_count fragment))
          event
      → IsRecovery plan_sha256 fragment event
  sealed-IsRecovery index timestamp previous plan_sha256 fragment event s = record {
    event_name = s.values "event";
    plan = s.values "plan_sha256";
    stage = s.values "stage_id";
    kind = s.values "kind";
    attempt = s.values "attempt";
    inputs = s.values "input_hashes";
    outputs = s.values "output_hashes";
    predecessor = s.values "predecessor_state_hash";
    details = s.values "details";
  }

  no_lines :
      (events : List (Fields N))
      → read_file format (record { lines = []; fragment = none }) ≡ ok events
      → ⊥
  unfolding read_file
  no_lines events h = cc

  keep_fragment_new :
      (fragment : L) (quarantine : Dict String L)
      → get (quarantine_path (format.sha256 fragment)) quarantine ≡ none
      → keep_fragment format fragment quarantine
        ≡ ok (put (quarantine_path (format.sha256 fragment)) fragment quarantine)
  unfolding keep_fragment
  keep_fragment_new fragment quarantine new = rw (new, keep_fragment) refl

  keep_fragment_again :
      (fragment old : L) (quarantine : Dict String L)
      → get (quarantine_path (format.sha256 fragment)) quarantine ≡ some old
      → format.sha256 old ≡ format.sha256 fragment
      → keep_fragment format fragment quarantine ≡ ok quarantine
  unfolding keep_fragment
  keep_fragment_again fragment old quarantine there same =
      rw (there, keep_fragment, same, ==_refl (format.sha256 fragment)) refl

  -- Where the fragment can be kept, the journal is recovered.
  recover_torn_tail_kept :
      (laws : IsLawful format) (timestamp plan_sha256 : String) (lines : List L) (fragment : L)
      (quarantine kept : Dict String L) (events : List (Fields N))
      → read_file format (record { lines = lines; fragment = none }) ≡ ok events
      → keep_fragment format fragment quarantine ≡ ok kept
      → (journal : File L) × (event : Fields N) × (gs : Fields N) × (recover_torn_tail format
            timestamp plan_sha256
            (record {
              journal = record { lines = lines; fragment = some fragment };
              quarantine = quarantine;
            })
          ≡ ok (record { journal = journal; quarantine = kept }, some event))
        × IsRecovery plan_sha256 fragment event
        × (read_file format journal ≡ ok (events ++ gs ∷ []))
        × Reads format event gs
  unfolding recover_torn_tail
  recover_torn_tail_kept laws timestamp plan_sha256 [] fragment quarantine kept events h keep =
      absurd (no_lines events h)
  recover_torn_tail_kept laws timestamp plan_sha256 (line ∷ lines) fragment quarantine kept events h
        keep =
      let hash = format.sha256 fragment in
      let body = recovery_event plan_sha256 hash (format.byte_count fragment) in
      let prefix : File L = record { lines = line ∷ lines; fragment = none } in
      let (journal, sealed, gs, appended, values, reads, same) =
        read_file-append format laws timestamp body (some prefix) events
          (recovery_event-IsFree plan_sha256 hash (format.byte_count fragment))
          (recovery_event_finite laws plan_sha256 hash (format.byte_count fragment)) h in
      (
        journal,
        sealed,
        gs,
        bind_ok (read_file format prefix) _ h (
            bind_ok (keep_fragment format fragment quarantine) _ keep
              (bind_ok (append format timestamp body (some prefix)) _ appended refl)),
        sealed-IsRecovery (length events) timestamp (last_hash format zero_hash events) plan_sha256
            fragment sealed values,
        reads,
        same,
      )

  -- Under the laws of the JSON format: where the terminated lines of a journal can be read and no fragment is
  -- quarantined under the name of the fragment after them, `recover_torn_tail` quarantines the fragment under
  -- that name and appends an event that names the plan, the hash and the number of bytes of the fragment and
  -- where it is quarantined. The journal is then read as the events of those lines and that event as it is
  -- read back.
  pub recover_torn_tail-torn :
      (laws : IsLawful format) (timestamp plan_sha256 : String) (lines : List L) (fragment : L)
      (quarantine : Dict String L) (events : List (Fields N))
      → read_file format (record { lines = lines; fragment = none }) ≡ ok events
      → get (quarantine_path (format.sha256 fragment)) quarantine ≡ none
      → (disk : Disk L) × (event : Fields N) × (gs : Fields N) × (recover_torn_tail format timestamp
            plan_sha256
            (record {
              journal = record { lines = lines; fragment = some fragment };
              quarantine = quarantine;
            })
          ≡ ok (disk, some event))
        × IsRecovery plan_sha256 fragment event
        × (read_file format disk.journal ≡ ok (events ++ gs ∷ []))
        × Reads format event gs
        × (get (quarantine_path (format.sha256 fragment)) disk.quarantine ≡ some fragment)
  recover_torn_tail-torn laws timestamp plan_sha256 lines fragment quarantine events h new =
      let path = quarantine_path (format.sha256 fragment) in
      let (journal, event, gs, recovered, is_recovery, reads, same) =
        recover_torn_tail_kept laws timestamp plan_sha256 lines fragment quarantine
          (put path fragment quarantine) events h (keep_fragment_new fragment quarantine new) in
      (
        record { journal = journal; quarantine = put path fragment quarantine },
        event,
        gs,
        recovered,
        is_recovery,
        reads,
        same,
        get-put_self path fragment quarantine,
      )

  -- Under the laws of the JSON format: where the terminated lines of a journal can be read and a fragment with
  -- the hash of the one after them is quarantined under its name already, as an interrupted recovery leaves
  -- it, `recover_torn_tail` does not raise. It leaves the quarantine as it is, and appends the event of the
  -- recovery of the fragment. The journal is then read as the events of those lines and that event as it is
  -- read back.
  pub recover_torn_tail_again :
      (laws : IsLawful format) (timestamp plan_sha256 : String) (lines : List L) (fragment old : L)
      (quarantine : Dict String L) (events : List (Fields N))
      → read_file format (record { lines = lines; fragment = none }) ≡ ok events
      → get (quarantine_path (format.sha256 fragment)) quarantine ≡ some old
      → format.sha256 old ≡ format.sha256 fragment
      → (journal : File L) × (event : Fields N) × (gs : Fields N) × (recover_torn_tail format
            timestamp plan_sha256
            (record {
              journal = record { lines = lines; fragment = some fragment };
              quarantine = quarantine;
            })
          ≡ ok (record { journal = journal; quarantine = quarantine }, some event))
        × IsRecovery plan_sha256 fragment event
        × (read_file format journal ≡ ok (events ++ gs ∷ []))
        × Reads format event gs
  recover_torn_tail_again laws timestamp plan_sha256 lines fragment old quarantine events h there
        same =
      recover_torn_tail_kept laws timestamp plan_sha256 lines fragment quarantine quarantine events
        h (keep_fragment_again fragment old quarantine there same)
