-- ===== src/Campaign/Tests.antt =====
-- Runs of the campaign's code on small inputs, and its theorems at those inputs. A line of the journal is the
-- JSON value itself, every number is natural, and every hash is one text.
pub mod Trees
pub mod Runs
use shapleymcg.Common.{
  ℕ, ◌≡◌, ◌≤◌, ◌↔◌, refl, sym, ap, ◌∙◌, String, Bool, true, false, ◌&&◌, Option, none, some, List,
  [], ◌∷◌, ◌++◌, nat_eq, ltb, ◌+◌, length, map, string_keys, arith, ◌∈◌, All, All-cons, Memᴰ, ◌⊎◌,
  if◌then◌else◌, Bool-cases, inl, inr,
}
use shapleymcg.Common.Dict.{Dict, get, put, add_key}
use shapleymcg.Common.Json.{
  Numbers, Json, is_text, get_or_null, mapping_or_empty, null, boolean, number, text, array, object,
  Fields, end, field, get_field, is_finite_json, all_fields_finite,
}
use shapleymcg.Common.Result.{ok, err}
use shapleymcg.Common.Texts.{is_sha256}
use shapleymcg.Campaign.Definition.{
  CampaignDefinition, ratio, equals, validate, layers_not_increasing,
}
use shapleymcg.Campaign.Definition.Valid.{IsValid, validate-IsValid}
use shapleymcg.Campaign.Stages.{build_stages, three_digits}
use shapleymcg.Campaign.Stages.Order.{IsOrdered, build_stages-IsOrdered}
use shapleymcg.Campaign.Stages.Blocks.{blocks, concat, IsBlock, build_stages-blocks}
use shapleymcg.Campaign.Stages.OneBlock.{build_stages_one_block}
use shapleymcg.Campaign.Journal.{
  Format, File, Disk, zero_hash, append, read_file, recover_torn_tail, quarantine_path, last_hash,
}
use shapleymcg.Campaign.Journal.Laws.{Reads, ReadsBack, IsLawful}
use shapleymcg.Campaign.Journal.Sealed.{IsFree, IsSealed}
use shapleymcg.Campaign.Journal.Append.{history, read_file-append}
use shapleymcg.Campaign.Journal.Recovery.{
  IsRecovery, recover_torn_tail-torn, recover_torn_tail_again,
}
use shapleymcg.Campaign.Journal.Chain.{bodies, Collision, last_hash_binds}
use shapleymcg.Campaign.Tests.Trees.{json_lines, same_tree}

abbrev definition : CampaignDefinition
definition = record {
  experiment_spec = "experiment.json";
  inputs = ("source_checkpoint", "model") ∷ [];
  layers = 3 ∷ 4 ∷ 5 ∷ [];
  reanchor_every_layers = ratio 2 0;
  reanchor_failure_policy = "rollback";
  retention_mode = "full";
  max_generations = 8;
  schema = "quant-pipeline.campaign-definition.v1";
}

accepted : validate definition ≡ ok tt
unfolding validate add_key
accepted = refl

refused : validate (record definition { layers = 4 ∷ 3 ∷ [] }) ≡ err layers_not_increasing
unfolding validate add_key
refused = refl

padded : three_digits 42 ≡ "042"
unfolding three_digits
padded = refl

two_blocks : blocks (build_stages definition) ≡ (3 ∷ 4 ∷ []) ∷ (5 ∷ []) ∷ []
unfolding build_stages
two_blocks = refl

validate-IsValid_example : (validate definition ≡ ok tt) ↔ IsValid definition
validate-IsValid_example = validate-IsValid definition

build_stages-IsOrdered_example : IsOrdered [] (build_stages definition)
build_stages-IsOrdered_example = build_stages-IsOrdered definition

build_stages-blocks_example :
    (concat (blocks (build_stages definition)) ≡ 3 ∷ 4 ∷ 5 ∷ [])
    × All (IsBlock 2) (blocks (build_stages definition))
    × (1 ≤ 2)
    × (2 ≤ 4)
build_stages-blocks_example = build_stages-blocks definition 2 accepted refl

-- The interval 2.5, of six layers.
abbrev half : CampaignDefinition
half = record definition { layers = 3 ∷ 4 ∷ 5 ∷ 6 ∷ 7 ∷ 8 ∷ []; reanchor_every_layers = ratio 5 1 }

half_accepted : validate half ≡ ok tt
unfolding validate add_key
half_accepted = refl

never_half : (m : ℕ) → equals m (ratio 5 1) ≡ false
never_half m = ground arith

build_stages_one_block_example : blocks (build_stages half) ≡ (3 ∷ 4 ∷ 5 ∷ 6 ∷ 7 ∷ 8 ∷ []) ∷ []
build_stages_one_block_example = build_stages_one_block half half_accepted never_half

instance abbrev naturals : Numbers ℕ
naturals = record {
  of_nat = λ i. i;
  minus_one = 0;
  same_number = nat_eq;
  less = ltb;
  add = λ i j. i + j;
  is_finite_number = λ i. true;
  is_int = λ i. true;
  to_nat = some;
  to_float = some;
  truncate = some;
  parse_int = λ s. none;
}

none-ne-some {ℓ} : {A : Type ℓ} {a : A} → none ≡ some a → ⊥
none-ne-some h = cc

abbrev format : Format ℕ (Json ℕ)
format = record {
  canonical = λ v. if is_finite_json v then some v else none;
  loads = some;
  sha256 = λ l. zero_hash;
  byte_count = λ l. 7;
}

written_finite : (v l : Json ℕ) → format.canonical v ≡ some l → (is_finite_json v ≡ true) × (v ≡ l)
written_finite v l h = elim (Bool-cases (is_finite_json v)) [
  | inl e ↦ (e, cc (rw e at h))
  | inr e ↦ absurd (none-ne-some (rw e at h))
]

-- Whatever the hash is, what was written is read back.
reads_back : (sha256 : Json ℕ → String) → ReadsBack (record format { sha256 = sha256 })
reads_back sha256 fs l h =
    let (finite, same) = written_finite (object fs) l h in
    (
      fs,
      ap some (sym same),
      h,
      record {
        texts = λ k s e. e;
        numbers = λ k x e. e;
        without = λ k. refl;
        written = refl;
        finite = finite;
      },
    )

format-IsLawful : IsLawful format
format-IsLawful = record {
  same_nat = λ i. ground arith;
  finite_nat = λ i. refl;
  writes = λ v h. (v, rw h refl);
  reads = reads_back (λ l. zero_hash);
  hashes = λ l. unfold is_sha256 in refl;
}

abbrev planned : Fields ℕ
planned = field "event" (text "campaign_planned") end

planned-IsFree : IsFree planned
planned-IsFree = record {
  no_schema = refl;
  no_index = refl;
  no_timestamp = refl;
  no_previous = refl;
  no_hash = refl;
  unique = (refl, tt);
}

planned_finite : all_fields_finite planned ≡ true
unfolding is_finite_json
planned_finite = refl

read_file-append_example :
    (journal : File (Json ℕ)) × (sealed : Fields ℕ) × (gs : Fields ℕ) × (append format "now" planned
        none
      ≡ ok (journal, sealed))
    × IsSealed format 0 "now" zero_hash planned sealed
    × (read_file format journal ≡ ok ([] ++ gs ∷ []))
    × Reads format sealed gs
read_file-append_example =
    read_file-append format format-IsLawful "now" planned none [] planned-IsFree planned_finite refl

abbrev planned_line : Fields ℕ
planned_line = field "schema" (text "quant-pipeline.campaign-event.v1") (
    field "event_index" (number 0) (
      field "timestamp" (text "now") (
        field "previous_event_sha256" (text zero_hash)
          (field "event" (text "campaign_planned") (field "event_sha256" (text zero_hash) end)))))

abbrev one_event : File (Json ℕ)
one_event = record { lines = object planned_line ∷ []; fragment = none }

one_event_read : read_file format one_event ≡ ok (planned_line ∷ [])
unfolding read_file same_tree
one_event_read = refl

recover_torn_tail-torn_example :
    (disk : Disk (Json ℕ)) × (event : Fields ℕ) × (gs : Fields ℕ) × (recover_torn_tail format
        "later" zero_hash
        (record {
          journal = record { lines = one_event.lines; fragment = some null };
          quarantine = [];
        })
      ≡ ok (disk, some event))
    × IsRecovery format zero_hash null event
    × (read_file format disk.journal ≡ ok (planned_line ∷ gs ∷ []))
    × Reads format event gs
    × (get (quarantine_path zero_hash) disk.quarantine ≡ some null)
unfolding get
recover_torn_tail-torn_example =
    recover_torn_tail-torn format format-IsLawful "later" zero_hash one_event.lines null []
      (planned_line ∷ []) one_event_read refl

abbrev other_hash : String
other_hash = "1111111111111111111111111111111111111111111111111111111111111111"

recover_torn_tail_again_example :
    (journal : File (Json ℕ)) × (event : Fields ℕ) × (gs : Fields ℕ) × (recover_torn_tail format
        "later" zero_hash
        (record {
          journal = record { lines = one_event.lines; fragment = some null };
          quarantine = (quarantine_path zero_hash, null) ∷ [];
        })
      ≡ ok (
        record { journal = journal; quarantine = (quarantine_path zero_hash, null) ∷ [] },
        some event,
      ))
    × IsRecovery format zero_hash null event
    × (read_file format journal ≡ ok (planned_line ∷ gs ∷ []))
    × Reads format event gs
unfolding get
recover_torn_tail_again_example =
    recover_torn_tail_again format format-IsLawful "later" zero_hash one_event.lines null null
      ((quarantine_path zero_hash, null) ∷ []) (planned_line ∷ []) one_event_read refl refl

-- The hash tells the time "later" from all else, and nothing more.
abbrev hash_of_time : Json ℕ → String
hash_of_time l =
    if is_text (get_or_null "timestamp" (mapping_or_empty l)) "later" then other_hash else zero_hash

abbrev timed : Format ℕ (Json ℕ)
timed = record format { sha256 = hash_of_time }

abbrev event_at : ℕ → String → String → String → Fields ℕ
event_at index time previous hash = field "schema" (text "quant-pipeline.campaign-event.v1") (
    field "event_index" (number index) (
      field "timestamp" (text time) (
        field "previous_event_sha256" (text previous)
          (field "event" (text "campaign_planned") (field "event_sha256" (text hash) end)))))

-- Two journals of two events. The first events differ, and so the second are bound to different hashes.
abbrev early_events : List (Fields ℕ)
early_events = event_at 0 "now" zero_hash zero_hash ∷ event_at 1 "now" zero_hash zero_hash ∷ []

abbrev late_events : List (Fields ℕ)
late_events = event_at 0 "later" zero_hash other_hash ∷ event_at 1 "now" other_hash zero_hash ∷ []

abbrev file_of : List (Fields ℕ) → File (Json ℕ)
file_of events = record { lines = map object events; fragment = none }

early_read : read_file timed (file_of early_events) ≡ ok early_events
unfolding read_file same_tree
early_read = refl

late_read : read_file timed (file_of late_events) ≡ ok late_events
unfolding read_file same_tree
late_read = refl

last_hash_binds_example :
    (bodies timed early_events ≡ bodies timed late_events)
    ⊎ Collision timed early_events late_events
last_hash_binds_example =
    last_hash_binds timed (reads_back hash_of_time) (file_of early_events) (file_of late_events)
      early_events late_events early_read late_read refl refl
