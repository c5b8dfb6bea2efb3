-- ===== src/Campaign/Files.antt =====
-- What the runner reads of a campaign's directory: the files of an artifact, its binding, and the sealed result
-- of a stage, with the paths that are allowed.
use shapleymcg.Common.{
  ℕ, String, Bool, true, false, not, ◌&&◌, ◌||◌, Option, none, some, List, [], ◌∷◌, ◌++◌, map,
  length, any, ◌==◌, string_keys, if◌then◌else◌, str_ltb,
}
use shapleymcg.Common.Json.{
  Numbers, Json, boolean, number, text, array, object, Fields, end, field, get_field, get_or_null,
  del_field, is_text, as_mapping, of_items, same_json, all_fields_finite,
}
use shapleymcg.Common.Result.{Result, ok, err, or_raise, ◌>>=◌, ◌>>◌, raise_if}
use shapleymcg.Common.Sort.{sorted}
use shapleymcg.Common.Texts.{starts_with}
use shapleymcg.Campaign.Journal.{Format, require_hash}

-- The exceptions of a replay, by what raises them.
pub data RunnerError : Type 0 where
  missing_key : String → RunnerError
  wrong_type unhashable invalid_hash seal_mismatch not_serializable not_finite : RunnerError
  not_relative unsafe_path runner_receipt symlinked escapes_root : RunnerError
  not_a_directory unsupported_entry file_not_found unreadable : RunnerError
  invalid_result_schema other_request payload_differs : RunnerError
  gate_missing gate_fields gate_flag gate_number gate_contradiction : RunnerError
  gate_files gate_file_missing gate_file_hash gate_teacher gate_reference gate_dependencies
        gate_kind :
      RunnerError
  causal_predecessor causal_layer causal_kind : RunnerError
  prefix_order prefix_completion prefix_chain prefix_seal prefix_state : RunnerError
  recovery_binding no_allocation_stage : RunnerError

-- An entry of a directory: a file has its size and its hash.
pub data Node : Type 0 where
  link folder other : Node
  file : ℕ → String → Node

-- What the runner calls: JSON and hashes, `pathlib` with the file system under it, and `dict(value)` of a value
-- that is not a mapping. A path is of the type `P`.
pub record System (N L P : Type 0) : Type 0 where
  pub format : Format N L
  pub parts : String → List String
  pub name : String → String
  pub as_posix : String → String
  pub root : P
  pub child : P → String → P
  pub same_path : P → P → Bool
  pub is_symlink : P → Bool
  pub is_inside : P → P → Bool
  pub exists : P → Bool
  pub is_dir : P → Bool
  pub is_file : P → Bool
  pub size : P → ℕ
  pub sha256_file : P → String
  pub walk : P → List (String × Node)
  pub read_json : P → Option (Json N)
  pub dict_of_pairs : Json N → Option (Fields N)

-- A file of an artifact: a row of `entries`.
pub record Entry (N : Type 0) : Type 0 where
  pub path : String
  pub bytes : N
  pub sha256 : String

pub data Bound (N : Type 0) : Type 0 where
  bound_file : Bound N
  bound_directory : List (Entry N) → Bound N

-- the runner's own file in the directory of an artifact
abbrev pub receipt_name : String
receipt_name = ".runner-result.json"

abbrev pub result_schema : String
result_schema = "quant-pipeline.campaign-stage-result.v1"

-- `value[key]`
abbrev pub item_of : {N : Type 0} → String → Json N → Result RunnerError (Json N)
item_of key (object fs) = or_raise (get_field key fs) (missing_key key)
item_of key _ = err wrong_type

-- `value.get(...)` is a mapping's
abbrev pub mapping : {N : Type 0} → Json N → Result RunnerError (Fields N)
mapping v = or_raise (as_mapping v) wrong_type

-- `int(value)`
abbrev pub int_of : {N : Type 0} → ⦃n : Numbers N⦄ → Json N → Result RunnerError N
int_of ⦃n⦄ (number x) = or_raise (n.truncate x) wrong_type
int_of ⦃n⦄ (boolean true) = ok (n.of_nat 1)
int_of ⦃n⦄ (boolean false) = ok (n.of_nat 0)
int_of ⦃n⦄ (text s) = or_raise (n.parse_int s) wrong_type
int_of _ = err wrong_type

module _ {N L P : Type 0} ⦃n : Numbers N⦄ (system : System N L P) where
  -- `_safe_relative_file`
  abbrev pub safe_relative_file : Json N → Result RunnerError String
  safe_relative_file (text value) = do
    raise_if (value == "" || starts_with "/" value) not_relative
    raise_if (any (λ part. part == "" || part == "." || part == "..") (system.parts value))
        unsafe_path
    raise_if (starts_with ".runner-" (system.name value)) runner_receipt
    ok (system.as_posix value)
  safe_relative_file _ = err not_relative

  -- the loop over the components of a path
  abbrev pub check_parts : P → List String → Result RunnerError (Unit {0})
  check_parts current [] = ok tt
  check_parts current (part ∷ parts) =
      raise_if (system.is_symlink (system.child current part)) symlinked
      >> check_parts (system.child current part) parts

  -- `_confined_path`
  unfoldable pub confined_path : P → String → Result RunnerError P
  confined_path root relative = do
    raise_if (system.is_symlink root) symlinked
    check_parts root (system.parts relative)
    raise_if (not (system.is_inside root (system.child root relative))) escapes_root
    ok (system.child root relative)

  -- the loop of `_tree_entries`
  abbrev pub entries_of : List (String × Node) → Result RunnerError (List (Entry N))
  entries_of [] = ok []
  entries_of ((path, link) ∷ nodes) = err symlinked
  entries_of ((path, folder) ∷ nodes) = entries_of nodes
  entries_of ((path, other) ∷ nodes) = err unsupported_entry
  entries_of ((path, file size hash) ∷ nodes) = do
    entries ← entries_of nodes
    ok (record { path = path; bytes = n.of_nat size; sha256 = hash } ∷ entries)

  -- `_tree_entries`
  unfoldable pub tree_entries : P → Result RunnerError (List (Entry N))
  tree_entries root =
      raise_if (not (system.is_dir root)) not_a_directory >> entries_of (system.walk root)

  -- `bind_path`: the kind and the entries of what is there
  unfoldable pub bind_path : P → Result RunnerError (Bound N)
  unfolding tree_entries
  bind_path target = do
    raise_if (not (system.exists target)) file_not_found
    raise_if (system.is_symlink target) symlinked
    if system.is_file target
        then ok bound_file
        else if system.is_dir target
        then (tree_entries target >>= λ entries. ok (bound_directory entries))
        else err unsupported_entry

  abbrev pub entry_json : Entry N → Json N
  entry_json row = object (
      field "path" (text row.path)
        (field "bytes" (number row.bytes) (field "sha256" (text row.sha256) end)))

  abbrev pub entries_json : List (Entry N) → Json N
  entries_json rows = array (of_items (map entry_json rows))

  -- `sha256_bytes(canonical_json(value))`
  abbrev pub hash_json : Json N → Result RunnerError String
  hash_json value = or_raise (system.format.canonical value) not_serializable >>= λ line.
      ok (system.format.sha256 line)

  abbrev pub total_bytes : List (Entry N) → N
  total_bytes [] = n.of_nat 0
  total_bytes (row ∷ rows) = n.add row.bytes (total_bytes rows)

  abbrev pub path_lt : Entry N → Entry N → Bool
  path_lt a b = str_ltb a.path b.path

  abbrev pub find_entry : String → List (Entry N) → Option (Entry N)
  find_entry path [] = none
  find_entry path (row ∷ rows) = if row.path == path then some row else find_entry path rows

  -- a row of the files that were retired
  abbrev pub retired_entry : Json N → Result RunnerError (Entry N)
  retired_entry raw = do
    path ← item_of "path" raw >>= safe_relative_file
    bytes ← item_of "bytes" raw >>= int_of
    value ← item_of "sha256" raw
    hash ← require_hash (some value) invalid_hash
    ok (record { path = path; bytes = bytes; sha256 = hash })

  abbrev pub same_entry : Entry N → Entry N → Bool
  same_entry a b = a.path == b.path && n.same_number a.bytes b.bytes && a.sha256 == b.sha256

  -- the loop over the files that were retired: those that are not there, or none where one that is there
  -- differs
  abbrev pub restore :
      (Entry N → Bool)
      → List (Entry N)
      → List (Json N)
      → Result RunnerError (Option (List (Entry N)))
  restore refuse current [] = ok (some [])
  restore refuse current (raw ∷ retired) = do
    row ← retired_entry raw
    let rest = restore refuse current retired
    if refuse row then ok none else elim (find_entry row.path current) [
      | some there ↦ if same_entry there row then rest else ok none
      | none ↦ rest >>= λ rows. ok (elim rows [ none ↦ none | some rows ↦ some (row ∷ rows) ])
    ]

  -- `_stage_payload_matches`
  unfoldable pub stage_payload_matches : P → Json N → List (Json N) → Result RunnerError Bool
  unfolding tree_entries sorted same_json
  stage_payload_matches path expected retired = do
    all_rows ← tree_entries path
    let current = without_receipt all_rows
    restored ← restore (λ row. false) current retired
    elim restored [
      | none ↦ ok false
      | some rows ↦ do
        let entries = sorted path_lt (current ++ rows)
        hash ← hash_json (entries_json entries)
        ok (
            same_json
              (object (
                field "entries" (entries_json entries) (
                  field "file_count" (number (n.of_nat (length entries))) (
                    field "bytes" (number (total_bytes entries))
                      (field "sha256" (text hash) end)))))
              expected)
    ]
    where
      without_receipt : List (Entry N) → List (Entry N)
      without_receipt [] = []
      without_receipt (row ∷ rows) =
          let rest = without_receipt rows in if row.path == receipt_name then rest else row ∷ rest

  -- `_artifact_matches_with_retirements`
  unfoldable pub artifact_matches_with_retirements :
      P → P → Fields N → List (Json N) → Result RunnerError Bool
  unfolding confined_path bind_path sorted same_json
  artifact_matches_with_retirements path root expected retired = do
    relative ← safe_relative_file (get_or_null "path" expected)
    confined ← confined_path root relative
    if not (system.same_path path confined)
        then ok false
        else bind_path path >>= λ bound. elim bound [
          | bound_file ↦ ok false
          | bound_directory current ↦ do
            restored ← restore (λ row. n.less row.bytes (n.of_nat 0)) current retired
            elim restored [
              | none ↦ ok false
              | some rows ↦ do
                let entries = sorted path_lt (current ++ rows)
                hash ← hash_json (entries_json entries)
                ok (
                    same_json
                      (object (
                        field "path" (text relative) (
                          field "artifact_sha256" (text hash) (
                            field "bytes" (number (total_bytes entries))
                              (field "file_count" (number (n.of_nat (length entries))) end)))))
                      (object expected))
            ]
        ]

  -- `_verify_seal`
  unfoldable pub verify_seal : Fields N → String → Result RunnerError String
  verify_seal document key = do
    expected ← require_hash (get_field key document) invalid_hash
    actual ← hash_json (object (del_field key document))
    raise_if (not (actual == expected)) seal_mismatch
    ok expected

  -- `dict(value)`
  abbrev pub dict_of : Json N → Result RunnerError (Fields N)
  dict_of (object fs) = ok fs
  dict_of v = or_raise (system.dict_of_pairs v) wrong_type

  -- `StageResult(dict(value))`, which is its metadata
  abbrev pub stage_result : Json N → Result RunnerError (Fields N)
  stage_result value = do
    metadata ← dict_of value
    raise_if (not (all_fields_finite metadata)) not_finite
    ok metadata

  -- `_read_stage_result`
  unfoldable pub read_stage_result : P → Json N → List (Json N) → Result RunnerError (Fields N)
  unfolding verify_seal stage_payload_matches same_json all_fields_finite
  read_stage_result path expected_request_sha256 retired = do
    raw ← or_raise (system.read_json (system.child path receipt_name)) unreadable
    receipt ← mapping raw
    raise_if (not (is_text (get_or_null "schema" receipt) result_schema)) invalid_result_schema
    seal ← verify_seal receipt "receipt_sha256"
    raise_if (not (same_json (get_or_null "request_sha256" receipt) expected_request_sha256))
        other_request
    payload ← or_raise (as_mapping (get_or_null "payload_binding" receipt)) payload_differs
    matches ← stage_payload_matches path (object payload) retired
    raise_if (not matches) payload_differs
    metadata ← item_of "metadata" (object receipt)
    stage_result metadata
