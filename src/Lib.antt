-- ===== src/Lib.antt =====
-- Verification of ShapleyMCG (the Python package under src/quant_pipeline, with the R10 encoder under
-- reproducibility/r10): a pipeline that freezes its inputs, encodes low-bit candidates of each weight, scores
-- their damage, spends an exact byte budget on them and seals what it did.
--
-- Parts and files
--
-- - Common and the modules below it: Boolean tests, lists, dictionaries (Python's dict as an association
--   list in insertion order), stable sorting, nested loops, results that may be errors, and the interface
--   of floating-point numbers (Common/Double).
-- - Allocation: src/quant_pipeline/allocation/global_dp.py, the exact multiple-choice knapsack over payload
--   bytes. Allocation/Candidate has the records, Allocation/Staircase `pareto_frontier` and the pruning of
--   states, Allocation/Table, Round and Fill the table of states, one round of the two inner loops, and the
--   loop over the units, Allocation/GlobalDp `allocate` and `allocate_with_fixed_layer_cost`.
-- - Factory: src/quant_pipeline/candidates/factory_allocation.py. Factory/Metadata has the coupling metadata
--   of a candidate and its test, Factory/Frontier `_internal_frontier`, the private profiles of one
--   compatibility domain, which fills its table by the loop of Allocation/Fill.
-- - Corpus: src/quant_pipeline/calibration/windows.py. Corpus/Documents has `read_documents`, Corpus/Split
--   `document_split`, which deals the documents to the roles, Corpus/Windows `build_windows`, and Corpus/Seal
--   `seal_corpus` and `verify_sealed_corpus`. What the module calls of other packages is the record
--   Corpus/Seal.Runtime: `json.loads`, the tokenizer, the hashes and the random generator.
-- - Campaign: src/quant_pipeline/campaign/runner.py. Campaign/Definition has `CampaignDefinition` and its
--   `validate`, Campaign/Stages `_build_stages` with its blocks of layers in Blocks and
--   OneBlock, and Campaign/Journal `EventJournal`, whose file is the list of its terminated lines and the
--   fragment after them. Common/Json has the JSON values of the events, and
--   Campaign/Journal.Format the calls of the JSON encoder, the decoder and the hash; Campaign/Journal/Laws
--   says what is asked of them.
--   Campaign/Files and Campaign/Gates have what `_replay` calls: the paths that are allowed, the binding of
--   files, `_read_stage_result`, `_validate_gate`, `_validate_causal_result` and
--   `_installed_prefix_from_completed`. Campaign/Replay has the state of `_replay`, and the modules below it
--   the handlers of its events (Notices, Retirement, Generations, Runs, Decisions) and its Loop. Machine has
--   the abstract state machine of a campaign, Refines that the handlers move it, Invariants what it keeps,
--   Depends the order of the stages, and Gated where the gates of a plan stand. Campaign/Files.System is what
--   the runner calls of the standard library: JSON, hashes, `pathlib` and the file system.
--
-- How code corresponds to definitions. A function that raises returns a `Result`, whose error type has a
-- constructor for each `raise`. A loop is a recursion on the list that it runs through. Sizes and counts
-- are the natural numbers, so the source's tests on negative, Boolean or fractional sizes are types here. The
-- re-anchor interval, of which the source does not ask that it is whole, is Campaign/Definition.Interval, an
-- exact fraction.
-- Floats are a parameter: Common/Double.Double has the carrier, `+`, `<` and the laws of IEEE 754 that hold
-- of finite values and +inf, where rounding makes addition monotone and nothing more. Dictionaries are
-- read by the order of insertion, and `sorted` is a stable sort.
--
-- Fuel. The loops run through lists, but for two of `build_windows`: `range` has as many rounds as its end,
-- and the passes over the domains as many as the limit, since each pass takes a window or is the last.
--
-- Not modelled. A line of the journal is written whole: a short write, which raises an `OSError`, and the
-- locks and `fsync` of the file system are left out. A sealed corpus that lacks a key of its body, other than
-- `minimum_domains` and the seal, is no record here. The plan that `_replay` is given is one that
-- `create_plan` wrote, whose fields have their types and whose stages have different names; the failures that it
-- reports are values, not texts. Reading and writing files, JSON, hashing, the tokenizer
-- and the random generator are parameters. Encoding, capture, scoring and evaluation are tensor code on CUDA
-- and are left out, as are the scripts, which are I/O around the package, the rest of the campaign runner, the
-- candidate ledger, the checkpoint formats, `allocate_factory_union`, and the R10 encoder: no theorem here
-- speaks of them.
pub mod Common
pub mod Allocation
pub mod Factory
pub mod Corpus
pub mod Campaign
