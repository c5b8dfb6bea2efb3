-- ===== src/Corpus/Tests.antt =====
-- Runs of the corpus code on small inputs, and its theorems at those inputs. A value of a row is a string,
-- a digest is the text itself, a token is a character's code, and the shuffle leaves its list alone.
use Prim.Native.Char.{code}
use Prim.Native.String.{[] as nil, ◌∷◌ as cons}
use shapleymcg.Common.{
  some, false, map, ◌<◌, All, All-cons, ℕ, ◌≡◌, refl, String, Bool, List, [], ◌∷◌, arith, Memᴰ,
  ◌==◌, string_keys, min, length,
}
use shapleymcg.Common.Dict.{Dict, get, put, add_key}
use shapleymcg.Common.Result.{ok, err}
use shapleymcg.Common.Sums.{how_many}
use shapleymcg.Corpus.Documents.{Document, read_documents, duplicate_document}
use shapleymcg.Corpus.Split.{fit, conditional_fit, document_split}
use shapleymcg.Corpus.Split.Balance.{IsEven, document_split-IsEven}
use shapleymcg.Corpus.Split.Partition.{in_roles, document_split_partition, document_split_no_leak}
use shapleymcg.Corpus.Split.{roles}
use shapleymcg.Corpus.Documents.{count_mismatch}
use shapleymcg.Corpus.Seal.{
  Runtime, SealedCorpus, any_meet, windows_of, document_ids, limit_of, role_windows, body_of,
  sealed, seal_corpus, verify_sealed_corpus,
}
use shapleymcg.Corpus.Seal.Roundtrip.{verify_sealed_corpus-seal_corpus}
use shapleymcg.Corpus.Seal.Apart.{seal_corpus_apart}
use shapleymcg.Corpus.Windows.{Window, build_windows}
use shapleymcg.Corpus.Windows.Total.{full_windows, build_windows-length}

abbrev row : String → String → Dict String String
row id text = ("id", id) ∷ ("domain", "prose") ∷ ("text", text) ∷ []

abbrev parse : String → Dict String String
parse line = row line "abcde"

abbrev blank : String → Bool
blank line = line == ""

abbrev itself : String → String
itself text = text

abbrev document : String → Document
document id = record { id = id; domain = "prose"; text = "abcde" }

abbrev pair : List Document
pair = document "b" ∷ document "a" ∷ []

reads : read_documents parse itself blank ("b" ∷ "" ∷ "a" ∷ []) ≡ ok pair
unfolding read_documents get
reads = refl

repeats : read_documents parse itself blank ("b" ∷ "b" ∷ []) ≡ err (duplicate_document "b")
unfolding read_documents get
repeats = refl

first_role : document_split itself "7" pair fit ≡ document "a" ∷ []
unfolding document_split get put
first_role = refl

second_role : document_split itself "7" pair conditional_fit ≡ document "b" ∷ []
unfolding document_split get put
second_role = refl

document_split_partition_example :
    in_roles (λ d. d.id == "a") (document_split itself "7" pair)
    ≡ how_many (λ (d : Document). d.id == "a") pair
document_split_partition_example = document_split_partition (λ d. d.id == "a") itself "7" pair

document_split_no_leak_example : fit ≡ fit
document_split_no_leak_example =
    document_split_no_leak parse itself blank itself "7" ("b" ∷ "" ∷ "a" ∷ []) pair fit fit
      (document "a") (document "a") reads (rw first_role (Memᴰ.head refl))
      (rw first_role (Memᴰ.head refl)) refl

abbrev codes : String → List ℕ
codes nil = []
codes (cons c s) = code c ∷ codes s

abbrev hash : List ℕ → String
hash tokens = "hash"

abbrev keep : ℕ → List (Window ℕ) → ℕ × List (Window ℕ)
keep generator windows = (generator, windows)

-- each of the documents has two full windows of two tokens
abbrev window : String → ℕ → List ℕ → Window ℕ
window id offset tokens = record {
  document_id = id;
  domain = "prose";
  offset = offset;
  token_ids = tokens;
  token_sha256 = "hash";
}

three_windows :
    build_windows codes hash keep pair 2 3 0
    ≡ ok (
        window "a" 2 (99 ∷ 100 ∷ [])
        ∷ window "a" 0 (97 ∷ 98 ∷ [])
        ∷ window "b" 2 (99 ∷ 100 ∷ [])
        ∷ [])
unfolding build_windows get put
three_windows = refl

build_windows-length_example :
    (windows : List (Window ℕ)) × (build_windows codes hash keep pair 2 3 0 ≡ ok windows)
    × (length windows ≡ min 3 (full_windows codes hash 2 pair))
build_windows-length_example =
    build_windows-length codes hash 2 keep pair 3 0 (λ g ws. refl) (omega arith)

-- The seal of a body is a fixed text, and a source is a text.
abbrev runtime : Runtime String ℕ ℕ String
runtime = record {
  loads = parse;
  str = itself;
  is_blank = blank;
  sha256 = itself;
  show_seed = λ seed. "7";
  random = λ seed. seed;
  shuffle = keep;
  token_hash = hash;
  seal_of = λ body. "seal";
}

abbrev limits : Dict String ℕ
limits =
    ("fit", 1) ∷ ("conditional_fit", 1) ∷ ("selection", 1) ∷ ("confirmation", 1) ∷ ("final", 1) ∷ []

abbrev lines : List String
lines = "a" ∷ "b" ∷ "c" ∷ "d" ∷ "e" ∷ []

abbrev each_window : Dict String (List (Window ℕ))
each_window =
    ("fit", window "a" 2 (99 ∷ 100 ∷ []) ∷ [])
    ∷ ("conditional_fit", window "b" 2 (99 ∷ 100 ∷ []) ∷ [])
    ∷ ("selection", window "c" 2 (99 ∷ 100 ∷ []) ∷ [])
    ∷ ("confirmation", window "d" 2 (99 ∷ 100 ∷ []) ∷ [])
    ∷ ("final", window "e" 2 (99 ∷ 100 ∷ []) ∷ [])
    ∷ []

abbrev artifact : SealedCorpus ℕ String
artifact =
    sealed runtime codes 2 limits 7
      (body_of runtime codes 2 limits 7 "tokenizer" "source" 1 each_window)

seals : seal_corpus runtime codes 2 limits 7 lines "tokenizer" "source" 1 ≡ ok artifact
unfolding seal_corpus get put add_key
seals = refl

-- a window that is changed after the sealing is found out
abbrev tampered : SealedCorpus ℕ String
tampered = record {
  body = record artifact.body { windows = ("fit", []) ∷ each_window };
  seal_sha256 = some "seal";
}

found_out : verify_sealed_corpus runtime tampered ≡ err (count_mismatch "fit")
unfolding verify_sealed_corpus get put add_key
found_out = refl

limits-positive : All (λ r. 0 < limit_of limits r) roles
unfolding limit_of get
limits-positive = All-cons (omega arith) (
    All-cons (omega arith) (
      All-cons (omega arith)
        (All-cons (omega arith) (All-cons (omega arith) (λ x m. absurd (elim m [ ]))))))

verify_sealed_corpus-seal_corpus_example : verify_sealed_corpus runtime artifact ≡ ok tt
verify_sealed_corpus-seal_corpus_example =
    verify_sealed_corpus-seal_corpus runtime codes 2 limits 7 "tokenizer" "source" 1 lines artifact
      (λ g ws w m. m) (λ b. refl) limits-positive seals

abbrev five : List Document
five = document "a" ∷ document "b" ∷ document "c" ∷ document "d" ∷ document "e" ∷ []

five-read : read_documents parse itself blank lines ≡ ok five
unfolding read_documents get
five-read = refl

five-windows :
    role_windows runtime codes 2 limits 7 (document_split itself "7" five) 0 roles ≡ ok each_window
unfolding role_windows document_split get put
five-windows = refl

seal_corpus_apart_example :
    any_meet (map (λ r. document_ids (windows_of each_window r)) roles) ≡ false
seal_corpus_apart_example =
    seal_corpus_apart runtime codes 2 limits 7 (λ g ws w m. m) lines five each_window five-read
      five-windows

document_split-IsEven_example : IsEven "prose" (document_split itself "7" five)
document_split-IsEven_example = document_split-IsEven itself "7" "prose" five
