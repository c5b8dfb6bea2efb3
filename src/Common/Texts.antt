-- ===== src/Common/Texts.antt =====
-- Tests on texts.
use Prim.Native.Nat.{ℕ}
use Prim.Native.Char.{code}
use Prim.Native.String.{String, [] as nil, ◌∷◌ as cons}
use mathlib.Core.Bool.{Bool, true, false, ◌&&◌, ◌||◌}
use mathlib.Core.List.{List, [], ◌∷◌}
use shapleymcg.Common.Tests.{leb, nat_eq}
use shapleymcg.Common.Lists.{length, all}

abbrev pub code_points : String → List ℕ
code_points nil = []
code_points (cons c s) = code c ∷ code_points s

-- `[0-9a-f]`
abbrev pub is_hex_digit : ℕ → Bool
is_hex_digit c = leb b'0' c && leb c b'9' || leb b'a' c && leb c b'f'

-- `re.fullmatch(r"[0-9a-f]{64}", text)`
unfoldable pub is_sha256 : String → Bool
is_sha256 text = nat_eq (length (code_points text)) 64 && all is_hex_digit (code_points text)

-- `text.startswith(prefix)`
abbrev is_prefix : List ℕ → List ℕ → Bool
is_prefix [] cs = true
is_prefix (p ∷ ps) [] = false
is_prefix (p ∷ ps) (c ∷ cs) = nat_eq p c && is_prefix ps cs

unfoldable pub starts_with : String → String → Bool
starts_with prefix text = is_prefix (code_points prefix) (code_points text)
