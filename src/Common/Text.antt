-- ===== src/Common/Text.antt =====
-- The text patterns that the pydantic models share:
-- `^[A-Za-z0-9][A-Za-z0-9_\-\.]{0,127}$` and `^sha256:[0-9a-f]{64}$` (workflow/models.py).
use Prim.Native.Nat.{ℕ}
use Prim.Native.Char.{code}
use Prim.Native.String.{String}
use mathlib.Core.Bool.{Bool, false, ◌&&◌, ◌||◌}
use mathlib.Core.List.{List, [], ◌∷◌}
use nl2data_core.Common.Tests.{leb, ◌==◌}
use nl2data_core.Common.Lists.{length, all, take}

-- The code points of a text.
abbrev pub codes : String → List ℕ
codes String.[] = []
codes (String.◌∷◌ c s) = code c ∷ codes s

unfoldable pub is_digit : ℕ → Bool
is_digit c = leb b'0' c && leb c b'9'

pub is_alnum : ℕ → Bool
unfolding is_digit
is_alnum c = is_digit c || (leb b'A' c && leb c b'Z') || (leb b'a' c && leb c b'z')

is_identifier_char : ℕ → Bool
unfolding is_alnum
is_identifier_char c = is_alnum c || c == b'_' || c == b'-' || c == b'.'

-- A character of the keys of workflow/sqlite_store.py.
unfoldable pub is_key_char : ℕ → Bool
unfolding is_alnum is_identifier_char
is_key_char c = is_identifier_char c || c == b':'

identifier_codes : List ℕ → Bool
unfolding is_alnum is_identifier_char
identifier_codes [] = false
identifier_codes (c ∷ cs) = is_alnum c && all is_identifier_char cs && leb (length cs) 127

-- `_IDENTIFIER_PATTERN`.
unfoldable pub is_identifier : String → Bool
unfolding identifier_codes
is_identifier s = identifier_codes (codes s)

is_hex : ℕ → Bool
unfolding is_digit
is_hex c = is_digit c || (leb b'a' c && leb c b'f')

strip : List ℕ → List ℕ → List ℕ
strip [] s = s
strip (p ∷ ps) [] = []
strip (p ∷ ps) (c ∷ s) = strip ps s

same_codes : List ℕ → List ℕ → Bool
same_codes [] [] = Bool.true
same_codes (a ∷ xs) (b ∷ ys) = a == b && same_codes xs ys
same_codes _ _ = false

-- `_FINGERPRINT_PATTERN`.
unfoldable pub is_fingerprint : String → Bool
unfolding is_hex strip same_codes
is_fingerprint s =
    let prefix = codes "sha256:" in
    let cs = codes s in
    let digits = strip prefix cs in
    same_codes (take 7 cs) prefix && length digits == 64 && all is_hex digits
