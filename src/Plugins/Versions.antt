-- ===== src/Plugins/Versions.antt =====
-- plugins/registry.py: versions and ranges of versions. A digit is an ASCII one.
use nl2data_core.Common.{
  ℕ, ◌+◌, ◌-◌, ◌*◌, Bool, true, false, not, ◌&&◌, ◌||◌, Option, none, some, List, [], ◌∷◌, String,
  Result, ok, err, ◌>>=◌, ◌>>◌, raise_if, if◌then◌else◌, ltb, leb, ◌==◌, is_nonempty,
}
use nl2data_core.Common.Text.{codes, is_digit}
use nl2data_core.Plugins.Models.{
  Place, version_comparison, PluginManifestError, malformed_range, invalid_version,
}

-- The characters of `str.strip` and of `\s`.
unfoldable pub is_space : ℕ → Bool
is_space c =
    (leb 9 c && leb c 13)
    || (leb 28 c && leb c 32)
    || c == 133
    || c == 160
    || c == 5760
    || (leb 8192 c && leb c 8202)
    || c == 8232
    || c == 8233
    || c == 8239
    || c == 8287
    || c == 12288

unfoldable pub skip_spaces : List ℕ → List ℕ
unfolding is_space
skip_spaces [] = []
skip_spaces (c ∷ cs) = let rest = skip_spaces cs in if is_space c then rest else c ∷ cs

unfoldable drop_end_spaces : List ℕ → List ℕ
unfolding is_space
drop_end_spaces [] = []
drop_end_spaces (c ∷ cs) =
    let rest = drop_end_spaces cs in if is_space c && not (is_nonempty rest) then [] else c ∷ rest

-- `text.strip()`
unfoldable pub strip : String → List ℕ
unfolding skip_spaces drop_end_spaces
strip text = drop_end_spaces (skip_spaces (codes text))

pub record Version : Type 0 where
  pub major : ℕ
  pub minor : ℕ
  pub patch : ℕ

pub data Operator : Type 0 where
  equal at_least at_most above below : Operator

-- `(==|>=|<=|>|<)?`; without one, `==`.
unfoldable pub read_operator : List ℕ → Operator × List ℕ
read_operator (c ∷ d ∷ cs) =
    if c == b'=' && d == b'='
    then (equal, cs)
    else if c == b'>' && d == b'='
    then (at_least, cs)
    else if c == b'<' && d == b'='
    then (at_most, cs)
    else if c == b'>'
    then (above, d ∷ cs)
    else if c == b'<'
    then (below, d ∷ cs)
    else (equal, c ∷ d ∷ cs)
read_operator cs = (equal, cs)

-- `int` of the digits that follow, and what is left.
unfoldable pub read_digits : ℕ → List ℕ → ℕ × List ℕ
unfolding is_digit
read_digits n [] = (n, [])
read_digits n (c ∷ cs) =
    let rest = read_digits (n * 10 + (c - b'0')) cs in if is_digit c then rest else (n, c ∷ cs)

-- `(\d+)`
unfoldable pub read_number : List ℕ → Result (Unit {0}) (ℕ × List ℕ)
unfolding read_digits is_digit
read_number [] = err tt
read_number (c ∷ cs) = if is_digit c then ok (read_digits (c - b'0') cs) else err tt

-- `\.`
abbrev pub read_dot : List ℕ → Result (Unit {0}) (List ℕ)
read_dot [] = err tt
read_dot (c ∷ cs) = if c == b'.' then ok cs else err tt

-- `_VERSION_RE`, after the operator and its spaces.
unfoldable pub read_version : List ℕ → Result (Unit {0}) Version
unfolding read_number
read_version cs = do
  a ← read_number cs
  after_major ← read_dot a.1
  b ← read_number after_major
  after_minor ← read_dot b.1
  c ← read_number after_minor
  raise_if (is_nonempty c.1) tt
  ok (record { major = a.0; minor = b.0; patch = c.0 })

unfoldable pub match_version : List ℕ → Result (Unit {0}) (Operator × Version)
unfolding read_version read_operator skip_spaces
match_version cs =
    let start = read_operator cs in
    read_version (skip_spaces start.1) >>= λ version. ok (start.0, version)

-- `_parse_version`
unfoldable pub parse_version : String → Place → Result PluginManifestError Version
unfolding match_version strip
parse_version version place = elim (match_version (strip version)) [
  | ok matched ↦ ok matched.1
  | err e ↦ err (invalid_version version place)
]

abbrev is_star : List ℕ → Bool
is_star (c ∷ []) = c == b'*'
is_star _ = false

-- `_parse_range`
unfoldable pub parse_range :
    String → Place → Result PluginManifestError (Option (Operator × Version))
unfolding match_version strip
parse_range spec place =
    if is_star (strip spec) then ok none else elim (match_version (strip spec)) [
      | ok matched ↦ ok (some matched)
      | err e ↦ err (malformed_range spec place)
    ]

-- `<` and `==` on the triples.
abbrev pub version_lt : Version → Version → Bool
version_lt a b =
    ltb a.major b.major
    || (a.major == b.major && (ltb a.minor b.minor || (a.minor == b.minor && ltb a.patch b.patch)))

abbrev pub version_eq : Version → Version → Bool
version_eq a b = a.major == b.major && a.minor == b.minor && a.patch == b.patch

-- The comparison of `version_in_range`.
unfoldable pub satisfies : Operator → Version → Version → Bool
satisfies equal actual target = version_eq actual target
satisfies at_least actual target = version_lt target actual || version_eq actual target
satisfies at_most actual target = version_lt actual target || version_eq actual target
satisfies above actual target = version_lt target actual
satisfies below actual target = version_lt actual target

unfoldable pub version_in_range : String → String → Result PluginManifestError Bool
unfolding parse_range parse_version satisfies
version_in_range version spec = parse_range spec version_comparison >>= λ range. elim range [
  | none ↦ ok true
  | some wanted ↦
      parse_version version version_comparison >>= λ actual. ok (satisfies wanted.0 actual wanted.1)
]
