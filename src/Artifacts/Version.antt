-- ===== src/Artifacts/Version.antt =====
-- `_semver` and `compare_versions` of app/pod_artifacts.py: semantic versions and their order.
pub mod Order
use Prim.Native.Nat.{Ordering, lt, eq, gt, compare}
use Prim.Native.Char.{Char, code}
use Prim.Native.String
use Prim.Native.String.{String, [], ◌∷◌}
use perimetr.Prelude.{
  ℕ, suc, ◌+◌, ◌-◌, ◌*◌, Bool, true, false, not, Option, none, some, List, ◌==◌, ◌!=◌, ◌>>=◌, map,
  ◌&&◌, ◌||◌, leb, nat_eq, if◌then◌else◌,
}
use perimetr.Prelude.Text.{cut, split}
use perimetr.Prelude.Order.{then_by, lex}
use perimetr.Platform.{Platform}

-- `[0-9]`, and `[0-9A-Za-z.-]`.
abbrev pub is_digit : Char → Bool
is_digit c = leb b'0' (code c) && leb (code c) b'9'

abbrev pub is_suffix_char : Char → Bool
is_suffix_char c =
    is_digit c
    || leb b'A' (code c) && leb (code c) b'Z'
    || leb b'a' (code c) && leb (code c) b'z'
    || nat_eq (code c) b'.'
    || nat_eq (code c) b'-'

unfoldable pub all_chars : (Char → Bool) → String → Bool
all_chars p [] = true
all_chars p (c ∷ s) = p c && all_chars p s

-- `0|[1-9][0-9]*`
unfoldable pub is_numeral : String → Bool
unfolding all_chars
is_numeral [] = false
is_numeral (c ∷ s) = all_chars is_digit (c ∷ s) && (s == "" || not (nat_eq (code c) b'0'))

-- `int(text)` on decimal digits; `n` is the value of the digits before.
unfoldable pub decimal : ℕ → String → ℕ
decimal n [] = n
decimal n (c ∷ s) = decimal (n * 10 + (code c - b'0')) s

-- A component of the suffix: `(0, int(item))`, `(1, item.lower())`, and `(2, "")` for a release.
pub data Identifier : Type 0 where
  number : ℕ → Identifier
  word : String → Identifier
  release : Identifier

pub record Semver : Type 0 where
  pub major : ℕ
  pub minor : ℕ
  pub patch : ℕ
  pub suffix : List Identifier

-- `item.isdigit()` of an item of the pattern's characters.
abbrev is_all_digits : String → Bool
is_all_digits s = s != "" && all_chars is_digit s

unfoldable pub identifier : Platform → String → Identifier
unfolding all_chars decimal
identifier platform item =
    if is_all_digits item then number (decimal 0 item) else word (platform.lower item)

-- The three numbers of `core`, which has no `-`.
unfoldable pub semver_core : String → List Identifier → Option Semver
unfolding cut is_numeral decimal
semver_core core items = do
  (a, rest) ← cut b'.' core
  (b, c) ← cut b'.' rest
  if is_numeral a && is_numeral b && is_numeral c
      then some
          (record { major = decimal 0 a; minor = decimal 0 b; patch = decimal 0 c; suffix = items })
      else none

-- `_semver`; `none` is its `PodArtifactError`. The first `-` ends the three numbers.
unfoldable pub semver : Platform → String → Option Semver
unfolding cut semver_core split identifier all_chars
semver platform value = elim (cut b'-' value) [
  | none ↦ semver_core value (List.◌∷◌ release List.[])
  | some (core, prerelease) ↦
      if prerelease != "" && all_chars is_suffix_char prerelease
      then semver_core core (map (identifier platform) (split b'.' prerelease))
      else none
]

-- Python's order of the pairs, the tuples and the texts in them.
abbrev pub compare_identifier : Identifier → Identifier → Ordering
compare_identifier (number a) (number b) = compare a b
compare_identifier (number a) (word t) = lt
compare_identifier (number a) release = lt
compare_identifier (word s) (number b) = gt
compare_identifier (word s) (word t) = String.compare s t
compare_identifier (word s) release = lt
compare_identifier release (number b) = gt
compare_identifier release (word t) = gt
compare_identifier release release = eq

unfoldable pub compare_semver : Semver → Semver → Ordering
unfolding lex
compare_semver a b = then_by (compare a.major b.major) (
    then_by (compare a.minor b.minor)
      (then_by (compare a.patch b.patch) (lex compare_identifier a.suffix b.suffix)))

-- `compare_versions`: -1, 0 and 1 as an `Ordering`; `none` is the `PodArtifactError` of `_semver`.
unfoldable pub compare_versions : Platform → String → String → Option Ordering
unfolding semver compare_semver
compare_versions platform left right = do
  a ← semver platform left
  b ← semver platform right
  some (compare_semver a b)
