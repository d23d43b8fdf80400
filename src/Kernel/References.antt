-- ===== src/Kernel/References.antt =====
-- `REVISION_PATTERN` and `VOLT_REFERENCE_PATTERN` of app/kernel_register.py.
use Prim.Native.Char.{Char, code}
use Prim.Native.String.{[], ◌∷◌}
use perimetr.Prelude.{
  ℕ, ◌+◌, String, Bool, false, Option, none, some, List, ◌!=◌, ◌&&◌, ◌||◌, leb, nat_eq,
  if◌then◌else◌,
}
use perimetr.Prelude.Text.{text_length, split, cut}
use perimetr.Artifacts.Version.{all_chars, is_digit}

-- The code of a letter in lower case.
abbrev pub lower_code : Char → ℕ
lower_code c = if leb b'A' (code c) && leb (code c) b'Z' then code c + 32 else code c

-- What follows a prefix, which is in lower case and matches in any.
unfoldable pub after_prefix : String → String → Option String
after_prefix [] s = some s
after_prefix (p ∷ ps) [] = none
after_prefix (p ∷ ps) (c ∷ s) =
    let rest = after_prefix ps s in if nat_eq (lower_code c) (code p) then rest else none

-- What follows a prefix, as it is.
unfoldable pub after_exact : String → String → Option String
after_exact [] s = some s
after_exact (p ∷ ps) [] = none
after_exact (p ∷ ps) (c ∷ s) =
    let rest = after_exact ps s in if nat_eq (code c) (code p) then rest else none

abbrev pub is_revision_char : Char → Bool
is_revision_char c =
    is_digit c || leb b'a' (lower_code c) && leb (lower_code c) b'z' || nat_eq (code c) b'-'

-- `^register-[A-Za-z0-9-]+$`
unfoldable pub is_revision : String → Bool
unfolding after_exact all_chars
is_revision s = elim (after_exact "register-" s) [
  | none ↦ false
  | some t ↦ t != "" && all_chars is_revision_char t
]

-- `[0-9a-f]`, in any case.
abbrev pub is_hex : Char → Bool
is_hex c = is_digit c || leb b'a' (lower_code c) && leb (lower_code c) b'f'

unfoldable pub is_hex_text : ℕ → String → Bool
unfolding all_chars
is_hex_text n s = nat_eq (text_length s) n && all_chars is_hex s

-- `[1-8]` and `[89ab]` before three more.
abbrev pub is_version_part : String → Bool
is_version_part [] = false
is_version_part (c ∷ s) = leb b'1' (code c) && leb (code c) b'8'

abbrev pub is_variant_part : String → Bool
is_variant_part [] = false
is_variant_part (c ∷ s) =
    nat_eq (code c) b'8'
    || nat_eq (code c) b'9'
    || nat_eq (lower_code c) b'a'
    || nat_eq (lower_code c) b'b'

abbrev pub is_uuid_parts : List String → Bool
is_uuid_parts (List.◌∷◌ a (List.◌∷◌ b (List.◌∷◌ c (List.◌∷◌ d (List.◌∷◌ e List.[]))))) =
    is_hex_text 8 a
    && is_hex_text 4 b
    && is_hex_text 4 c
    && is_version_part c
    && is_hex_text 4 d
    && is_variant_part d
    && is_hex_text 12 e
is_uuid_parts _ = false

unfoldable pub is_uuid : String → Bool
unfolding split is_hex_text
is_uuid s = is_uuid_parts (split b'-' s)

-- `[1-9][0-9]*`
abbrev pub is_positive : String → Bool
is_positive [] = false
is_positive (c ∷ s) = all_chars is_digit (c ∷ s) && leb b'1' (code c)

-- `volt://<uuid>/<number or uuid>`
unfoldable pub is_volt_reference : String → Bool
unfolding after_prefix cut is_uuid all_chars
is_volt_reference s = elim (after_prefix "volt://" s) [
  | none ↦ false
  | some t ↦ elim (cut b'/' t) [
    | none ↦ false
    | some (entry, item) ↦ is_uuid entry && (is_positive item || is_uuid item)
  ]
]
