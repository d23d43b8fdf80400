-- ===== src/Preferences.antt =====
-- app/operator_settings.py: the operator's preferences, one row of the settings table with the
-- verifier of the Access Key and the presentation. The state is the value of that row, if there is one.
pub mod Edits
pub mod Update
mod Tests
use Prim.Native.Char.{Char, code}
use Prim.Native.String.{[], ◌∷◌}
use perimetr.Prelude.{
  ℕ, ◌+◌, String, Bool, true, false, not, Option, none, some, ◌==◌, ◌&&◌, ◌||◌, nat_eq, is_some,
  if◌then◌else◌,
}
use perimetr.Prelude.Text.{cut}
use perimetr.Json.{
  Json, Fields, Items, Number, null, bool, num, str, arr, obj, nil, end, field, pos, get_field,
  set_field, set_default, is_true,
}
use perimetr.Http.{Outcome, done, deny, ◌>>=◌}
use perimetr.Settings.{Env}
use perimetr.Security.{hash_password, sizes_fit}
use perimetr.Pods.Credentials.{dollar}

-- The settings that are read here; `perimetr_access_key` may be absent.
pub record Seed : Type 0 where
  pub perimetr_access_key : Option String
  pub perimetr_access_key_hash : String

-- `DEFAULT_PRESENTATION`
abbrev pub default_theme : Json
default_theme = obj (field "accent" (str "#00A8FF") end)

abbrev pub default_backup : Json
default_backup = obj (field "include_audit" (bool true) (field "include_sessions" (bool false) end))

abbrev pub default_layout : Json
default_layout =
    obj
      (field "navigation" (arr nil) (field "dashboard" (arr nil) (field "settings" (arr nil) end)))

unfoldable pub with_defaults : Fields → Fields
unfolding set_default
with_defaults fs = set_default "revision" (num (pos 1)) (
    set_default "presentation_initialized" (bool false) (
      set_default "backup" default_backup (
        set_default "layout" default_layout (
          set_default "sidebar" (obj (field "auto_hide" (bool false) end))
            (set_default "theme" default_theme fs)))))

-- The middle of `algorithm$salt$digest`, which has no more separators.
abbrev pub is_hash_parts : Env → Option (String × String) → Bool
is_hash_parts env none = false
is_hash_parts env (some (salt, digest)) =
    not (is_some (cut dollar digest))
    && sizes_fit env.platform (env.platform.b64_canonical salt) (env.platform.b64_canonical digest)

-- `is_password_hash` of app/security.py; a value that is no text has no `split`.
unfoldable pub is_password_hash : Env → Option Json → Bool
unfolding cut
is_password_hash env (some (str s)) = elim (cut dollar s) [
  | none ↦ false
  | some (algorithm, rest) ↦ algorithm == "scrypt" && is_hash_parts env (cut dollar rest)
]
is_password_hash env _ = false

-- `a or b` of two values that may be missing.
abbrev pub first_true : Option Json → Option Json → Option Json
first_true a b = if is_true a then a else b

-- A text that is not empty.
abbrev pub text_value : Option Json → Option String
text_value (some (str s)) = if s == "" then none else some s
text_value _ = none

abbrev pub seed_value : Option String → Option String
seed_value (some s) = if s == "" then none else some s
seed_value none = none

module _ (env : Env) (seed : Seed) where
  -- The verifier that a key of the settings or a legacy password gives.
  abbrev pub hash_seed : Option String → Option String
  hash_seed none = none
  hash_seed (some key) = some (hash_password env.platform (env.fresh 0) key)

  abbrev pub new_hash : Fields → Option String
  new_hash auth =
      if is_password_hash env (some (str seed.perimetr_access_key_hash))
      then some seed.perimetr_access_key_hash
      else elim (text_value (get_field "password" auth)) [
        | some legacy ↦ hash_seed (some legacy)
        | none ↦ hash_seed (seed_value seed.perimetr_access_key)
      ]

  -- The verifier of `auth`: the stored one, or a new one if none was ever stored; a `RuntimeError` is
  -- a server error.
  unfoldable pub stored_hash : {S : Type 0} → S → Fields → Outcome S Json
  unfolding get_field is_password_hash hash_password
  stored_hash db auth =
      let stored = first_true (get_field "access_key_hash" auth) (get_field "password_hash" auth) in
      if is_password_hash env stored
      then elim stored [ some v ↦ done v | none ↦ deny db 500 "RuntimeError" ]
      else if is_some (get_field "access_key_hash" auth) || is_some (get_field "password_hash" auth)
      then deny db 500
          "Stored operator verifier is invalid; recover the database instead of reseeding it"
      else elim (new_hash auth) [
        | some s ↦ done (str s)
        | none ↦ deny db 500 "PERIMETR_ACCESS_KEY is required for an uninitialized installation"
      ]

  -- `dict(current.get("auth") or {})`; the program stores only a `dict` here, and for the theme.
  abbrev pub auth_of : Option Json → Fields
  auth_of (some (obj fs)) = fs
  auth_of _ = end

  abbrev pub accent_of : Option Json → Json
  accent_of (some (obj fs)) = elim (get_field "accent" fs) [ some v ↦ v | none ↦ str "#00A8FF" ]
  accent_of _ = str "#00A8FF"

  -- The value with its verifier, the defaults, and a theme and a backup of the known shape.
  unfoldable pub normalized : Json → Fields → Fields
  unfolding set_field get_field with_defaults
  normalized hash current =
      let filled =
        with_defaults (set_field "auth" (obj (field "access_key_hash" hash end)) current) in
      set_field "backup" default_backup
        (set_field "theme" (obj (field "accent" (accent_of (get_field "theme" filled)) end)) filled)

  abbrev pub value_of : Option Fields → Fields
  value_of none = end
  value_of (some fs) = fs

  -- `ensure_preferences`: the value of the row after it.
  unfoldable pub ensure_preferences : {S : Type 0} → S → Option Fields → Outcome S Fields
  unfolding get_field stored_hash normalized
  ensure_preferences db row = do
    hash ← stored_hash db (auth_of (get_field "auth" (value_of row)))
    done (normalized hash (value_of row))
