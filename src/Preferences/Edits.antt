-- ===== src/Preferences/Edits.antt =====
-- `validate_accent` and the edits of `update_preferences` of app/operator_settings.py.
use Prim.Native.Char.{Char, code}
use Prim.Native.String.{[], ◌∷◌}
use perimetr.Prelude.{
  ℕ, suc, String, Bool, true, false, not, Option, none, some, ◌==◌, ◌&&◌, ◌||◌, nat_eq, leb,
}
use perimetr.Prelude.Text.{text_length}
use perimetr.Json.{
  Json, Fields, Items, bool, str, arr, obj, nil, cons, end, field, get_field, set_field, merge,
}
use perimetr.Http.{Outcome, done, deny, ◌>>=◌, ◌>>◌, refuse_if}
use perimetr.Platform.{Platform}
use perimetr.Artifacts.Version.{all_chars, is_digit}
use perimetr.Kernel.References.{is_hex}

-- `#[0-9a-fA-F]{6}`
abbrev pub is_color : String → Bool
is_color [] = false
is_color (c ∷ s) = nat_eq (code c) b'#' && nat_eq (text_length s) 6 && all_chars is_hex s

-- `[A-Za-z0-9_-]{1,64}`
abbrev pub is_name_char : Char → Bool
is_name_char c =
    is_digit c
    || leb b'A' (code c) && leb (code c) b'Z'
    || leb b'a' (code c) && leb (code c) b'z'
    || nat_eq (code c) b'_'
    || nat_eq (code c) b'-'

abbrev pub is_name : String → Bool
is_name s = leb 1 (text_length s) && leb (text_length s) 64 && all_chars is_name_char s

abbrev pub count : Items → ℕ
count nil = 0
count (cons v vs) = suc (count vs)

abbrev pub holds : String → Items → Bool
holds s nil = false
holds s (cons (str t) vs) = t == s || holds s vs
holds s (cons _ vs) = holds s vs

-- Texts of the form of a name, of which no two are the same.
abbrev pub are_names : Items → Bool
are_names nil = true
are_names (cons (str s) vs) = is_name s && not (holds s vs) && are_names vs
are_names (cons _ vs) = false

abbrev pub is_order : Json → Bool
is_order (arr vs) = leb (count vs) 32 && are_names vs
is_order _ = false

abbrev pub is_scope : String → Bool
is_scope k = k == "navigation" || k == "dashboard" || k == "settings"

-- Every key is one of the scopes, and every value an order.
abbrev pub are_scopes : Fields → Bool
are_scopes end = true
are_scopes (field k v fs) = is_scope k && are_scopes fs

abbrev pub are_orders : Fields → Bool
are_orders end = true
are_orders (field k v fs) = is_order v && are_orders fs

module _ (p : Platform) (has_contrast : String → Bool) {S : Type 0} (db : S) where
  -- `validate_accent`; `has_contrast` is the test of the luminance, which is computed with floats.
  unfoldable pub validate_accent : Json → Outcome S String
  unfolding all_chars
  validate_accent (str s) = do
    refuse_if (not (is_color s)) db 422 "Accent must use #RRGGBB"
    refuse_if (not (has_contrast s)) db 422 "Accent needs at least 4.5:1 contrast against black"
    done (p.upper s)
  validate_accent v = deny db 422 "Accent must use #RRGGBB"

  -- An edit is given what the payload has under its key, and the value so far.
  unfoldable pub edit_theme : Option Json → Fields → Outcome S Fields
  unfolding validate_accent set_field
  edit_theme none current = done current
  edit_theme (some (obj (field k v end))) current = do
    refuse_if (not (k == "accent")) db 422 "Only accent is editable"
    accent ← validate_accent v
    done (set_field "theme" (obj (field "accent" (str accent) end)) current)
  edit_theme (some v) current = deny db 422 "Only accent is editable"

  unfoldable pub edit_sidebar : Option Json → Fields → Outcome S Fields
  unfolding set_field
  edit_sidebar none current = done current
  edit_sidebar (some (obj (field k (bool b) end))) current =
      refuse_if (not (k == "auto_hide")) db 422 "Invalid sidebar mode"
      >> done (set_field "sidebar" (obj (field k (bool b) end)) current)
  edit_sidebar (some v) current = deny db 422 "Invalid sidebar mode"

  -- `{**current["layout"], **layout}`
  abbrev pub layout_of : Option Json → Fields
  layout_of (some (obj fs)) = fs
  layout_of _ = end

  unfoldable pub edit_layout : Option Json → Fields → Outcome S Fields
  unfolding set_field get_field merge all_chars
  edit_layout none current = done current
  edit_layout (some (obj layout)) current = do
    refuse_if (not (are_scopes layout)) db 422 "Invalid layout scope"
    refuse_if (not (are_orders layout)) db 422 "Invalid layout order"
    done (set_field "layout" (obj (merge (layout_of (get_field "layout" current)) layout)) current)
  edit_layout (some v) current = deny db 422 "Invalid layout scope"
