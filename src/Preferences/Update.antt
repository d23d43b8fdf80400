-- ===== src/Preferences/Update.antt =====
-- `update_preferences` and `public_preferences` of app/operator_settings.py.
pub mod Revision
use perimetr.Prelude.{
  ℕ, ◌+◌, String, Bool, true, false, not, Option, none, some, List, [], ◌∷◌, ◌==◌, ◌&&◌, ◌||◌,
  nat_eq, if◌then◌else◌,
}
use perimetr.Json.{
  Json, Fields, Number, null, bool, num, str, arr, obj, end, field, pos, negsuc, float, get_field,
  set_field,
}
use perimetr.Http.{Outcome, done, deny, ◌>>=◌, ◌>>◌, refuse_if}
use perimetr.Settings.{Env}
use perimetr.Database.{Database}
use perimetr.Audit.{Report, audit}
use perimetr.Preferences.{Seed, ensure_preferences}
use perimetr.Preferences.Edits.{edit_theme, edit_sidebar, edit_layout}

abbrev pub is_setting : String → Bool
is_setting k =
    k == "expected_revision"
    || k == "theme"
    || k == "sidebar"
    || k == "layout"
    || k == "presentation_initialized"

abbrev pub are_settings : Fields → Bool
are_settings end = true
are_settings (field k v fs) = is_setting k && are_settings fs

-- The revision that is stored, an `int` that this module counts up from 1.
abbrev pub revision_of : Option Json → Option ℕ
revision_of (some (num (pos n))) = some n
revision_of _ = none

-- `type(expected) is int and expected == current["revision"]`
abbrev pub is_expected : Option Json → ℕ → Bool
is_expected (some (num (pos m))) n = nat_eq m n
is_expected _ n = false

-- `"presentation_initialized" in payload and payload[…] is not True`
abbrev pub is_reset : Option Json → Bool
is_reset none = false
is_reset (some (bool b)) = not b
is_reset (some v) = true

module _ (env : Env) (seed : Seed) (has_contrast : String → Bool) {S : Type 0} (db : S) where
  -- The expected revision is the stored one.
  abbrev pub match_revision : Option Json → Option ℕ → Outcome S ℕ
  match_revision expected none =
      deny db 409 "Settings changed in another session; reload and review your change"
  match_revision expected (some n) =
      refuse_if (not (is_expected expected n)) db 409
        "Settings changed in another session; reload and review your change"
      >> done n

  unfoldable pub require_revision : Option Json → Option Json → Outcome S ℕ
  require_revision expected stored = match_revision expected (revision_of stored)

  -- The edits, in the order of the source.
  unfoldable pub edited : Fields → Fields → Outcome S Fields
  unfolding get_field edit_theme edit_sidebar edit_layout
  edited payload current = do
    themed ← edit_theme env.platform has_contrast db (get_field "theme" payload) current
    barred ← edit_sidebar env.platform has_contrast db (get_field "sidebar" payload) themed
    edit_layout env.platform has_contrast db (get_field "layout" payload) barred

  -- The value after the edits, with its new revision.
  abbrev pub numbered : ℕ → Fields → Fields
  numbered n current =
      set_field "revision" (num (pos (n + 1)))
        (set_field "presentation_initialized" (bool true) current)

  -- `update_preferences`: the new value of the row.
  unfoldable pub update_preferences : Option Fields → Fields → Outcome S Fields
  unfolding get_field set_field ensure_preferences require_revision edited
  update_preferences row payload = do
    current ← ensure_preferences env seed db row
    n ← require_revision (get_field "expected_revision" payload) (get_field "revision" current)
    refuse_if (not (are_settings payload)) db 422 "Unsupported setting"
    next ← edited payload current
    refuse_if (is_reset (get_field "presentation_initialized" payload)) db 422
        "Presentation migration cannot be reset"
    done (numbered n next)

-- `public_preferences`: the keys of `DEFAULT_PRESENTATION`, and no other.
abbrev pub public_keys : List String
public_keys =
    "theme"
    ∷ ("sidebar" ∷ ("layout" ∷ ("backup" ∷ ("presentation_initialized" ∷ ("revision" ∷ [])))))

unfoldable pub project : List String → Fields → Fields
unfolding get_field
project [] value = end
project (k ∷ ks) value =
    let rest = project ks value in
    elim (get_field k value) [ some v ↦ field k v rest | none ↦ rest ]

unfoldable pub public_preferences : Fields → Fields
unfolding project
public_preferences value = project public_keys value

-- The tables, and the row of the preferences.
abbrev pub Stored : Type 0
Stored = Database × Option Fields

abbrev pub saved_report : Fields → Report
saved_report shown = record {
  actor_type = "operator";
  actor_id = "operator";
  action = "settings.presentation.updated";
  target_type = "system";
  target_id = "5f0b6d3d90f548a9a2f1d6e9cb7f3412";
  payload = obj end;
  result =
      obj (field "revision" (elim (get_field "revision" shown) [ some v ↦ v | none ↦ null ]) end);
}

module _ (env : Env) (seed : Seed) (has_contrast : String → Bool) where
  -- `read_preferences` of app/api_service/app.py, which stores the row that it completes.
  unfoldable pub read_preferences : Stored → Outcome Stored (Stored × Fields)
  unfolding ensure_preferences public_preferences
  read_preferences (db, row) = do
    value ← ensure_preferences env seed (db, row) row
    done ((db, some value), public_preferences value)

  -- `save_preferences` of app/api_service/app.py.
  unfoldable pub save_preferences : Fields → Stored → Outcome Stored (Stored × Fields)
  unfolding update_preferences public_preferences get_field
  save_preferences payload (db, row) = do
    next ← update_preferences env seed has_contrast (db, row) row payload
    let shown = public_preferences next
    done ((audit env 1 (saved_report shown) db, some next), shown)
