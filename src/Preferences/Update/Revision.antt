-- ===== src/Preferences/Update/Revision.antt =====
-- The theorem on `update_preferences`.
use perimetr.Prelude.{
  ℕ, ◌+◌, String, ◌≡◌, ◌≢◌, refl, sym, ◌∙◌, ap, Bool, true, not, Option, none, some, List, [], ◌∷◌,
  ◌==◌, arith, test_of_ne, All,
}
use perimetr.Json.{
  Json, Fields, null, bool, num, str, arr, obj, end, field, pos, get_field, set_field, merge,
}
use perimetr.Json.Laws.{get_field-set_field}
use perimetr.Http.{done, >>=-eq-done, done-injective, refuse_if, refuse_if-done}
use perimetr.Settings.{Env}
use perimetr.Prelude.{not-false}
use perimetr.Preferences.{Seed, ensure_preferences}
use perimetr.Preferences.Edits.{
  validate_accent, edit_theme, edit_sidebar, edit_layout, layout_of, are_scopes, are_orders,
}
use perimetr.Preferences.Update.{
  revision_of, is_expected, is_reset, match_revision, require_revision, edited, numbered,
  update_preferences, project, public_keys, public_preferences, are_settings,
}

-- The verifier, which no edit touches.
abbrev auth : Fields → Option Json
auth fs = get_field "auth" fs

kept : (k : String) (v : Json) (fs : Fields) → k ≢ "auth" → auth (set_field k v fs) ≡ auth fs
kept k v fs q = rw (get_field-set_field k "auth" v fs, test_of_ne k "auth" q) refl

module _ (env : Env) (seed : Seed) (has_contrast : String → Bool) {S : Type 0} (db : S) where
  edit_theme-auth :
      (o : Option Json) (fs : Fields) {gs : Fields}
      → edit_theme env.platform has_contrast db o fs ≡ done gs
      → auth gs ≡ auth fs
  unfolding edit_theme
  edit_theme-auth none fs h = ap auth (sym (done-injective h))
  edit_theme-auth (some (obj (field k v end))) fs h =
      let (_, _, h1) =
        >>=-eq-done (refuse_if (not (k == "accent")) db 422 "Only accent is editable") _ h in
      let (accent, _, h2) = >>=-eq-done (validate_accent env.platform has_contrast db v) _ h1 in
      ap auth (sym (done-injective h2))
      ∙ kept "theme" (obj (field "accent" (str accent) end)) fs (cc)
  edit_theme-auth (some (obj (field k v (field j w rest)))) fs h = cc
  edit_theme-auth (some (obj end)) fs h = cc
  edit_theme-auth (some null) fs h = cc
  edit_theme-auth (some (bool b)) fs h = cc
  edit_theme-auth (some (num n)) fs h = cc
  edit_theme-auth (some (str s)) fs h = cc
  edit_theme-auth (some (arr vs)) fs h = cc

  edit_sidebar-auth :
      (o : Option Json) (fs : Fields) {gs : Fields}
      → edit_sidebar env.platform has_contrast db o fs ≡ done gs
      → auth gs ≡ auth fs
  unfolding edit_sidebar
  edit_sidebar-auth none fs h = ap auth (sym (done-injective h))
  edit_sidebar-auth (some (obj (field k (bool b) end))) fs h =
      let (_, _, h1) =
        >>=-eq-done (refuse_if (not (k == "auto_hide")) db 422 "Invalid sidebar mode") _ h in
      ap auth (sym (done-injective h1)) ∙ kept "sidebar" (obj (field k (bool b) end)) fs (cc)
  edit_sidebar-auth (some v) fs h = cc

  edit_layout-auth :
      (o : Option Json) (fs : Fields) {gs : Fields}
      → edit_layout env.platform has_contrast db o fs ≡ done gs
      → auth gs ≡ auth fs
  unfolding edit_layout
  edit_layout-auth none fs h = ap auth (sym (done-injective h))
  edit_layout-auth (some (obj layout)) fs h =
      let (_, _, h1) =
        >>=-eq-done (refuse_if (not (are_scopes layout)) db 422 "Invalid layout scope") _ h in
      let (_, _, h2) =
        >>=-eq-done (refuse_if (not (are_orders layout)) db 422 "Invalid layout order") _ h1 in
      ap auth (sym (done-injective h2))
      ∙ kept "layout"
          (obj (merge (layout_of env.platform has_contrast db (get_field "layout" fs)) layout)) fs
          (cc)
  edit_layout-auth (some null) fs h = cc
  edit_layout-auth (some (bool b)) fs h = cc
  edit_layout-auth (some (num n)) fs h = cc
  edit_layout-auth (some (str s)) fs h = cc
  edit_layout-auth (some (arr vs)) fs h = cc

  edited-auth :
      (payload fs : Fields) {gs : Fields}
      → edited env seed has_contrast db payload fs ≡ done gs
      → auth gs ≡ auth fs
  unfolding edited
  edited-auth payload fs h =
      let (a, e, h1) =
        >>=-eq-done (edit_theme env.platform has_contrast db (get_field "theme" payload) fs) _ h in
      let (b, e', h2) =
        >>=-eq-done (edit_sidebar env.platform has_contrast db (get_field "sidebar" payload) a) _
          h1 in
      edit_layout-auth (get_field "layout" payload) b h2
      ∙ edit_sidebar-auth (get_field "sidebar" payload) a e'
      ∙ edit_theme-auth (get_field "theme" payload) fs e

revision_of-some : (o : Option Json) (n : ℕ) → revision_of o ≡ some n → o ≡ some (num (pos n))
revision_of-some (some (num (pos m))) n h = let q : m ≡ n = cc in rw q refl
revision_of-some o n h = cc

is_expected-eq : (o : Option Json) (n : ℕ) → is_expected o n ≡ true → o ≡ some (num (pos n))
is_expected-eq (some (num (pos m))) n h = let q : m ≡ n = ground arith in rw q refl
is_expected-eq o n h = cc

chosen-auth :
    (k : String) (rest : Fields) (o : Option Json)
    → k ≢ "auth"
    → auth (elim o [ some v ↦ field k v rest | none ↦ rest ]) ≡ auth rest
unfolding get_field
chosen-auth k rest none q = refl
chosen-auth k rest (some v) q = rw (test_of_ne k "auth" q) refl

project-auth :
    (ks : List String) (value : Fields) → All (λ k. k ≢ "auth") ks → auth (project ks value) ≡ none
unfolding project get_field
project-auth [] value a = refl
project-auth (k ∷ ks) value (q, a) =
    chosen-auth k (project ks value) (get_field k value) q ∙ project-auth ks value a

module _ (env : Env) (seed : Seed) (has_contrast : String → Bool) {S : Type 0} (db : S) where
  match_revision-done :
      (expected : Option Json) (o : Option ℕ) {n : ℕ}
      → match_revision env seed has_contrast db expected o ≡ done n
      → (o ≡ some n) × (expected ≡ some (num (pos n)))
  match_revision-done expected none h = cc
  match_revision-done expected (some m) {n} h =
      let (_, e, h1) =
        >>=-eq-done
          (refuse_if (not (is_expected expected m)) db 409
            "Settings changed in another session; reload and review your change")
          _ h in
      let p = refuse_if-done (not (is_expected expected m)) db 409 _ e in
      let q = done-injective h1 in
      (ap some q, is_expected-eq expected m (not-false p) ∙ ap (λ x. some (num (pos x))) q)

  require_revision-done :
      (expected stored : Option Json) {n : ℕ}
      → require_revision env seed has_contrast db expected stored ≡ done n
      → (stored ≡ some (num (pos n))) × (expected ≡ some (num (pos n)))
  unfolding require_revision
  require_revision-done expected stored {n} h =
      let (o, e) = match_revision-done expected (revision_of stored) h in
      (revision_of-some stored n o, e)

  numbered-auth : (n : ℕ) (fs : Fields) → auth (numbered env seed has_contrast db n fs) ≡ auth fs
  numbered-auth n fs =
      kept "revision" (num (pos (n + 1))) (set_field "presentation_initialized" (bool true) fs) (cc)
      ∙ kept "presentation_initialized" (bool true) fs (cc)

  -- A change of the preferences that succeeds was made with the number of the stored revision; the
  -- new value has the next number and the verifier as it was, and what is shown of it has no verifier.
  pub update_preferences-revision :
      (row : Option Fields) (payload next : Fields)
      → update_preferences env seed has_contrast db row payload ≡ done next
      → (current : Fields) × (n : ℕ) × (ensure_preferences env seed db row ≡ done current)
        × (get_field "revision" current ≡ some (num (pos n)))
        × (get_field "expected_revision" payload ≡ some (num (pos n)))
        × (get_field "revision" next ≡ some (num (pos (n + 1))))
        × (get_field "auth" next ≡ get_field "auth" current)
        × (get_field "auth" (public_preferences next) ≡ none)
  unfolding update_preferences public_preferences
  update_preferences-revision row payload next h =
      let (current, e, h1) = >>=-eq-done (ensure_preferences env seed db row) _ h in
      let (n, r, h2) =
        >>=-eq-done
          (require_revision env seed has_contrast db (get_field "expected_revision" payload)
            (get_field "revision" current))
          _ h1 in
      let (_, _, h3) =
        >>=-eq-done (refuse_if (not (are_settings payload)) db 422 "Unsupported setting") _ h2 in
      let (value, d, h4) = >>=-eq-done (edited env seed has_contrast db payload current) _ h3 in
      let (_, _, h5) =
        >>=-eq-done
          (refuse_if (is_reset (get_field "presentation_initialized" payload)) db 422
            "Presentation migration cannot be reset")
          _ h4 in
      let (stored, expected) = require_revision-done _ _ r in
      let q = done-injective h5 in
      (
        current,
        n,
        e,
        stored,
        expected,
        rw⁻¹ q (
            rw
              (get_field-set_field "revision" "revision" (num (pos (n + 1)))
                (set_field "presentation_initialized" (bool true) value))
              refl),
        ap auth (sym q)
            ∙ numbered-auth n value
            ∙ edited-auth env seed has_contrast db payload current d,
        project-auth public_keys next ((cc), ((cc), ((cc), ((cc), ((cc), ((cc), tt)))))),
      )
