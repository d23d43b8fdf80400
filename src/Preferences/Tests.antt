-- ===== src/Preferences/Tests.antt =====
-- A change of the sidebar of a new installation.
use perimetr.Prelude.{ℕ, ◌+◌, ◌≡◌, refl, true, Option, none, some}
use perimetr.Json.{Fields, pos, num, bool, obj, end, field, get_field}
use perimetr.Http.{Outcome, done, is_done}
use perimetr.Samples.{env, result, result-eq}
use perimetr.Preferences.{Seed, ensure_preferences}
use perimetr.Preferences.Update.{update_preferences, public_preferences}
use perimetr.Preferences.Update.Revision.{update_preferences-revision}

abbrev seed : Seed
seed = record { perimetr_access_key = some "key"; perimetr_access_key_hash = "" }

abbrev no_row : Option Fields
no_row = none

abbrev payload : Fields
payload =
    field "expected_revision" (num (pos 1))
      (field "sidebar" (obj (field "auto_hide" (bool true) end)) end)

abbrev change : Outcome (Option Fields) Fields
change = update_preferences (env 10) seed (λ s. true) no_row no_row payload

change_done : is_done change ≡ true
unfolding update_preferences
change_done = refl

update_preferences-revision_example :
    (current : Fields) × (n : ℕ) × (ensure_preferences (env 10) seed no_row no_row ≡ done current)
    × (get_field "revision" current ≡ some (num (pos n)))
    × (some (num (pos 1)) ≡ some (num (pos n)))
    × (get_field "revision" (result change change_done) ≡ some (num (pos (n + 1))))
    × (get_field "auth" (result change change_done) ≡ get_field "auth" current)
    × (get_field "auth" (public_preferences (result change change_done)) ≡ none)
unfolding get_field
update_preferences-revision_example =
    update_preferences-revision (env 10) seed (λ s. true) no_row no_row payload
      (result change change_done) (result-eq change change_done)
