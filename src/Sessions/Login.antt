-- ===== src/Sessions/Login.antt =====
-- `normalize_access_target` and `verify_direct_login` of app/services.py. The installation is
-- initialized: `ensure_preferences` finds the verifier in the database and changes nothing.
use perimetr.Prelude.{String, Bool, ◌==◌, ◌!=◌, ◌&&◌, if◌then◌else◌}
use perimetr.Http.{Outcome, done, deny}
use perimetr.Settings.{Env}
use perimetr.Database.{Database}
use perimetr.Security.{verify_password}
use perimetr.Pods.Credentials.{◌+++◌}

unfoldable pub normalize_access_target : {S : Type 0} → Env → S → String → Outcome S String
normalize_access_target env db target =
    let value =
      env.platform.lower (env.platform.strip (if target == "" then "perimetr" else target)) in
    if value != "perimetr" then deny db 400 ("unsupported_target:" +++ value) else done value

-- The target is `perimetr` in every call.
unfoldable pub verify_direct_login : Env → Database → String → Bool
unfolding verify_password
verify_direct_login env db access_key =
    access_key != "" && verify_password env.platform access_key db.access_key_hash
