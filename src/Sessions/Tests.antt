-- ===== src/Sessions/Tests.antt =====
-- An operator who signs in, changes the Access Key and signs out.
use perimetr.Prelude.{ℕ, ◌≡◌, refl, true, false, none, some, [], ◌∷◌, ◌==◌, arith, if◌then◌else◌}
use perimetr.Http.{Outcome, done, is_done}
use perimetr.Platform.{Platform}
use perimetr.Settings.{Env}
use perimetr.Database.{SessionLease, Database, find_lease}
use perimetr.Samples.{env, platform, result, result-eq, start}
use perimetr.RateLimiter.{init, check}
use perimetr.RequestPolicy.{Request}
use perimetr.Security.{hash_password, verify_password}
use perimetr.Sessions.Login.{verify_direct_login}
use perimetr.Sessions.Leases.{
  require_core_access, direct_logout, update_access_key, expire_stale_sessions,
}
use perimetr.Sessions.Leases.Access.{IsOperator, require_core_access-IsOperator, direct_logout-ends}
use perimetr.Sessions.Leases.Rotation.{update_access_key-signs_out}
use perimetr.Database.{LaunchAuthorization}
use perimetr.Pods.Removal.{get_subject}
use perimetr.Sessions.Leases.{ensure_single_active_subject_lease}
use perimetr.Sessions.Subjects.{newest_of, revoke_subject}
use perimetr.Sessions.Subjects.Withdrawal.{revoke_subject-ends_sessions}
use perimetr.Samples.{subject}
use perimetr.Sessions.Direct.{State, DirectLogin, direct_login}
use perimetr.Sessions.Direct.Grant.{direct_login-IsGranted}

-- A platform whose digests have the sizes of scrypt.
abbrev sized : Platform
sized = record platform { byte_count = λ s. if s == "f" then 16 else 64 }

abbrev at : ℕ → Env
at now = record (env now) { platform = sized }

abbrev lease : SessionLease
lease = record {
  id = "l";
  subject_id = none;
  pod_id = none;
  status = "active";
  session_key_hash = "hsecret";
  access_scope = "perimetr";
  transport = some "direct";
  expires_at = some 1000;
  ended_at = none;
}

-- The verifier of the key `pass`, and one session.
abbrev db : Database
db = record start { access_key_hash = "scrypt$f$passf"; leases = lease ∷ [] }

abbrev get_page : Request
get_page = record { method = "GET"; origin = none; sec_fetch_site = none; x_csrf_token = none }

abbrev access : Outcome Database (Database × SessionLease)
access = require_core_access (at 10) get_page (some "l") (some "secret") db

access_done : is_done access ≡ true
unfolding require_core_access
access_done = refl

require_core_access-IsOperator_example :
    ((result access access_done).0 ≡ expire_stale_sessions (at 10) db)
    × (find_lease "l" (result access access_done).0.leases ≡ some (result access access_done).1)
    × IsOperator (at 10) get_page (some "secret") (result access access_done).1
require_core_access-IsOperator_example =
    require_core_access-IsOperator (at 10) get_page (some "l") (some "secret") db
      (result access access_done).0 (result access access_done).1 (result-eq access access_done)

direct_logout-ends_example :
    is_done (
      require_core_access
        (at 20)
        get_page
        (some "l")
        (some "secret")
        (direct_logout (at 10) (result access access_done).1 (result access access_done).0))
    ≡ false
direct_logout-ends_example =
    direct_logout-ends (at 10) (at 20) get_page get_page (some "l") (some "secret") (some "secret")
      db (result access access_done).0 (result access access_done).1 (result-eq access access_done)

abbrev change : Outcome Database Database
change = update_access_key (at 10) "pass" "next" "next" (record lease { id = "m" }) db

change_done : is_done change ≡ true
unfolding update_access_key
change_done = refl

update_access_key-signs_out_example :
    (verify_password sized "pass" "scrypt$f$passf" ≡ true)
    × ((result change change_done).access_key_hash ≡ hash_password sized "f" "next")
    × (is_done (
          require_core_access
            (at 20)
            get_page
            (some "l")
            (some "secret")
            (result change change_done))
        ≡ false)
update_access_key-signs_out_example =
    update_access_key-signs_out (at 10) (at 20) "pass" "next" "next" "l" (record lease { id = "m" })
      get_page (some "secret") db (result change change_done) (result-eq change change_done) refl

abbrev state : State
state = record { db = db; limiter = init }

abbrev login : Outcome State (State × DirectLogin)
login = direct_login (at 10) 5 get_page "10.0.0.1" "perimetr" "pass" state

login_done : is_done login ≡ true
unfolding direct_login init
login_done = refl

direct_login-IsGranted_example :
    ((check init "10.0.0.1" 5).0.allowed ≡ true)
    × (verify_direct_login (at 10) db "pass" ≡ true)
    × (is_done (
          require_core_access
            (at 20)
            get_page
            (some (result login login_done).1.lease.id)
            (some (result login login_done).1.session_key)
            (result login login_done).0.db)
        ≡ true)
unfolding find_lease
direct_login-IsGranted_example =
    direct_login-IsGranted (at 10) (at 20) 5 get_page get_page "10.0.0.1" "perimetr" "pass" state
      (result login login_done).0 (result login login_done).1 (result-eq login login_done) refl refl
      refl refl (omega arith) refl

-- A Subject with an authorization and an active session.
abbrev launched : Database
launched = record start {
  authorizations =
      record {
        id = "a";
        subject_id = "s";
        pod_id = "p";
        decision = "approved";
        reason = "authorized by perimetr";
        issued_at = some 1;
        expires_at = none;
        revoked_at = none;
      }
      ∷ [];
  leases = record lease { subject_id = some "s" } ∷ [];
}

abbrev withdrawal : Outcome Database (Database × LaunchAuthorization)
withdrawal = revoke_subject (at 10) "e" launched

withdrawal_done : is_done withdrawal ≡ true
unfolding revoke_subject
withdrawal_done = refl

revoke_subject-ends_sessions_example :
    (ensure_single_active_subject_lease "s" (result withdrawal withdrawal_done).0 ≡ done tt)
    × (newest_of "s" (result withdrawal withdrawal_done).0.authorizations
        ≡ some (result withdrawal withdrawal_done).1)
unfolding get_subject
revoke_subject-ends_sessions_example =
    revoke_subject-ends_sessions (at 10) "e" subject launched (result withdrawal withdrawal_done).0
      (result withdrawal withdrawal_done).1 refl (result-eq withdrawal withdrawal_done)
