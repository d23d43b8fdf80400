-- ===== src/Sessions/Leases.antt =====
-- The session leases: `expire_stale_sessions`, `update_access_key`, `revoke_subject_access` and
-- `ensure_single_active_subject_lease` of app/services.py, and `require_core_access` and
-- `direct_logout` of app/api_service/app.py.
pub mod Access
pub mod Rotation
use perimetr.Prelude.{
  ℕ, ◌+◌, ◌*◌, String, Bool, true, false, not, Option, none, some, ◌==◌, ◌!=◌, ◌&&◌, ◌||◌, ltb, leb,
  if◌then◌else◌, List, [], ◌∷◌, ◌++◌, or_else, any,
}
use perimetr.Http.{Outcome, done, deny, missing, ◌>>=◌, ◌>>◌, refuse_if}
use perimetr.Settings.{Settings, Env, second}
use perimetr.Database.{SessionLease, LaunchAuthorization, Database, find_lease, save_lease}
use perimetr.Security.{hash_password, verify_password}
use perimetr.Pods.Config.{is_empty_text}
use perimetr.RequestPolicy.{Request, validate_csrf, same_text}

abbrev pub is_past : ℕ → Option ℕ → Bool
is_past now none = false
is_past now (some at) = leb at now

-- The loop of `expire_stale_sessions`.
unfoldable pub expire_lease : ℕ → SessionLease → SessionLease
expire_lease now l =
    if l.status == "active" && is_past now l.expires_at
    then record l { status = "expired"; ended_at = some now }
    else l

unfoldable pub expire_leases : ℕ → List SessionLease → List SessionLease
unfolding expire_lease
expire_leases now [] = []
expire_leases now (l ∷ ls) = expire_lease now l ∷ expire_leases now ls

abbrev pub expire_stale_sessions : Env → Database → Database
expire_stale_sessions env db = record db { leases = expire_leases env.now db.leases }

abbrev pub hash_session_key : Env → String → String
hash_session_key env key = env.platform.sha256_hex key

-- `get_session_lease`.
unfoldable pub get_session_lease :
    Database → Option String → Option String → Outcome Database SessionLease
unfolding find_lease
get_session_lease db session_id session_key = do
  refuse_if (is_empty_text session_id || is_empty_text session_key) db 403
      "perimetr_access_required"
  elim (find_lease (or_else session_id "") db.leases) [
    | none ↦ deny db 404 (missing "session" (or_else session_id ""))
    | some l ↦ done l
  ]

-- The conditions of `require_core_access` on the lease.
unfoldable pub check_lease :
    Env → Option String → Database → SessionLease → Outcome Database (Unit {0})
check_lease env session_key db lease = do
  refuse_if (lease.status != "active") db 403 "perimetr_session_inactive"
  refuse_if (lease.session_key_hash != hash_session_key env (or_else session_key "")) db 403
      "perimetr_session_invalid"
  refuse_if (lease.access_scope != "perimetr" || not (same_text lease.transport (some "direct"))) db
      403 "perimetr_access_required"

-- `require_core_access`: the stale leases are expired and committed before any check.
unfoldable pub require_core_access :
    Env
    → Request
    → Option String
    → Option String
    → Database
    → Outcome Database (Database × SessionLease)
unfolding expire_leases get_session_lease check_lease validate_csrf
require_core_access env r session_id session_key db = do
  let db' = expire_stale_sessions env db
  lease ← get_session_lease db' session_id session_key
  check_lease env session_key db' lease
  validate_csrf env db' r lease.session_key_hash
  done (db', lease)

-- `direct_logout`, for a lease that `require_core_access` has returned.
unfoldable pub direct_logout : Env → SessionLease → Database → Database
unfolding save_lease
direct_logout env lease db = record db {
  leases = save_lease (record lease { status = "revoked"; ended_at = some env.now }) db.leases;
}

-- The loop of `update_access_key` over the other sessions, and the new key of this one.
unfoldable pub rotate_lease : Env → String → SessionLease → SessionLease
rotate_lease env current l =
    if l.id == current
    then record l {
      session_key_hash = hash_session_key env (env.fresh 1);
      expires_at = some (env.now + env.settings.perimetr_session_ttl_sec * second);
    }
    else if l.status == "active" && same_text l.transport (some "direct")
    then record l { status = "revoked"; ended_at = some env.now }
    else l

unfoldable pub rotate_leases : Env → String → List SessionLease → List SessionLease
unfolding rotate_lease
rotate_leases env current [] = []
rotate_leases env current (l ∷ ls) = rotate_lease env current l ∷ rotate_leases env current ls

-- `update_access_key`; the salt is the first secret of the request and the session key the second.
unfoldable pub update_access_key :
    Env → String → String → String → SessionLease → Database → Outcome Database Database
unfolding rotate_leases verify_password hash_password
update_access_key env current_key new_key confirm_key session db = do
  refuse_if (new_key == "" || new_key != confirm_key) db 400 "Supply the same new Access Key twice"
  refuse_if (not (verify_password env.platform current_key db.access_key_hash)) db 403
      "Current Access Key is incorrect"
  done (record db {
    access_key_hash = hash_password env.platform (env.fresh 0) new_key;
    leases = rotate_leases env session.id db.leases;
  })

-- `ensure_single_active_subject_lease`.
unfoldable pub ensure_single_active_subject_lease : String → Database → Outcome Database (Unit {0})
ensure_single_active_subject_lease subject_id db =
    refuse_if
      (any (λ l. same_text l.subject_id (some subject_id) && l.status == "active") db.leases) db 409
      "active lease already exists for subject"

-- `revoke_subject_access`: the newest authorization of the Subject, which stands last, and all its
-- active leases.
unfoldable pub revoke_latest :
    ℕ → String → String → List LaunchAuthorization → List LaunchAuthorization
revoke_latest now subject_id reason [] = []
revoke_latest now subject_id reason (a ∷ later) =
    let rest = revoke_latest now subject_id reason later in
    if a.subject_id == subject_id && not (any (λ b. b.subject_id == subject_id) later)
    then record a { decision = "revoked"; reason = reason; revoked_at = some now } ∷ later
    else a ∷ rest

unfoldable pub revoke_leases : ℕ → String → List SessionLease → List SessionLease
revoke_leases now subject_id [] = []
revoke_leases now subject_id (l ∷ ls) =
    (if same_text l.subject_id (some subject_id) && l.status == "active"
      then record l { status = "revoked"; ended_at = some now }
      else l)
    ∷ revoke_leases now subject_id ls

unfoldable pub revoke_subject_access : Env → String → String → Database → Database
unfolding revoke_latest revoke_leases
revoke_subject_access env subject_id reason db = record db {
  authorizations = revoke_latest env.now subject_id reason db.authorizations;
  leases = revoke_leases env.now subject_id db.leases;
}
