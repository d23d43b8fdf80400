-- ===== src/Sessions/Direct.antt =====
-- `direct_login` and `change_access_key` of app/api_service/app.py, and `create_direct_session` of
-- app/services.py: the operator's login and key change behind the rate limiter. The state is the
-- database and the limiter. `source_ip` is what `client_identity` returns, and `clock` is the
-- monotonic clock of the limiter in nanoseconds, read once.
pub mod Grant
use perimetr.Prelude.{
  ℕ, ◌+◌, ◌*◌, ◌/◌, String, Bool, true, false, not, Option, none, some, List, [], ◌∷◌, ◌++◌, ◌==◌,
  if◌then◌else◌,
}
use perimetr.Json.{Json, Fields, bool, str, obj, end, field}
use perimetr.Http.{Outcome, done, deny, ◌>>=◌, ◌>>◌, refuse_if}
use perimetr.Settings.{Settings, Env, second}
use perimetr.Database.{SessionLease, Database}
use perimetr.Audit.{Report, audit}
use perimetr.RateLimiter.{LoginDecision, LoginRateLimiter, check, fail, success}
use perimetr.RequestPolicy.{Request, validate_browser_origin, csrf_token}
use perimetr.Pods.Credentials.{◌+++◌}
use perimetr.Sessions.Login.{normalize_access_target, verify_direct_login}
use perimetr.Sessions.Leases.{
  expire_leases, expire_stale_sessions, hash_session_key, update_access_key,
}

pub record State : Type 0 where
  pub db : Database
  pub limiter : LoginRateLimiter

abbrev pub system_entity : String
system_entity = "5f0b6d3d90f548a9a2f1d6e9cb7f3412"

-- The new lease; the session key is the first secret of the request and its id the second.
abbrev pub direct_lease : Env → String → SessionLease
direct_lease env target = record {
  id = env.fresh 1;
  subject_id = none;
  pod_id = none;
  status = "active";
  session_key_hash = hash_session_key env (env.fresh 0);
  access_scope = target;
  transport = some "direct";
  expires_at = some (env.now / second * second + env.settings.perimetr_session_ttl_sec * second);
  ended_at = none;
}

-- `create_direct_session`, which normalizes the target again; a refusal leaves the expiry to the
-- handler's commit.
unfoldable pub create_direct_session :
    Env → String → String → Database → Outcome Database (Database × SessionLease)
unfolding expire_leases normalize_access_target verify_direct_login
create_direct_session env given access_key db = do
  target ← normalize_access_target env db given
  let db' = expire_stale_sessions env db
  refuse_if (not (verify_direct_login env db' access_key)) db' 403 "invalid_credentials"
  done (record db' { leases = db'.leases ++ direct_lease env target ∷ [] }, direct_lease env target)

abbrev pub login_report : Env → String → String → String → Fields → String → Report
login_report env actor id action result target = record {
  actor_type = actor;
  actor_id = id;
  action = action;
  target_type = "system";
  target_id = system_entity;
  payload = obj (field "target" (str target) end);
  result = obj result;
}

abbrev pub denied_report : Env → String → String → String → Report
denied_report env source_ip target reason =
    login_report env "anonymous" source_ip "direct.session.denied"
      (field "outcome" (str "denied") (field "reason" (str reason) end)) target

-- What the login returns: the lease, the session key of the cookie and the CSRF token.
pub record DirectLogin : Type 0 where
  pub lease : SessionLease
  pub session_key : String
  pub csrf : String

unfoldable pub logged_in :
    Env
    → String
    → String
    → Database
    → SessionLease
    → LoginRateLimiter
    → Outcome State (State × DirectLogin)
unfolding success csrf_token
logged_in env source_ip target db lease limiter = done (
  record {
    db =
        audit env 2
          (login_report env "direct_browser" "operator" "direct.session.created"
            (field "lease_id" (str lease.id) (field "transport" (str "direct") end)) target)
          db;
    limiter = success limiter source_ip;
  },
  record { lease = lease; session_key = env.fresh 0; csrf = csrf_token env lease.session_key_hash },
)

-- The `except` branch, in which the attempt counts, and the branch of a new lease.
unfoldable pub answer_login :
    Env
    → ℕ
    → String
    → String
    → LoginRateLimiter
    → Outcome Database (Database × SessionLease)
    → Outcome State (State × DirectLogin)
unfolding fail logged_in
answer_login env clock source_ip target limiter (deny db code detail) =
    deny
      (record {
        db = audit env 0 (denied_report env source_ip target "invalid_credentials") db;
        limiter = fail limiter source_ip clock;
      })
      401 "invalid_credentials"
answer_login env clock source_ip target limiter (done (db, lease)) =
    logged_in env source_ip target db lease limiter

-- The login of a client that the limiter lets through, after the delay.
unfoldable pub attempt_login :
    Env → ℕ → String → String → String → State → Outcome State (State × DirectLogin)
unfolding create_direct_session answer_login
attempt_login env clock source_ip target access_key s =
    answer_login env clock source_ip target s.limiter
      (create_direct_session env target access_key s.db)

-- What follows from `decision.allowed`; the state has the limiter as the check has left it.
unfoldable pub decide_login :
    Env → ℕ → String → String → String → State → Bool → Outcome State (State × DirectLogin)
unfolding attempt_login
decide_login env clock source_ip target access_key s false =
    deny (record s { db = audit env 0 (denied_report env source_ip target "rate_limit") s.db }) 429
      "too_many_login_attempts"
decide_login env clock source_ip target access_key s true =
    attempt_login env clock source_ip target access_key s

-- `direct_login`. The limiter is read before the delay and written after it; the request is taken
-- as one step, without another request of the same client in the delay.
unfoldable pub direct_login :
    Env → ℕ → Request → String → String → String → State → Outcome State (State × DirectLogin)
unfolding normalize_access_target validate_browser_origin check decide_login
direct_login env clock r source_ip given access_key s = do
  target ← normalize_access_target env s given
  validate_browser_origin env s r
  decide_login env clock source_ip target access_key
      (record s { limiter = (check s.limiter source_ip clock).1 })
      (check s.limiter source_ip clock).0.allowed

abbrev pub key_report : String → Fields → Report
key_report action result = record {
  actor_type = "operator";
  actor_id = "operator";
  action = action;
  target_type = "system";
  target_id = system_entity;
  payload = obj end;
  result = obj result;
}

abbrev pub rotation_key : SessionLease → String
rotation_key lease = "rotation:" +++ lease.id

-- The change itself: a refusal counts as a failed attempt, and is passed on.
unfoldable pub attempt_change :
    Env → ℕ → String → String → String → SessionLease → State → Outcome State State
unfolding update_access_key fail success
attempt_change env clock current_key new_key confirm_key lease s =
    elim (update_access_key env current_key new_key confirm_key lease s.db) [
      | deny db code detail ↦
          deny
            (record {
              db =
                  audit env 2
                    (key_report "auth.access_key.denied" (field "outcome" (str "denied") end)) db;
              limiter = fail s.limiter (rotation_key lease) clock;
            })
            code detail
      | done db ↦ done (record {
        db =
            audit env 2
              (key_report "auth.access_key.updated"
                (field "other_sessions_revoked" (bool true) end))
              db;
        limiter = success s.limiter (rotation_key lease);
      })
    ]

-- `change_access_key`, for a lease that `require_core_access` has returned.
unfoldable pub change_access_key :
    Env → ℕ → String → String → String → SessionLease → State → Outcome State State
unfolding check attempt_change
change_access_key env clock current_key new_key confirm_key lease s =
    let (decision, limiter) = check s.limiter (rotation_key lease) clock in
    elim decision.allowed [
      | false ↦ deny (record { db = s.db; limiter = limiter }) 429 "Too many attempts"
      | true ↦
          attempt_change env clock current_key new_key confirm_key lease
            (record { db = s.db; limiter = limiter })
    ]
