-- ===== src/Sessions/Direct/Grant.antt =====
-- What a login with the Access Key gives, and what it needs.
use perimetr.Prelude.{
  ℕ, ◌+◌, ◌*◌, ◌/◌, String, ◌≡◌, refl, Bool, true, false, none, some, List, [], ◌∷◌, ◌++◌, ◌==◌,
  ◌<◌, if◌then◌else◌, arith, eq_iff, eq_self, ap, sym, ◌∙◌,
}
use perimetr.Http.{Outcome, done, deny, >>=-eq-done, is_done}
use perimetr.Settings.{Env, second}
use perimetr.Database.{SessionLease, Database, find_lease}
use perimetr.RateLimiter.{LoginRateLimiter, check}
use perimetr.RequestPolicy.{Request, is_safe_method, validate_browser_origin, validate_csrf}
use perimetr.Sessions.Login.{normalize_access_target, verify_direct_login}
use perimetr.Sessions.Leases.{
  expire_lease, expire_leases, hash_session_key, require_core_access, get_session_lease,
  check_lease,
}
use perimetr.Sessions.Leases.Access.{expire_lease-id, find_lease-expire_leases}
use perimetr.Sessions.Direct.{
  State, DirectLogin, direct_lease, create_direct_session, attempt_login, answer_login, logged_in,
  direct_login, decide_login,
}

module _ (env : Env) where
  created :
      (given access_key : String) (db db' : Database) (lease : SessionLease)
      → create_direct_session env given access_key db ≡ done (db', lease)
      → (t : String) × (normalize_access_target env db given ≡ done t)
        × (verify_direct_login env db access_key ≡ true)
        × (db'.leases ≡ expire_leases env.now db.leases ++ direct_lease env t ∷ [])
        × (lease ≡ direct_lease env t)
  unfolding create_direct_session verify_direct_login
  created given access_key db db' lease h =
      let (t, h0, h1) = >>=-eq-done (normalize_access_target env db given) _ h in
      (t, h0, ground arith, ground arith, ground arith)

  is_perimetr :
      {S : Type 0} (db : S) (given t : String)
      → normalize_access_target env db given ≡ done t
      → t ≡ "perimetr"
  unfolding normalize_access_target
  is_perimetr db given t h =
      let value =
        env.platform.lower (env.platform.strip (if given == "" then "perimetr" else given)) in
      ground (arith, eq_iff value "perimetr")

  module _ (clock : ℕ) (source_ip : String) (s s' : State) (login : DirectLogin) where
    answered :
        (target : String) (limiter : LoginRateLimiter)
        (o : Outcome Database (Database × SessionLease))
        → answer_login env clock source_ip target limiter o ≡ done (s', login)
        → (db : Database) × (lease : SessionLease) × (o ≡ done (db, lease))
          × (s'.db.leases ≡ db.leases)
          × (login.lease ≡ lease)
          × (login.session_key ≡ env.fresh 0)
    unfolding answer_login logged_in
    answered target limiter (deny db code detail) h = cc
    answered target limiter (done (db, lease)) h =
        (db, lease, refl, ground arith, ground arith, ground arith)

    attempted :
        (target access_key : String)
        → attempt_login env clock source_ip target access_key s ≡ done (s', login)
        → (verify_direct_login env s.db access_key ≡ true)
          × (s'.db.leases ≡ expire_leases env.now s.db.leases ++ direct_lease env "perimetr" ∷ [])
          × (login.lease ≡ direct_lease env "perimetr")
          × (login.session_key ≡ env.fresh 0)
    unfolding attempt_login
    attempted target access_key h =
        let (db, lease, made, leases, same, key) =
          answered target s.limiter (create_direct_session env target access_key s.db) h in
        let (t, ht, proved, rows, row) = created target access_key s.db db lease made in
        let t_eq = is_perimetr s.db target t ht in
        (proved, leases ∙ rw (← t_eq) rows, same ∙ rw (← t_eq) row, key)

decided :
    (env : Env) (clock : ℕ) (source_ip target access_key : String) (s : State) (allowed : Bool)
    {p : State × DirectLogin}
    → decide_login env clock source_ip target access_key s allowed ≡ done p
    → (allowed ≡ true) × (attempt_login env clock source_ip target access_key s ≡ done p)
unfolding decide_login
decided env clock source_ip target access_key s false h = cc
decided env clock source_ip target access_key s true h = (refl, h)

find_lease-expired_none :
    (now : ℕ) (i : String) (ls : List SessionLease)
    → find_lease i ls ≡ none
    → find_lease i (expire_leases now ls) ≡ none
unfolding find_lease expire_leases
find_lease-expired_none now i [] h = refl
find_lease-expired_none now i (q ∷ qs) h =
    ground (arith, find_lease-expired_none now i qs, expire_lease-id now q)

find_lease-append_new :
    (i : String) (l : SessionLease) (ls : List SessionLease)
    → find_lease i ls ≡ none
    → l.id ≡ i
    → find_lease i (ls ++ l ∷ []) ≡ some l
unfolding find_lease
find_lease-append_new i l [] h e = ground (arith, eq_iff l.id i)
find_lease-append_new i l (q ∷ qs) h e = ground (arith, find_lease-append_new i l qs)

expire_lease-kept :
    (now at : ℕ) (l : SessionLease) → l.expires_at ≡ some at → now < at → expire_lease now l ≡ l
unfolding expire_lease
expire_lease-kept now at l e h = ground arith

-- A lease whose identifier and key are presented, by a method that needs no CSRF token.
granted :
    (later : Env) (r : Request) (l : SessionLease) (key : String) (db : Database)
    → is_safe_method r.method ≡ true
    → (l.id == "") ≡ false
    → (key == "") ≡ false
    → find_lease l.id (expire_leases later.now db.leases) ≡ some l
    → l.status ≡ "active"
    → l.session_key_hash ≡ hash_session_key later key
    → l.access_scope ≡ "perimetr"
    → l.transport ≡ some "direct"
    → is_done (require_core_access later r (some l.id) (some key) db) ≡ true
unfolding require_core_access get_session_lease check_lease validate_csrf validate_browser_origin
granted later r l key db safe named keyed found active secret scope direct = ground (
  arith,
  eq_iff l.status "active",
  eq_iff l.session_key_hash (hash_session_key later key),
  eq_iff l.access_scope "perimetr",
  eq_self "direct",
)

-- The lease of a login, found again after it was added and after stale leases expired.
lease_found :
    (env : Env) (now : ℕ) (ls : List SessionLease)
    → find_lease (env.fresh 1) ls ≡ none
    → now < env.now / second * second + env.settings.perimetr_session_ttl_sec * second
    → find_lease
        (env.fresh 1)
        (expire_leases now (expire_leases env.now ls ++ direct_lease env "perimetr" ∷ []))
      ≡ some (direct_lease env "perimetr")
lease_found env now ls new early =
    find_lease-expire_leases now (env.fresh 1) _ (direct_lease env "perimetr") (
      find_lease-append_new (env.fresh 1) (direct_lease env "perimetr") (expire_leases env.now ls)
        (find_lease-expired_none env.now (env.fresh 1) ls new) refl)
    ∙ ap some (expire_lease-kept now _ (direct_lease env "perimetr") refl early)

-- A login that succeeds was let through by the limiter and made with the Access Key. If the id and
-- the key that it drew are not empty and the id is new, the cookies that it sets give access to the
-- operator's API by every method that is safe, until the session's time is over.
pub direct_login-IsGranted :
    (env later : Env) (clock : ℕ) (r again : Request) (source_ip given access_key : String)
    (s s' : State) (login : DirectLogin)
    → direct_login env clock r source_ip given access_key s ≡ done (s', login)
    → (env.fresh 0 == "") ≡ false
    → (env.fresh 1 == "") ≡ false
    → find_lease (env.fresh 1) s.db.leases ≡ none
    → later.platform ≡ env.platform
    → later.now < env.now / second * second + env.settings.perimetr_session_ttl_sec * second
    → is_safe_method again.method ≡ true
    → ((check s.limiter source_ip clock).0.allowed ≡ true)
      × (verify_direct_login env s.db access_key ≡ true)
      × (is_done
            (require_core_access later again (some login.lease.id) (some login.session_key) s'.db)
          ≡ true)
unfolding direct_login
direct_login-IsGranted env later clock r again source_ip given access_key s s' login h keyed named
      new same early safe =
    let (target, h0, h1) = >>=-eq-done (normalize_access_target env s given) _ h in
    let (u, h2, h3) = >>=-eq-done (validate_browser_origin env s r) _ h1 in
    let limited : State = record s { limiter = (check s.limiter source_ip clock).1 } in
    let (allowed, h4) = decided env clock source_ip target access_key limited _ h3 in
    let (proved, rows, row, key) =
      attempted env clock source_ip limited s' login target access_key h4 in
    (
      allowed,
      proved,
      rw (row, key)
          (granted later again (direct_lease env "perimetr") (env.fresh 0) s'.db safe named keyed
            (ap (λ ls. find_lease (env.fresh 1) (expire_leases later.now ls)) rows
              ∙ lease_found env later.now s.db.leases new early)
            refl (ap (λ p. p.sha256_hex (env.fresh 0)) (sym same)) refl refl),
    )
