-- ===== src/Sessions/Leases/Access.antt =====
-- Who has access to the operator's API, and for how long.
use perimetr.Prelude.{
  ℕ, String, ◌≡◌, refl, Bool, true, false, Option, none, some, List, [], ◌∷◌, ◌==◌, ◌&&◌,
  if◌then◌else◌, arith, eq_iff, inl, inr, Option-cases, Bool-cases, or_else, eq_of_test, ap, sym,
  ◌∙◌,
}
use perimetr.Http.{done, >>=-eq-done, is_done, is_done-absurd}
use perimetr.Settings.{Env}
use perimetr.Database.{SessionLease, Database, find_lease, save_lease}
use perimetr.Database.Rows.{find_lease-id, find_lease-save_lease}
use perimetr.RequestPolicy.{
  Request, validate_csrf, validate_browser_origin, csrf_token, is_safe_method, same_text,
}
use perimetr.Sessions.Leases.{
  is_past, expire_lease, expire_leases, expire_stale_sessions, hash_session_key,
  require_core_access, direct_logout, get_session_lease, check_lease,
}

-- What access to the operator's API rests on.
pub record IsOperator (env : Env) (r : Request) (key : Option String) (lease : SessionLease)
    : Type 0 where
  pub active : lease.status ≡ "active"
  pub in_time : is_past env.now lease.expires_at ≡ false
  pub secret : lease.session_key_hash ≡ hash_session_key env (or_else key "")
  pub scope : lease.access_scope ≡ "perimetr"
  pub direct : lease.transport ≡ some "direct"
  pub csrf :
      is_safe_method r.method ≡ false
      → or_else r.x_csrf_token "" ≡ csrf_token env lease.session_key_hash

-- After the expiry of stale sessions no active lease is past its time.
expired-in_time :
    (now : ℕ) (l : SessionLease) (test : Bool)
    → (l.status == "active" && is_past now l.expires_at) ≡ test
    → ((if test then record l { status = "expired"; ended_at = some now } else l).status
        == "active")
      ≡ true
    → is_past now
        (if test then record l { status = "expired"; ended_at = some now } else l).expires_at
      ≡ false
expired-in_time now l true h active = ground arith
expired-in_time now l false h active = ground arith

expire_lease-in_time :
    (now : ℕ) (l : SessionLease)
    → ((expire_lease now l).status == "active") ≡ true
    → is_past now (expire_lease now l).expires_at ≡ false
unfolding expire_lease
expire_lease-in_time now l active = expired-in_time now l _ refl active

-- Expiry keeps a session's id.
pub expire_lease-id : (now : ℕ) (l : SessionLease) → (expire_lease now l).id ≡ l.id
unfolding expire_lease
expire_lease-id now l = elim (Bool-cases (l.status == "active" && is_past now l.expires_at)) [
  | inl e ↦ rw e refl
  | inr e ↦ rw e refl
]

expire_leases-in_time :
    (now : ℕ) (i : String) (ls : List SessionLease) (l : SessionLease)
    → find_lease i (expire_leases now ls) ≡ some l
    → (l.status == "active") ≡ true
    → is_past now l.expires_at ≡ false
unfolding find_lease expire_leases
expire_leases-in_time now i [] l h active = cc
expire_leases-in_time now i (q ∷ qs) l h active =
    ground (arith, expire_leases-in_time now i qs l, expire_lease-in_time now q)

pub find_lease-expire_leases :
    (now : ℕ) (i : String) (ls : List SessionLease) (l : SessionLease)
    → find_lease i ls ≡ some l
    → find_lease i (expire_leases now ls) ≡ some (expire_lease now l)
unfolding find_lease expire_leases
find_lease-expire_leases now i [] l h = cc
find_lease-expire_leases now i (q ∷ qs) l h =
    ground (arith, find_lease-expire_leases now i qs l, expire_lease-id now q)

same_text-eq : (a : Option String) (b : String) → same_text a (some b) ≡ true → a ≡ some b
same_text-eq none b h = cc
same_text-eq (some a) b h = ap some (eq_of_test a b h)

module _ (env : Env) (r : Request) (i key : Option String) where
  csrf-done :
      (db : Database) (hash : String) {u : Unit {0}}
      → validate_csrf env db r hash ≡ done u
      → is_safe_method r.method ≡ false
      → or_else r.x_csrf_token "" ≡ csrf_token env hash
  unfolding validate_csrf
  csrf-done db hash h unsafe =
      let (u, h0, h1) = >>=-eq-done (validate_browser_origin env db r) _ h in
      ground (arith, eq_iff (or_else r.x_csrf_token "") (csrf_token env hash))

  session-done :
      (db : Database) (lease : SessionLease)
      → get_session_lease db i key ≡ done lease
      → find_lease (or_else i "") db.leases ≡ some lease
  unfolding get_session_lease
  session-done db lease h = elim (Option-cases (find_lease (or_else i "") db.leases)) [
    | inl e ↦ absurd (ground arith)
    | inr (l, e) ↦ ground arith
  ]

  check-done :
      (db : Database) (l : SessionLease) {u : Unit {0}}
      → check_lease env key db l ≡ done u
      → (l.status ≡ "active")
        × (l.session_key_hash ≡ hash_session_key env (or_else key ""))
        × (l.access_scope ≡ "perimetr")
        × (same_text l.transport (some "direct") ≡ true)
  unfolding check_lease
  check-done db l h = ground (
    arith,
    eq_iff l.status "active",
    eq_iff l.session_key_hash (hash_session_key env (or_else key "")),
    eq_iff l.access_scope "perimetr",
  )

  operator :
      (db : Database) (l : SessionLease) {u v : Unit {0}}
      → get_session_lease (expire_stale_sessions env db) i key ≡ done l
      → check_lease env key (expire_stale_sessions env db) l ≡ done u
      → validate_csrf env (expire_stale_sessions env db) r l.session_key_hash ≡ done v
      → IsOperator env r key l
  operator db l h1 h2 h3 =
      let stale : Database = expire_stale_sessions env db in
      let (active, secret, scope, direct) = check-done stale l h2 in
      record {
        active = active;
        in_time =
            expire_leases-in_time env.now (or_else i "") db.leases l (session-done stale l h1)
              (rw active refl);
        secret = secret;
        scope = scope;
        direct = same_text-eq l.transport "direct" direct;
        csrf = csrf-done stale l.session_key_hash h3;
      }

  -- A request that is let through names a session which is active, not past its time, of the right
  -- scope and transport, and whose key it holds, and carries the session's token if its method is not
  -- a safe one; nothing has changed but that stale sessions have expired.
  pub require_core_access-IsOperator :
      (db db' : Database) (lease : SessionLease)
      → require_core_access env r i key db ≡ done (db', lease)
      → (db' ≡ expire_stale_sessions env db)
        × (find_lease (or_else i "") db'.leases ≡ some lease)
        × IsOperator env r key lease
  unfolding require_core_access
  require_core_access-IsOperator db db' lease h =
      let stale : Database = expire_stale_sessions env db in
      let (l, h1, e1) = >>=-eq-done (get_session_lease stale i key) _ h in
      let (u2, h2, e2) = >>=-eq-done (check_lease env key stale l) _ e1 in
      let (u3, h3, e3) = >>=-eq-done (validate_csrf env stale r l.session_key_hash) _ e2 in
      let same : (db' ≡ stale) × (lease ≡ l) = ground arith in
      (same.0, ground (arith, session-done stale l h1), rw same.1 (operator db l h1 h2 h3))

status_of : Option SessionLease → String
status_of none = "active"
status_of (some l) = l.status

revoked-inactive : ◌≡◌ {A = String} "revoked" "active" → ⊥
revoked-inactive h = absurd (ground (arith, (eq_iff "revoked" "active").1 h))

-- In the database that a sign-out leaves, no request with that session is let through, whatever key
-- or token it carries and at any time.
pub direct_logout-ends :
    (env later : Env) (r again : Request) (i key other : Option String) (db db' : Database)
    (lease : SessionLease)
    → require_core_access env r i key db ≡ done (db', lease)
    → is_done (require_core_access later again i other (direct_logout env lease db')) ≡ false
unfolding direct_logout expire_lease status_of
direct_logout-ends env later r again i key other db db' lease h =
    let (same, found, operator) = require_core_access-IsOperator env r i key db db' lease h in
    let ended : SessionLease = record lease { status = "revoked"; ended_at = some env.now } in
    let saved : find_lease (or_else i "") (save_lease ended db'.leases) ≡ some ended =
      find_lease-save_lease (or_else i "") ended lease db'.leases found
        (find_lease-id (or_else i "") db'.leases lease found) in
    let after = find_lease-expire_leases later.now (or_else i "") _ ended saved in
    is_done-absurd (require_core_access later again i other (direct_logout env lease db'))
      λ (next, l) e.
        let (same', found', operator') =
          require_core_access-IsOperator later again i other (direct_logout env lease db') next l
            e in
        let same_row : some l ≡ some ended =
          sym found' ∙ ap (λ d. find_lease (or_else i "") d.leases) same' ∙ after in
        absurd (revoked-inactive (sym (ap status_of same_row) ∙ operator'.active))
