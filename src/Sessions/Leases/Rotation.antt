-- ===== src/Sessions/Leases/Rotation.antt =====
-- What changing the Access Key does to the sessions.
use perimetr.Prelude.{
  ℕ, ◌+◌, ◌*◌, String, ◌≡◌, refl, Bool, true, false, Option, some, List, [], ◌∷◌, ◌==◌, ◌&&◌,
  if◌then◌else◌, arith, eq_iff, eq_self, inl, inr, Bool-cases, ap, sym, ◌∙◌,
}
use perimetr.Http.{done, is_done, is_done-absurd}
use perimetr.Settings.{Env, second}
use perimetr.Database.{SessionLease, Database, find_lease}
use perimetr.Security.{hash_password, verify_password}
use perimetr.RequestPolicy.{Request, same_text}
use perimetr.Sessions.Leases.{
  expire_lease, expire_leases, hash_session_key, require_core_access, rotate_lease, rotate_leases,
  update_access_key,
}
use perimetr.Sessions.Leases.Access.{require_core_access-IsOperator, expire_lease-id}

abbrev in_use : SessionLease → Bool
in_use l = l.status == "active" && same_text l.transport (some "direct")

module _ (env : Env) (current : String) where
  rotated :
      (mine direct : Bool) (l : SessionLease)
      → (l.status == "active" && same_text l.transport (some "direct")) ≡ direct
      → mine ≡ false
      → in_use (
          if mine
          then record l {
            session_key_hash = hash_session_key env (env.fresh 1);
            expires_at = some (env.now + env.settings.perimetr_session_ttl_sec * second);
          }
          else if direct
          then record l { status = "revoked"; ended_at = some env.now }
          else l)
        ≡ false
  rotated true direct l h other = cc
  rotated false true l h other = refl
  rotated false false l h other = h

  rotate_lease-unused :
      (l : SessionLease) → (l.id == current) ≡ false → in_use (rotate_lease env current l) ≡ false
  unfolding rotate_lease
  rotate_lease-unused l other = rotated (l.id == current) _ l refl other

  rotate_lease-id : (l : SessionLease) → (rotate_lease env current l).id ≡ l.id
  unfolding rotate_lease
  rotate_lease-id l = elim (Bool-cases (l.id == current)) [
    | inl e ↦ rw e refl
    | inr e ↦ elim (Bool-cases (l.status == "active" && same_text l.transport (some "direct"))) [
      | inl a ↦ rw (e, a) refl
      | inr a ↦ rw (e, a) refl
    ]
  ]

  expired-unused :
      (now : ℕ) (past : Bool) (l : SessionLease)
      → in_use l ≡ false
      → in_use (if past then record l { status = "expired"; ended_at = some now } else l) ≡ false
  expired-unused now true l h = refl
  expired-unused now false l h = h

  expire_lease-unused :
      (now : ℕ) (l : SessionLease) → in_use l ≡ false → in_use (expire_lease now l) ≡ false
  unfolding expire_lease
  expire_lease-unused now l h = expired-unused now _ l h

  found_unused :
      (j : String) (q l : SessionLease) (rest : Option SessionLease)
      → (if q.id == j then some q else rest) ≡ some l
      → ((q.id == j) ≡ true → in_use q ≡ false)
      → (rest ≡ some l → in_use l ≡ false)
      → in_use l ≡ false
  found_unused j q l rest h first others = elim (Bool-cases (q.id == j)) [
    | inl e ↦ ground (arith, first e)
    | inr e ↦ others (ground arith)
  ]

  kept-unused :
      (now : ℕ) (j : String) (q : SessionLease)
      → (j == current) ≡ false
      → ((expire_lease now (rotate_lease env current q)).id == j) ≡ true
      → in_use (expire_lease now (rotate_lease env current q)) ≡ false
  kept-unused now j q other same = expire_lease-unused now (rotate_lease env current q) (
      rotate_lease-unused q (
        ground (
          arith,
          expire_lease-id now (rotate_lease env current q),
          rotate_lease-id q,
          eq_iff q.id j,
        )))

  -- Any other session that is found after the change, expired or not, is out of use.
  pub rotated-unused :
      (now : ℕ) (j : String) (ls : List SessionLease) (l : SessionLease)
      → find_lease j (expire_leases now (rotate_leases env current ls)) ≡ some l
      → (j == current) ≡ false
      → in_use l ≡ false
  unfolding find_lease expire_leases rotate_leases
  rotated-unused now j [] l h other = cc
  rotated-unused now j (q ∷ qs) l h other =
      found_unused j (expire_lease now (rotate_lease env current q)) l _ h
        (kept-unused now j q other) λ e. rotated-unused now j qs l e other

update-done :
    (env : Env) (current_key new_key confirm_key : String) (session : SessionLease)
    (db db' : Database)
    → update_access_key env current_key new_key confirm_key session db ≡ done db'
    → (verify_password env.platform current_key db.access_key_hash ≡ true)
      × (db'.access_key_hash ≡ hash_password env.platform (env.fresh 0) new_key)
      × (db'.leases ≡ rotate_leases env session.id db.leases)
unfolding update_access_key
update-done env current_key new_key confirm_key session db db' h = ground arith

unused-refused :
    (l : SessionLease) → in_use l ≡ false → l.status ≡ "active" → l.transport ≡ some "direct" → ⊥
unused-refused l h active direct =
    ground (arith, (eq_iff l.status "active").1 active, eq_self "direct")

-- A change of the Access Key that succeeds was made with the present key. In the database that it
-- leaves, the verifier is that of the new key, and no session but the one that made the change is let
-- through, at any time and whatever it carries.
pub update_access_key-signs_out :
    (env later : Env) (current_key new_key confirm_key j : String) (session : SessionLease)
    (r : Request) (key : Option String) (db db' : Database)
    → update_access_key env current_key new_key confirm_key session db ≡ done db'
    → (j == session.id) ≡ false
    → (verify_password env.platform current_key db.access_key_hash ≡ true)
      × (db'.access_key_hash ≡ hash_password env.platform (env.fresh 0) new_key)
      × (is_done (require_core_access later r (some j) key db') ≡ false)
unfolding update_access_key
update_access_key-signs_out env later current_key new_key confirm_key j session r key db db' h
      other =
    let (proved, verifier, rotated) =
      update-done env current_key new_key confirm_key session db db' h in
    (
      proved,
      verifier,
      is_done-absurd (require_core_access later r (some j) key db') λ (next, l) e.
          let (same, found, operator) =
            require_core_access-IsOperator later r (some j) key db' next l e in
          let row : find_lease j (expire_leases later.now (rotate_leases env session.id db.leases))
              ≡ some l =
            ap (λ ls. find_lease j (expire_leases later.now ls)) (sym rotated)
            ∙ (ap (λ d. find_lease j d.leases) (sym same) ∙ found) in
          unused-refused l (rotated-unused env session.id later.now j db.leases l row other)
            operator.active operator.direct,
    )
