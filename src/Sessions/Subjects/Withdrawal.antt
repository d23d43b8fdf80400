-- ===== src/Sessions/Subjects/Withdrawal.antt =====
-- What the withdrawal of an authorization ends.
use perimetr.Prelude.{
  ℕ, String, ◌≡◌, refl, Bool, true, false, some, List, [], ◌∷◌, ◌==◌, ◌&&◌, any, if◌then◌else◌,
  arith, inl, inr, Option-cases, ap, ◌∙◌,
}
use perimetr.Http.{done, refuse_if}
use perimetr.Settings.{Env}
use perimetr.Database.{Subject, LaunchAuthorization, SessionLease, Database}
use perimetr.RequestPolicy.{same_text}
use perimetr.Pods.Removal.{get_subject}
use perimetr.Sessions.Leases.{
  revoke_latest, revoke_leases, revoke_subject_access, ensure_single_active_subject_lease,
}
use perimetr.Sessions.Subjects.{newest_of, revoke_subject}

abbrev is_active_of : String → SessionLease → Bool
is_active_of subject_id l = same_text l.subject_id (some subject_id) && l.status == "active"

module _ (now : ℕ) (subject_id : String) where
  ended :
      (test : Bool) (l : SessionLease)
      → is_active_of subject_id l ≡ test
      → is_active_of subject_id
          (if test then record l { status = "revoked"; ended_at = some now } else l)
        ≡ false
  ended true l h = ground arith
  ended false l h = h

  none_active :
      (ls : List SessionLease)
      → any (is_active_of subject_id) (revoke_leases now subject_id ls) ≡ false
  unfolding revoke_leases
  none_active [] = refl
  none_active (l ∷ ls) = ground (arith, ended (is_active_of subject_id l) l refl, none_active ls)

revoke-done :
    (env : Env) (i : String) (s : Subject) (db db' : Database) (a : LaunchAuthorization)
    → get_subject i db ≡ done s
    → revoke_subject env i db ≡ done (db', a)
    → (db'.leases ≡ revoke_leases env.now s.id db.leases)
      × (newest_of s.id db'.authorizations ≡ some a)
      × (db'.pods ≡ db.pods)
unfolding revoke_subject revoke_subject_access
revoke-done env i s db db' a found h =
    let rows = revoke_latest env.now s.id "revoked by perimetr" db.authorizations in
    elim (Option-cases (newest_of s.id rows)) [
      | inl e ↦ absurd (ground arith)
      | inr (b, e) ↦ ground arith
    ]

-- A withdrawal that succeeds ends every active session of the Subject, so that the check for a
-- single active session lets the next one start, and it answers with the newest authorization of the
-- Subject, as it is stored then.
pub revoke_subject-ends_sessions :
    (env : Env) (i : String) (s : Subject) (db db' : Database) (a : LaunchAuthorization)
    → get_subject i db ≡ done s
    → revoke_subject env i db ≡ done (db', a)
    → (ensure_single_active_subject_lease s.id db' ≡ done tt)
      × (newest_of s.id db'.authorizations ≡ some a)
unfolding ensure_single_active_subject_lease
revoke_subject-ends_sessions env i s db db' a found h =
    let (leases, newest, pods) = revoke-done env i s db db' a found h in
    (
      ap
            (λ ls.
              refuse_if (any (is_active_of s.id) ls) db' 409
                "active lease already exists for subject")
            leases
          ∙ ap (λ b. refuse_if b db' 409 "active lease already exists for subject")
              (none_active env.now s.id db.leases),
      newest,
    )
