-- ===== src/Sessions/Subjects.antt =====
-- `authorize_subject` and `revoke_subject` of app/api_service/app.py: the launch authorization of a
-- Subject, and its withdrawal.
pub mod Withdrawal
use perimetr.Prelude.{
  ℕ, ◌+◌, String, Bool, true, false, not, Option, none, some, List, [], ◌∷◌, ◌++◌, ◌==◌, ◌&&◌, any,
  or_else, if◌then◌else◌,
}
use perimetr.Json.{Json, Fields, str, obj, end, field}
use perimetr.Http.{Outcome, done, deny, missing, ◌>>=◌, ◌>>◌, refuse_if}
use perimetr.Settings.{Env}
use perimetr.Database.{Subject, Pod, LaunchAuthorization, Database, find_pod, save_subject}
use perimetr.Audit.{Report, audit}
use perimetr.Pods.Credentials.{◌+++◌}
use perimetr.Pods.Config.{is_empty_text}
use perimetr.Pods.Removal.{get_subject}
use perimetr.Sessions.Leases.{revoke_subject_access}

abbrev pub subject_report : String → String → String → Report
subject_report action id authorization_id = record {
  actor_type = "perimetr";
  actor_id = "core";
  action = action;
  target_type = "subject";
  target_id = id;
  payload = obj end;
  result = obj (field "authorization_id" (str authorization_id) end);
}

abbrev pub approved : Env → Subject → Pod → LaunchAuthorization
approved env subject pod = record {
  id = env.fresh 0;
  subject_id = subject.id;
  pod_id = pod.id;
  decision = "approved";
  reason = "authorized by perimetr";
  issued_at = some env.now;
  expires_at = none;
  revoked_at = none;
}

-- `subject.primary_route or f"/subjects/{subject.entity_id}/web"`
abbrev pub with_route : Subject → Subject
with_route s =
    if is_empty_text s.primary_route
    then record s { primary_route = some ("/subjects/" +++ s.entity_id +++ "/web") }
    else s

unfoldable pub grant_launch : Env → Subject → Pod → Database → Database
unfolding save_subject
grant_launch env subject pod db =
    audit env 1 (subject_report "subject.authorized" subject.id (env.fresh 0)) (record db {
      authorizations = db.authorizations ++ approved env subject pod ∷ [];
      subjects = save_subject (with_route subject) db.subjects;
    })

-- `authorize_subject`; the identifier of the new row is the first value that the request draws.
unfoldable pub authorize_subject :
    Env → String → Database → Outcome Database (Database × LaunchAuthorization)
unfolding get_subject find_pod grant_launch
authorize_subject env i db = do
  subject ← get_subject i db
  refuse_if (is_empty_text subject.pod_id) db 400 "subject does not have a pod"
  elim (find_pod (or_else subject.pod_id "") db.pods) [
    | none ↦ deny db 404 (missing "pod" (or_else subject.pod_id ""))
    | some pod ↦ done (grant_launch env subject pod db, approved env subject pod)
  ]

-- The authorization that `revoke_subject_access` returns: the newest of the Subject.
unfoldable pub newest_of : String → List LaunchAuthorization → Option LaunchAuthorization
newest_of subject_id [] = none
newest_of subject_id (a ∷ later) =
    let rest = newest_of subject_id later in
    elim rest [ some b ↦ some b | none ↦ if a.subject_id == subject_id then some a else none ]

-- `revoke_subject`. Without an authorization nothing is committed: the leases stay as they were.
unfoldable pub revoke_subject :
    Env → String → Database → Outcome Database (Database × LaunchAuthorization)
unfolding get_subject newest_of revoke_subject_access
revoke_subject env i db = do
  subject ← get_subject i db
  let db' = revoke_subject_access env subject.id "revoked by perimetr" db
  elim (newest_of subject.id db'.authorizations) [
    | none ↦ deny db 404 "authorization not found"
    | some a ↦ done (audit env 0 (subject_report "subject.revoked" subject.id a.id) db', a)
  ]
