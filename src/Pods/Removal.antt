-- ===== src/Pods/Removal.antt =====
-- `delete_pending_pod` and `delete_subject` of app/api_service/app.py: the removal of a provisioning
-- record, and of a Subject with all that hangs on it. The correlation map is not part of the
-- database modelled here.
pub mod Conflicts
pub mod SharedDevice
pub mod Cascade
mod Tests
use perimetr.Prelude.{
  ℕ, ◌+◌, String, Bool, true, false, not, Option, none, some, ◌==◌, ◌!=◌, ◌&&◌, ◌||◌, if◌then◌else◌,
  List, [], ◌∷◌, ◌++◌, any, keep,
}
use perimetr.Json.{Json, obj, end}
use perimetr.Http.{Outcome, done, deny, missing, ◌>>=◌, ◌>>◌, refuse_if}
use perimetr.Settings.{Env}
use perimetr.Database.{
  Subject, Pod, PodProvisioningRecord, PodDenylist, LaunchAuthorization, SessionLease, Database,
  find_record, find_subject_row, save_record, is_denied,
}
use perimetr.Audit.{Report, audit}
use perimetr.Pods.Enroll.{add_denied}
use perimetr.Pods.Manage.{deny_pod}

-- `get_subject`: by the identifier of the row, and then by the public one.
unfoldable pub find_entity : String → List Subject → Option Subject
find_entity i [] = none
find_entity i (s ∷ ss) = if s.entity_id == i then some s else find_entity i ss

unfoldable pub get_subject : String → Database → Outcome Database Subject
unfolding find_subject_row find_entity
get_subject i db = elim (find_subject_row i db.subjects) [
  | some s ↦ done s
  | none ↦ elim (find_entity i db.subjects) [
    | none ↦ deny db 404 (missing "subject" i)
    | some s ↦ done s
  ]
]

abbrev pub removal_report : String → String → String → Report
removal_report action kind id = record {
  actor_type = "perimetr";
  actor_id = "core";
  action = action;
  target_type = kind;
  target_id = id;
  payload = obj end;
  result = obj end;
}

-- The record after its removal, and the row that denies its token.
abbrev pub removed_record : Env → PodProvisioningRecord → PodProvisioningRecord
removed_record env r = record r {
  status = "revoked";
  enrollment_token_encrypted = "";
  revoked_at = some env.now;
}

abbrev pub removal_denied : Subject → PodProvisioningRecord → PodDenylist
removal_denied subject r = record {
  pod_id = none;
  subject_id = some subject.id;
  identifier_type = "enrollment_token";
  identifier_value = r.enrollment_token_hash;
  reason = "provisioning_removed";
}

unfoldable pub remove_record :
    Env → Subject → PodProvisioningRecord → Database → Outcome Database (Database × String)
unfolding save_record add_denied
remove_record env subject r db = do
  refuse_if (r.subject_id != subject.id) db 404 "pod_provisioning_not_found"
  refuse_if (r.status == "active") db 409 "active_pod_must_be_revoked"
  db' ←
      add_denied db (removal_denied subject r)
        (record db { provisioning = save_record (removed_record env r) db.provisioning })
  done (audit env 0 (removal_report "pod.provisioning.removed" "pod_provisioning" r.id) db', r.id)

-- `delete_pending_pod`.
unfoldable pub delete_pending_pod :
    Env → String → String → Database → Outcome Database (Database × String)
unfolding get_subject find_record remove_record
delete_pending_pod env subject_id provisioning_id db = do
  subject ← get_subject subject_id db
  elim (find_record provisioning_id db.provisioning) [
    | none ↦ deny db 404 "pod_provisioning_not_found"
    | some r ↦ remove_record env subject r db
  ]

-- The rows that `delete_subject` adds for the Subject's Pods. No query sees a row added before it.
unfoldable pub deny_pods :
    List PodDenylist → String → List Pod → List PodDenylist → List PodDenylist
unfolding deny_pod
deny_pods stored subject_id [] ds = ds
deny_pods stored subject_id (p ∷ ps) ds =
    deny_pods stored subject_id ps
      (if p.subject_id == subject_id then deny_pod stored p "subject_deleted" ds else ds)

-- The unique constraint on the type and the value, over the whole table at the flush.
unfoldable pub has_conflict : List PodDenylist → Bool
unfolding is_denied
has_conflict [] = false
has_conflict (d ∷ ds) = is_denied d.identifier_type d.identifier_value ds || has_conflict ds

abbrev pub is_one_of : List String → Option String → Bool
is_one_of ids none = false
is_one_of ids (some i) = any (λ j. j == i) ids

unfoldable pub pod_ids_of : String → List Pod → List String
pod_ids_of subject_id [] = []
pod_ids_of subject_id (p ∷ ps) =
    let rest = pod_ids_of subject_id ps in if p.subject_id == subject_id then p.id ∷ rest else rest

abbrev pub is_subject : String → Option String → Bool
is_subject i none = false
is_subject i (some j) = j == i

-- What the cascade of deletions leaves.
unfoldable pub without_subject : Subject → Database → Database
unfolding deny_pods pod_ids_of
without_subject s db =
    let ids = pod_ids_of s.id db.pods in
    record db {
      denylist = deny_pods db.denylist s.id db.pods db.denylist;
      authorizations = keep (λ a. a.subject_id != s.id) db.authorizations;
      leases = keep (λ l. not (is_subject s.id l.subject_id || is_one_of ids l.pod_id)) db.leases;
      pods = keep (λ p. p.subject_id != s.id) db.pods;
      provisioning = keep (λ r. r.subject_id != s.id) db.provisioning;
      subjects = keep (λ t. t.id != s.id) db.subjects;
    }

-- `delete_subject`. The flush of the added rows comes before the commit.
unfoldable pub delete_subject : Env → String → Database → Outcome Database (Database × String)
unfolding get_subject without_subject has_conflict
delete_subject env i db = do
  s ← get_subject i db
  let db' = without_subject s db
  refuse_if (has_conflict db'.denylist) db 500 "IntegrityError"
  done (audit env 0 (removal_report "subject.deleted" "subject" s.entity_id) db', s.entity_id)
