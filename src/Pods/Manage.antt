-- ===== src/Pods/Manage.antt =====
-- What the operator does with a Pod: `revoke_pod`, `rename_pod`, `change_pod_password`, `release_pod`
-- and the status that `list_subject_pods` computes, of app/api_service/app.py.
pub mod Denial
pub mod Lockout
use perimetr.Prelude.{
  ℕ, ◌+◌, ◌-◌, ◌*◌, String, Bool, true, false, not, Option, none, some, ◌==◌, ◌!=◌, ◌&&◌, ◌||◌, ltb,
  leb, if◌then◌else◌, List, [], ◌∷◌, ◌++◌, or_else, keep,
}
use perimetr.Json.{Json, Fields, bool, str, obj, end, field, set_field}
use perimetr.Http.{Outcome, done, deny, missing, ◌>>=◌, ◌>>◌, refuse_if}
use perimetr.Settings.{Settings, Env, second}
use perimetr.Database.{
  Subject, Pod, PodDenylist, Database, find_pod, find_subject_row, save_pod, save_subject,
  is_denied,
}
use perimetr.Audit.{Report, audit}
use perimetr.Pods.Credentials.{hash_pod_password}

abbrev pub operator_report : String → String → Json → Report
operator_report pod_id action result = record {
  actor_type = "perimetr";
  actor_id = "core";
  action = action;
  target_type = "pod";
  target_id = pod_id;
  payload = obj end;
  result = result;
}

-- One turn of the loop over the identifiers: an empty one is skipped, and so is one that is denied.
-- The query sees the rows before this request, which is `stored`: the rows that the request has
-- added are not flushed.
unfoldable pub deny_identifier :
    List PodDenylist → Pod → String → String → String → List PodDenylist → List PodDenylist
unfolding is_denied
deny_identifier stored pod reason kind value ds =
    if value == "" || is_denied kind value stored
    then ds
    else ds
      ++ record {
        pod_id = some pod.id;
        subject_id = some pod.subject_id;
        identifier_type = kind;
        identifier_value = value;
        reason = reason;
      }
        ∷ []

-- The three identifiers of a Pod.
unfoldable pub deny_pod : List PodDenylist → Pod → String → List PodDenylist → List PodDenylist
unfolding deny_identifier
deny_pod stored pod reason ds =
    deny_identifier stored pod reason "device_binding_fingerprint" pod.device_binding_fingerprint (
      deny_identifier stored pod reason "certificate_fingerprint" pod.certificate_fingerprint
        (deny_identifier stored pod reason "pod_id" pod.id ds))

-- `if pod.subject.pod_id == pod.id: pod.subject.pod_id = None`
unfoldable pub detach_pod : Pod → List Subject → List Subject
detach_pod pod [] = []
detach_pod pod (s ∷ ss) =
    (if s.id == pod.subject_id
      then (elim s.pod_id [
        | none ↦ s
        | some i ↦ if i == pod.id then record s { pod_id = none } else s
      ])
      else s)
    ∷ detach_pod pod ss

abbrev pub revoked_row : Env → Pod → Pod
revoked_row env pod = record pod {
  status = "revoked";
  revoked_at = some env.now;
  revoke_reason = "operator_deleted";
}

unfoldable pub revoke_row : Env → Pod → Database → Database
unfolding deny_pod detach_pod save_pod
revoke_row env pod db =
    audit env 0
      (operator_report pod.id "pod.revoked"
        (obj (field "fingerprint_blacklisted" (bool (pod.certificate_fingerprint != "")) end)))
      (record db {
        denylist = deny_pod db.denylist pod "operator_deleted" db.denylist;
        pods = save_pod (revoked_row env pod) db.pods;
        subjects = detach_pod pod db.subjects;
      })

-- `revoke_pod`.
unfoldable pub revoke_pod : Env → String → Database → Outcome Database (Database × String)
unfolding find_pod revoke_row
revoke_pod env i db = elim (find_pod i db.pods) [
  | none ↦ deny db 404 (missing "pod" i)
  | some pod ↦ done (if pod.status != "revoked" then revoke_row env pod db else db, "revoked")
]

-- `rename_pod`.
unfoldable pub rename_pod : Env → String → String → Database → Outcome Database (Database × Pod)
unfolding find_pod save_pod
rename_pod env i name db = elim (find_pod i db.pods) [
  | none ↦ deny db 404 (missing "pod" i)
  | some pod ↦
      let stripped = env.platform.strip name in
      let pod' : Pod = record pod { name = if stripped == "" then pod.name else stripped } in
      done (
        audit env 0 (operator_report pod.id "pod.renamed" (obj (field "name" (str pod'.name) end)))
            (record db { pods = save_pod pod' db.pods }),
        pod',
      )
]

-- `change_pod_password`.
unfoldable pub change_pod_password :
    Env → String → String → String → Database → Outcome Database (Database × Pod)
unfolding find_pod save_pod hash_pod_password
change_pod_password env i new_password confirm_password db = elim (find_pod i db.pods) [
  | none ↦ deny db 404 (missing "pod" i)
  | some pod ↦ do
    refuse_if (new_password != confirm_password) db 400 "pod_password_confirmation_mismatch"
    verifier ← hash_pod_password env db 0 new_password
    let pod' : Pod = record pod { password_hash = verifier }
    done (
      audit env 1 (operator_report pod.id "pod.password.updated" (obj end))
          (record db { pods = save_pod pod' db.pods }),
      pod',
    )
]

-- `release_pod`.
unfoldable pub release_pod : Env → String → Database → Outcome Database (Database × Pod)
unfolding find_pod save_pod set_field
release_pod env i db = elim (find_pod i db.pods) [
  | none ↦ deny db 404 (missing "pod" i)
  | some pod ↦
      let pod' : Pod = record pod {
        runtime_state = set_field "released" (bool true) pod.runtime_state;
      } in
      done (
        audit env 0 (operator_report pod.id "pod.released" (obj (field "released" (bool true) end)))
            (record db { pods = save_pod pod' db.pods }),
        pod',
      )
]

-- The loop of `list_subject_pods` over the Pods of a Subject: the status follows the last heartbeat,
-- unless the Pod is revoked or suspicious. `current - last <= timedelta(seconds=…)` also holds of a
-- heartbeat in the future.
abbrev pub is_online : Env → Option ℕ → Bool
is_online env none = false
is_online env (some at) = leb (env.now - at) (env.settings.perimetr_pod_offline_after_sec * second)

unfoldable pub listed_row : Env → Pod → Pod
listed_row env pod =
    if pod.status == "revoked" || pod.status == "suspicious"
    then pod
    else record pod { status = if is_online env pod.last_heartbeat_at then "active" else "offline" }

unfoldable pub list_rows : Env → String → List Pod → List Pod
unfolding listed_row
list_rows env subject_id [] = []
list_rows env subject_id (p ∷ ps) =
    (if p.subject_id == subject_id then listed_row env p else p) ∷ list_rows env subject_id ps

-- The stored rows and the rows that the answer holds.
unfoldable pub list_subject_pods : Env → String → Bool → Database → Database × List Pod
unfolding list_rows
list_subject_pods env subject_id include_revoked db =
    let rows = list_rows env subject_id db.pods in
    let instances = keep (λ p. p.subject_id == subject_id) rows in
    (
      record db { pods = rows },
      if include_revoked then instances else keep (λ p. p.status != "revoked") instances,
    )
