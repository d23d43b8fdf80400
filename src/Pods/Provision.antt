-- ===== src/Pods/Provision.antt =====
-- `create_subject_pod` of app/api_service/app.py: a provisioning record and its one-time token. The
-- release artifacts that app/pod_artifacts.py fetches are a parameter.
pub mod Download
mod Tests
pub mod Redeem
use perimetr.Prelude.{
  ℕ, ◌+◌, ◌*◌, String, Bool, true, false, not, Option, none, some, List, [], ◌∷◌, ◌++◌, ◌==◌, ◌!=◌,
  ◌&&◌, ◌||◌, nat_eq, if◌then◌else◌, or_else,
}
use perimetr.Json.{
  Json, Fields, Items, Number, null, bool, num, str, arr, obj, nil, cons, end, field, pos, negsuc,
  float, get_field, set_field, is_true,
}
use perimetr.Http.{Outcome, done, deny, ◌>>=◌, ◌>>◌, refuse_if}
use perimetr.Settings.{Settings, Env, second}
use perimetr.Database.{Subject, PodProvisioningRecord, Database, find_record, save_record}
use perimetr.Audit.{Report, audit}
use perimetr.Pods.Credentials.{
  ◌+++◌, compare_digest, encrypt_secret, decrypt_secret, hash_token, hash_pod_password,
}
use perimetr.Pods.Config.{validate_subject_pod_config, rstrip_slash}
use perimetr.Pods.Names.{pod_executable_name}
use perimetr.Pods.Applicant.{is_expired, is_consumed}
use perimetr.Pods.Removal.{get_subject}
use perimetr.Artifacts.{Artifact}

-- An artifact, or the text of a `PodArtifactError`.
pub data Fetched : Type 0 where
  fetched : Artifact → Fetched
  unavailable : String → Fetched

-- `ensure_latest_pod_artifact(settings, force=…)`, and `resolve_pinned_pod_artifact` at a digest, a
-- version and the stored manifest.
pub record Artifacts : Type 0 where
  pub latest : Bool → Fetched
  pub pinned : String → String → Option Json → Fetched

unfoldable pub require_artifact : Database → Fetched → Outcome Database Artifact
require_artifact db (fetched a) = done a
require_artifact db (unavailable text) = deny db 503 ("pod_runtime_unavailable: " +++ text)

pub record PodProvisioningCreate : Type 0 where
  pub login : String
  pub password : String
  pub confirm_password : String
  pub decoy_password : Option String
  pub confirm_decoy_password : Option String

unfoldable pub check_differs : Database → String → String → Outcome Database (Unit {0})
unfolding compare_digest
check_differs db password decoy =
    if decoy == "" then done tt else elim (compare_digest decoy password) [
      | none ↦ deny db 500 "TypeError"
      | some same ↦ refuse_if same db 400 "pod_decoy_password_must_differ"
    ]

-- The checks of the decoy password, which is empty if it is not given. Two different texts that are
-- not both ASCII end in the `TypeError` of `compare_digest`.
unfoldable pub check_decoy : Database → String → String → String → Outcome Database (Unit {0})
unfolding check_differs
check_decoy db password decoy confirm = do
  refuse_if (not ((decoy != "" && confirm != "") || (decoy == "" && confirm == ""))) db 400
      "pod_decoy_password_confirmation_required"
  refuse_if (decoy != confirm) db 400 "pod_decoy_password_confirmation_mismatch"
  check_differs db password decoy

unfoldable pub decoy_hash : Env → Database → String → Outcome Database String
unfolding hash_pod_password
decoy_hash env db decoy = if decoy == "" then done "" else hash_pod_password env db 1 decoy

-- The new row: its token is the third secret of the request, and its id the fourth.
abbrev pub provisioning_row :
    Env → Subject → String → String → String → Artifact → PodProvisioningRecord
provisioning_row env subject login verifier decoy artifact = record {
  id = env.fresh 3;
  subject_id = subject.id;
  name = login;
  login = login;
  password_hash = verifier;
  decoy_password_hash = decoy;
  status = "ready_to_download";
  enrollment_token_hash = hash_token env (env.fresh 2);
  enrollment_token_encrypted = encrypt_secret env (env.fresh 2);
  bundle_version = artifact.version;
  artifact_sha256 = artifact.sha256;
  download_count = 0;
  downloaded_at = none;
  expires_at = some (env.now + env.settings.perimetr_pod_enrollment_ttl_sec * second);
  activated_at = none;
  revoked_at = none;
  metadata_json = field "network_profile_version" (num (pos subject.network_profile_version)) (
      field "system_tabs_profile_version" (num (pos subject.system_tabs_profile_version)) (
        field "executable_name" (str (pod_executable_name env.platform login)) (
          field "runtime_source" (str artifact.source) (
            field "runtime_warning" (str artifact.refresh_error) (
              field "artifact_manifest"
                (obj (
                  if is_true (get_field "signature" artifact.manifest)
                  then artifact.manifest
                  else end))
                end)))));
}

abbrev pub provisioning_report : String → String → Fields → Report
provisioning_report action id result = record {
  actor_type = "perimetr";
  actor_id = "core";
  action = action;
  target_type = "pod_provisioning";
  target_id = id;
  payload = obj end;
  result = obj result;
}

-- `db.add(record)`, with the audit event.
unfoldable pub add_record : Env → Subject → Artifact → PodProvisioningRecord → Database → Database
add_record env subject artifact r db =
    audit env 4
      (provisioning_report "pod.provisioning.created" r.id (
        field "subject_id" (str subject.entity_id) (
          field "bundle_version" (str artifact.version) (
            field "artifact_sha256" (str artifact.sha256)
              (field "runtime_source" (str artifact.source) end)))))
      (record db { provisioning = db.provisioning ++ r ∷ [] })

-- The checks of `create_subject_pod`.
unfoldable pub check_create :
    Env → String → PodProvisioningCreate → Database → Outcome Database Subject
unfolding get_subject validate_subject_pod_config check_decoy
check_create env subject_id p db = do
  subject ← get_subject subject_id db
  validate_subject_pod_config env db subject
  refuse_if (env.platform.strip p.login == "") db 400 "pod_login_required"
  refuse_if (p.password != p.confirm_password) db 400 "pod_password_confirmation_mismatch"
  check_decoy db p.password (or_else p.decoy_password "") (or_else p.confirm_decoy_password "")
  done subject

-- The new record, for a request that has been checked.
unfoldable pub issue_record :
    Env
    → Artifacts
    → Subject
    → PodProvisioningCreate
    → Database
    → Outcome Database (Database × PodProvisioningRecord)
unfolding require_artifact hash_pod_password decoy_hash hash_token encrypt_secret
    pod_executable_name get_field add_record
issue_record env artifacts subject p db = do
  artifact ← require_artifact db (artifacts.latest true)
  verifier ← hash_pod_password env db 0 p.password
  decoy ← decoy_hash env db (or_else p.decoy_password "")
  let r = provisioning_row env subject (env.platform.strip p.login) verifier decoy artifact
  done (add_record env subject artifact r db, r)

-- `create_subject_pod`.
unfoldable pub create_subject_pod :
    Env
    → Artifacts
    → String
    → PodProvisioningCreate
    → Database
    → Outcome Database (Database × PodProvisioningRecord)
unfolding check_create issue_record
create_subject_pod env artifacts subject_id p db = do
  subject ← check_create env subject_id p db
  issue_record env artifacts subject p db
