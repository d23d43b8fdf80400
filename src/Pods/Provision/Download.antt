-- ===== src/Pods/Provision/Download.antt =====
-- `download_subject_pod` of app/api_service/app.py, and the bootstrap file of `build_pod_bundle` of
-- app/pod_service.py, which carries the one-time token to the Pod.
use perimetr.Prelude.{◌+◌, String, false, none, some, ◌==◌, ◌!=◌, ◌||◌, if◌then◌else◌}
use perimetr.Json.{Fields, num, str, end, field, pos, get_field, set_field}
use perimetr.Http.{Outcome, done, deny, ◌>>=◌, ◌>>◌, refuse_if}
use perimetr.Settings.{Env}
use perimetr.Database.{Subject, PodProvisioningRecord, Database, find_record, save_record}
use perimetr.Audit.{audit}
use perimetr.Pods.Credentials.{decrypt_secret}
use perimetr.Pods.Config.{rstrip_slash}
use perimetr.Pods.Names.{pod_executable_name}
use perimetr.Pods.Applicant.{is_expired, is_consumed}
use perimetr.Pods.Removal.{get_subject}
use perimetr.Artifacts.{Artifact}
use perimetr.Pods.Provision.{Fetched, Artifacts, require_artifact, provisioning_report}

-- The bootstrap file of the bundle, without the icon.
pub record Bootstrap : Type 0 where
  pub provisioning_id : String
  pub enrollment_token : String
  pub perimetr_endpoint : String
  pub subject_id : String
  pub subject_name : String
  pub application_name : String
  pub executable_name : String
  pub bundle_version : String

unfoldable pub build_pod_bundle :
    Env → Database → PodProvisioningRecord → Subject → Outcome Database Bootstrap
unfolding decrypt_secret pod_executable_name rstrip_slash
build_pod_bundle env db r subject = do
  token ← decrypt_secret env db r.enrollment_token_encrypted
  done (record {
    provisioning_id = r.id;
    enrollment_token = token;
    perimetr_endpoint = rstrip_slash env.settings.perimetr_public_url;
    subject_id = subject.entity_id;
    subject_name = subject.name;
    application_name = r.login;
    executable_name = pod_executable_name env.platform r.login;
    bundle_version = r.bundle_version;
  })

abbrev pub with_runtime : String → String → Fields → Fields
with_runtime source warning metadata =
    set_field "runtime_warning" (str warning) (set_field "runtime_source" (str source) metadata)

-- The record after its artifact was resolved: a pinned one is downloaded again if it is missing, and
-- a record without a digest is pinned to the latest release.
unfoldable pub pin_artifact : PodProvisioningRecord → Artifact → PodProvisioningRecord
unfolding set_field
pin_artifact r artifact =
    if r.artifact_sha256 != ""
    then (if artifact.source == "pinned-redownload"
        then record r { metadata_json = with_runtime artifact.source "" r.metadata_json }
        else r)
    else record r {
      bundle_version = artifact.version;
      artifact_sha256 = artifact.sha256;
      metadata_json = with_runtime artifact.source artifact.refresh_error r.metadata_json;
    }

abbrev pub resolve_artifact : Artifacts → PodProvisioningRecord → Fetched
resolve_artifact artifacts r =
    if r.artifact_sha256 != ""
    then artifacts.pinned r.artifact_sha256 r.bundle_version
        (get_field "artifact_manifest" r.metadata_json)
    else artifacts.latest false

abbrev pub downloaded_row : Env → PodProvisioningRecord → PodProvisioningRecord
downloaded_row env r = record r {
  status = "downloaded";
  download_count = r.download_count + 1;
  downloaded_at = some env.now;
}

unfoldable pub save_download : Env → Artifact → PodProvisioningRecord → Database → Database
unfolding save_record
save_download env artifact r db =
    audit env 0
      (provisioning_report "pod.bundle.downloaded" r.id (
        field "download_count" (num (pos r.download_count)) (
          field "bundle_version" (str r.bundle_version) (
            field "artifact_sha256" (str r.artifact_sha256)
              (field "runtime_source" (str artifact.source) end)))))
      (record db { provisioning = save_record r db.provisioning })

-- The download of a record that was found.
unfoldable pub download_record :
    Env
    → Artifacts
    → Subject
    → PodProvisioningRecord
    → Database
    → Outcome Database (Database × Bootstrap)
unfolding save_record require_artifact get_field pin_artifact build_pod_bundle save_download
download_record env artifacts subject r db = do
  refuse_if (r.subject_id != subject.id) db 404 "pod_provisioning_not_found"
  refuse_if (is_consumed r.status || r.enrollment_token_encrypted == "") db 409
      "pod_bundle_not_downloadable"
  refuse_if (is_expired env.now r.expires_at)
      (record db { provisioning = save_record (record r { status = "expired" }) db.provisioning })
      410 "pod_provisioning_expired"
  artifact ← require_artifact db (resolve_artifact artifacts r)
  bundle ← build_pod_bundle env db (pin_artifact r artifact) subject
  done (save_download env artifact (downloaded_row env (pin_artifact r artifact)) db, bundle)

-- `download_subject_pod`.
unfoldable pub download_subject_pod :
    Env → Artifacts → String → String → Database → Outcome Database (Database × Bootstrap)
unfolding get_subject find_record download_record
download_subject_pod env artifacts subject_id provisioning_id db = do
  subject ← get_subject subject_id db
  elim (find_record provisioning_id db.provisioning) [
    | none ↦ deny db 404 "pod_provisioning_not_found"
    | some r ↦ download_record env artifacts subject r db
  ]
