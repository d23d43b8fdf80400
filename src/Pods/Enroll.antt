-- ===== src/Pods/Enroll.antt =====
-- `enroll_pod` of app/api_service/app.py and `issue_identity_certificate` of app/pod_service.py: a
-- new Pod, from a provisioning record and its one-time token or as the clone of a Pod.
pub mod Once
pub mod Admission
pub mod Ascii
use perimetr.Prelude.{
  ℕ, ◌+◌, String, Bool, true, false, not, Option, none, some, ◌==◌, ◌!=◌, ◌&&◌, ◌||◌, ltb, leb,
  if◌then◌else◌, List, [], ◌∷◌, ◌++◌, or_else, any, is_some,
}
use perimetr.Json.{Json, Fields, Number, null, str, num, obj, end, field}
use perimetr.Http.{Outcome, done, deny, missing, ◌>>=◌, ◌>>◌, refuse_if}
use perimetr.Settings.{Settings, Env}
use perimetr.Database.{
  Subject, Pod, PodProvisioningRecord, PodDenylist, Database, find_pod, find_record,
  find_subject_row, save_pod, save_record, save_subject, is_denied,
}
use perimetr.Audit.{audit}
use perimetr.Pods.Credentials.{
  hash_token, hash_pod_password, pod_access_mode, issue_pod_access_grant, joined,
}
use perimetr.Pods.Config.{
  PodConfig, is_empty_text, validate_subject_pod_config, pod_config_for_access,
}
use perimetr.Pods.Names.{pod_executable_name}
use perimetr.Sessions.Login.{verify_direct_login}
use perimetr.Pods.Applicant.{
  EnrollRequest, Source, is_expired, is_consumed, require_subject, provisioned_source,
  cloned_source, enroll_source, Access, require_mode, enroll_access, is_registered, require_key,
  enroll_device,
}

-- `issue_identity_certificate`; the time of activation stands for its ISO text.
abbrev pub optional_number : Option ℕ → Json
optional_number none = str ""
optional_number (some n) = num (Number.pos n)

unfoldable pub issue_identity_certificate : Env → Pod → Subject → String
issue_identity_certificate env pod subject =
    let encoded = env.platform.encode_json (
      obj (
        field "device_binding_fingerprint" (str pod.device_binding_fingerprint) (
          field "fingerprint" (str pod.certificate_fingerprint) (
            field "issued_at" (optional_number pod.activated_at) (
              field "pod_id" (str pod.id) (
                field "subject_id" (str subject.entity_id)
                  (field "version" (num (Number.pos 1)) end))))))) in
    joined "." encoded (env.platform.hmac_hex env.settings.perimetr_pod_signing_secret encoded)

abbrev pub record_id : Option PodProvisioningRecord → Option String
record_id none = none
record_id (some r) = some r.id

-- The row of the new Pod; its identifier is the second value that the request draws.
unfoldable pub new_pod : Env → EnrollRequest → Source → Access → String → Pod
unfolding issue_identity_certificate pod_executable_name
new_pod env p s a fingerprint =
    let pod : Pod = record {
      id = env.fresh 1;
      subject_id = s.subject.id;
      provisioning_id = record_id s.from_record;
      name = a.login;
      login = a.login;
      password_hash = a.password_hash;
      decoy_password_hash = s.decoy_password_hash;
      status = "offline";
      host_id = p.host_id;
      path = "state/profile";
      launcher_path = pod_executable_name env.platform a.login;
      runtime_state =
          field "network_status" (str "pending")
            (field "temporary_tabs_count" (num (Number.pos 0)) end);
      last_materialized_at = none;
      public_key_pem = p.public_key_pem;
      identity_certificate = "";
      certificate_fingerprint = fingerprint;
      device_binding_fingerprint = p.device_binding_fingerprint;
      device_binding_status = "valid";
      pod_version = p.pod_version;
      xray_version = "unknown";
      network_profile_version = s.subject.network_profile_version;
      system_tabs_profile_version = s.subject.system_tabs_profile_version;
      heartbeat_sequence = 0;
      last_seen_at = some env.now;
      last_heartbeat_at = none;
      activated_at = some env.now;
      revoked_at = none;
      revoke_reason = "";
    } in
    record pod { identity_certificate = issue_identity_certificate env pod s.subject }

-- `db.add(PodDenylist(…))` and its flush: the pair of type and value is unique, and a second row ends
-- in an `IntegrityError`. `stored` is the committed database.
unfoldable pub add_denied : Database → PodDenylist → Database → Outcome Database Database
unfolding is_denied
add_denied stored d db =
    if is_denied d.identifier_type d.identifier_value db.denylist
    then deny stored 500 "IntegrityError"
    else done (record db { denylist = db.denylist ++ d ∷ [] })

-- The record is spent: it is active, its token is gone, and the token's hash is denied.
unfoldable pub spend_record : Env → Database → Source → Database → Outcome Database Database
unfolding add_denied save_record
spend_record env stored s db = elim s.from_record [
  | none ↦ done db
  | some r ↦
      add_denied stored
        (record {
          pod_id = none;
          subject_id = some s.subject.id;
          identifier_type = "enrollment_token";
          identifier_value = r.enrollment_token_hash;
          reason = "consumed";
        })
        (record db {
          provisioning =
              save_record
                (record r {
                  status = "active";
                  activated_at = some env.now;
                  enrollment_token_encrypted = "";
                })
                db.provisioning;
        })
]

pub record EnrollReply : Type 0 where
  pub pod_id : String
  pub subject_id : String
  pub identity_certificate : String
  pub status : String
  pub access_mode : String
  pub access_grant : String
  pub next_heartbeat_sequence : ℕ
  pub config : PodConfig

-- The writes of one admitted enrollment, up to the commit.
unfoldable pub register_pod : Env → Database → Source → Pod → Outcome Database Database
unfolding spend_record save_subject
register_pod env db s pod = do
  spent ← spend_record env db s (record db { pods = db.pods ++ pod ∷ [] })
  done (
      audit env 3
        (record {
          actor_type = "pod";
          actor_id = pod.id;
          action = "pod.enrolled";
          target_type = "subject";
          target_id = s.subject.entity_id;
          payload = obj end;
          result = obj (field "fingerprint" (str pod.certificate_fingerprint) end);
        })
        (record spent {
          subjects = save_subject (record s.subject { pod_id = some pod.id }) spent.subjects;
        }))

-- What admits an enrollment: the source, the credentials, the Subject's configuration and the device.
pub record Admitted : Type 0 where
  pub source : Source
  pub access : Access
  pub fingerprint : String

unfoldable pub admit : Env → EnrollRequest → Database → Outcome Database Admitted
admit env p db = do
  source ← enroll_source env p db
  access ← enroll_access env p db source
  _ ← validate_subject_pod_config env db source.subject
  fingerprint ← enroll_device env p db
  done (record { source = source; access = access; fingerprint = fingerprint })

-- The answer to the new Pod. The grant and the configuration are made after the commit of `db`.
unfoldable pub enroll_reply :
    Env → Admitted → Pod → Database → Outcome Database (Database × EnrollReply)
enroll_reply env a pod db = do
  grant ← issue_pod_access_grant env db 4 pod.id a.access.mode
  config ← pod_config_for_access env db a.source.subject a.access.mode
  done (
    db,
    record {
      pod_id = pod.id;
      subject_id = a.source.subject.entity_id;
      identity_certificate = pod.identity_certificate;
      status = pod.status;
      access_mode = a.access.mode;
      access_grant = grant;
      next_heartbeat_sequence = 1;
      config = config;
    },
  )

-- `enroll_pod`.
unfoldable pub enroll_pod :
    Env → EnrollRequest → Database → Outcome Database (Database × EnrollReply)
enroll_pod env p db = do
  a ← admit env p db
  let pod = new_pod env p a.source a.access a.fingerprint
  db' ← register_pod env db a.source pod
  enroll_reply env a pod db'
