-- ===== src/Pods/Heartbeat.antt =====
-- `heartbeat_pod` of app/api_service/app.py, with `verify_heartbeat_signature` of app/pod_service.py.
-- A negative sequence number would be refused like 0, so a sequence number is natural. The columns of
-- a Pod have the bounds that PostgreSQL, the database in production, keeps at the commit.
pub mod Replay
pub mod Legacy
mod Tests
use perimetr.Prelude.{
  ℕ, ◌+◌, ◌-◌, ◌*◌, String, Bool, true, false, not, Option, none, some, ◌==◌, ◌!=◌, ◌&&◌, ◌||◌, ltb,
  leb, if◌then◌else◌, List, [], ◌∷◌, or_else,
}
use perimetr.Prelude.Text.{text_length}
use perimetr.Json.{Json, Fields, Number, null, str, num, obj, end, field, get_field, text_of}
use perimetr.Http.{Outcome, done, deny, missing, ◌>>=◌, ◌>>◌, refuse_if}
use perimetr.Settings.{Settings, Env, second}
use perimetr.Database.{Subject, Pod, Database, find_pod, find_subject_row, save_pod, is_denied}
use perimetr.Audit.{Report, audit}
use perimetr.Pods.Credentials.{verify_pod_access_grant}
use perimetr.Pods.Config.{PodConfig, pod_config_for_access}

-- `PodSignedHeartbeatRequest`, with the wire payload that is signed.
pub record Heartbeat : Type 0 where
  pub certificate_fingerprint : String
  pub sequence : ℕ
  pub timestamp : ℕ
  pub pod_version : String
  pub device_binding_fingerprint : String
  pub device_binding_status : String
  pub proxy_engine : String
  pub xray_version : String
  pub network_status : String
  pub access_grant : String
  pub temporary_tabs_count : Number
  pub signature : String
  pub payload : Json

-- `PodHeartbeatRequest`, which a Pod without a key sends.
pub record LegacyHeartbeat : Type 0 where
  pub status : String
  pub runtime_state : Json
  pub observed_at : ℕ

-- A payload as the two schemas read it; `none` is a validation error.
pub record HeartbeatPayload : Type 0 where
  pub legacy : Option LegacyHeartbeat
  pub signed : Option Heartbeat

-- `abs(a - b)`
abbrev pub distance : ℕ → ℕ → ℕ
distance a b = (a - b) + (b - a)

-- The audit event of a Pod about itself, with its result and payload.
abbrev pub report : String → String → Json → Json → Report
report pod_id action result payload = record {
  actor_type = "pod";
  actor_id = pod_id;
  action = action;
  target_type = "pod";
  target_id = pod_id;
  payload = payload;
  result = result;
}

pub data HeartbeatReply : Type 0 where
  legacy_row : Pod → HeartbeatReply
  allowed : String → ℕ → PodConfig → HeartbeatReply

-- The bounds of `Pod.status` and of the columns that a signed heartbeat fills.
abbrev pub is_wide_status : String → Bool
is_wide_status s = ltb 32 (text_length s)

abbrev pub is_wide : Heartbeat → Bool
is_wide h =
    is_wide_status h.device_binding_status
    || ltb 64 (text_length h.pod_version)
    || ltb 64 (text_length h.xray_version)
    || ltb 2147483647 h.sequence

abbrev pub reported_row : Pod → LegacyHeartbeat → Pod
reported_row pod h = record pod {
  runtime_state = field "status" (str h.status) (
      field "runtime_state" h.runtime_state
        (field "observed_at" (num (Number.pos h.observed_at)) end));
  status = h.status;
  last_seen_at = some h.observed_at;
  last_heartbeat_at = some h.observed_at;
}

-- A Pod without a public key: whatever it says of itself is stored, if its columns take it.
unfoldable pub legacy_heartbeat :
    Env → Pod → LegacyHeartbeat → Database → Outcome Database (Database × HeartbeatReply)
unfolding save_pod
legacy_heartbeat env pod h db = do
  refuse_if (is_wide_status h.status) db 500 "DataError"
  done (
    audit env 0
        (report pod.id "pod.heartbeat" (obj (field "status" (str h.status) end)) (
          obj (
            field "status" (str h.status) (
              field "runtime_state" h.runtime_state
                (field "observed_at" (num (Number.pos h.observed_at)) end)))))
        (record db { pods = save_pod (reported_row pod h) db.pods }),
    legacy_row (reported_row pod h),
  )

-- The mode that the grant of a heartbeat proves; a Pod from before decoy passwords needs none.
unfoldable pub heartbeat_mode : Env → Pod → Heartbeat → Database → Outcome Database String
unfolding verify_pod_access_grant
heartbeat_mode env pod h db =
    if h.access_grant != ""
    then verify_pod_access_grant env db h.access_grant pod.id
    else if pod.decoy_password_hash != ""
    then deny db 403 "pod_access_grant_required"
    else done "primary"

-- The device differs: the Pod becomes suspicious, and that is committed before the refusal.
unfoldable pub mark_suspicious : Env → Pod → Database → Database
unfolding save_pod
mark_suspicious env pod db =
    audit env 0 (report pod.id "pod.device_binding.mismatch" (obj end) (obj end)) (record db {
      pods =
          save_pod (record pod { status = "suspicious"; device_binding_status = "mismatch" })
            db.pods;
    })

-- The checks of a signed heartbeat, in their order; the result is the access mode.
unfoldable pub heartbeat_checks : Env → Pod → Heartbeat → Database → Outcome Database String
unfolding mark_suspicious heartbeat_mode is_denied
heartbeat_checks env pod h db = do
  refuse_if (pod.status == "revoked") db 403 "pod_revoked"
  refuse_if (is_denied "certificate_fingerprint" h.certificate_fingerprint db.denylist) db 403
      "certificate_fingerprint_revoked"
  refuse_if (h.certificate_fingerprint != pod.certificate_fingerprint) db 403
      "certificate_fingerprint_mismatch"
  refuse_if (h.device_binding_fingerprint != pod.device_binding_fingerprint)
      (mark_suspicious env pod db) 403 "device_binding_mismatch"
  refuse_if (leb h.sequence pod.heartbeat_sequence) db 409 "heartbeat_replay_detected"
  refuse_if (ltb (300 * second) (distance env.now h.timestamp)) db 400
      "heartbeat_timestamp_out_of_range"
  refuse_if (not (env.platform.verify_signature pod.public_key_pem h.payload h.signature)) db 403
      "invalid_pod_signature"
  heartbeat_mode env pod h db

abbrev pub heartbeat_row : Env → Pod → Subject → Heartbeat → Pod
heartbeat_row env pod subject h = record pod {
  heartbeat_sequence = h.sequence;
  status = "active";
  device_binding_status = h.device_binding_status;
  pod_version = h.pod_version;
  xray_version = h.xray_version;
  last_seen_at = some env.now;
  last_heartbeat_at = some env.now;
  runtime_state = field "network_status" (str h.network_status) (
      field "proxy_engine" (str h.proxy_engine)
        (field "temporary_tabs_count" (num h.temporary_tabs_count) end));
  network_profile_version = subject.network_profile_version;
  system_tabs_profile_version = subject.system_tabs_profile_version;
}

-- The session is reported as opened when the proxy becomes verified.
unfoldable pub heartbeat_audit : Env → Pod → Subject → Heartbeat → Database → Database
unfolding get_field
heartbeat_audit env pod subject h db =
    let opened =
      audit env 0
        (report pod.id "pod.session.opened"
          (obj (
            field "subject_id" (str subject.entity_id)
              (field "network_status" (str h.network_status) end)))
          (obj end))
        db in
    let before =
      if h.network_status == "proxy_verified"
        && text_of (get_field "network_status" pod.runtime_state) != "proxy_verified"
      then opened
      else db in
    audit env 1
      (report pod.id "pod.heartbeat"
        (obj (field "status" (str "active") (field "network_status" (str h.network_status) end)))
        (obj end))
      before

unfoldable pub signed_heartbeat :
    Env → Pod → Subject → Heartbeat → Database → Outcome Database (Database × HeartbeatReply)
unfolding save_pod
signed_heartbeat env pod subject h db = do
  mode ← heartbeat_checks env pod h db
  refuse_if (is_wide h) db 500 "DataError"
  let db' =
      heartbeat_audit env pod subject h
        (record db { pods = save_pod (heartbeat_row env pod subject h) db.pods })
  config ← pod_config_for_access env db' subject mode
  done (db', allowed "active" env.settings.perimetr_pod_offline_after_sec config)

-- `heartbeat_pod`. The foreign key gives every Pod its Subject.
unfoldable pub heartbeat_pod :
    Env → String → HeartbeatPayload → Database → Outcome Database (Database × HeartbeatReply)
unfolding find_pod find_subject_row
heartbeat_pod env i payload db = elim (find_pod i db.pods) [
  | none ↦ deny db 404 (missing "pod" i)
  | some pod ↦
      if pod.public_key_pem == ""
      then elim payload.legacy [
        | none ↦ deny db 500 "ValidationError"
        | some h ↦ legacy_heartbeat env pod h db
      ]
      else elim payload.signed [
        | none ↦ deny db 422 "invalid_pod_heartbeat"
        | some h ↦ elim (find_subject_row pod.subject_id db.subjects) [
          | none ↦ deny db 500 "AttributeError"
          | some subject ↦ signed_heartbeat env pod subject h db
        ]
      ]
]
