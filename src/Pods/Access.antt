-- ===== src/Pods/Access.antt =====
-- `verify_pod_access` and `read_pod_runtime_status` of app/api_service/app.py: the login of a Pod's
-- user, and the question of a Pod whether it still exists.
use perimetr.Prelude.{
  ℕ, ◌+◌, ◌*◌, String, Bool, true, not, Option, none, some, ◌==◌, ◌!=◌, ◌||◌, ltb, if◌then◌else◌,
}
use perimetr.Json.{Fields, obj, end, get_field, text_of}
use perimetr.Http.{Outcome, done, deny, missing, ◌>>=◌, ◌>>◌, refuse_if}
use perimetr.Settings.{Env, second}
use perimetr.Database.{Pod, Database, find_pod, find_subject_row, save_pod, is_denied}
use perimetr.Audit.{audit}
use perimetr.Pods.Credentials.{
  compare_digest, hash_pod_password, pod_access_mode, issue_pod_access_grant,
}
use perimetr.Pods.Config.{PodConfig, pod_config_for_access}
use perimetr.Pods.Heartbeat.{distance}
use perimetr.Sessions.Login.{verify_direct_login}

-- The Pod after its credentials were accepted, and the mode. A Pod without a verifier takes the
-- Access Key, and stores what was typed as its own credentials.
abbrev pub known_mode : Database → Pod → Option String → Outcome Database (Pod × String)
known_mode db pod none = deny db 403 "invalid_credentials"
known_mode db pod (some mode) = done (pod, mode)

unfoldable pub login_pod : Env → Pod → String → String → Database → Outcome Database (Pod × String)
unfolding pod_access_mode hash_pod_password verify_direct_login
login_pod env pod username password db =
    if pod.password_hash != ""
    then (do
      mode ←
          pod_access_mode env db username password pod.login pod.password_hash
            pod.decoy_password_hash
      known_mode db pod mode)
    else if verify_direct_login env db password
    then (do
      verifier ← hash_pod_password env db 0 password
      known_mode db (record pod { login = username; name = username; password_hash = verifier })
          (some "primary"))
    else deny db 403 "invalid_credentials"

abbrev pub is_revoked_pod : Database → Pod → Bool
is_revoked_pod db pod = pod.status == "revoked" || is_denied "pod_id" pod.id db.denylist

pub record VerifyReply : Type 0 where
  pub status : String
  pub access_mode : String
  pub access_grant : String
  pub next_heartbeat_sequence : ℕ
  pub config : PodConfig

-- The answer, made after the commit of `db`.
unfoldable pub verify_reply :
    Env → Pod → String → Database → Outcome Database (Database × VerifyReply)
unfolding find_subject_row
verify_reply env pod mode db = do
  grant ← issue_pod_access_grant env db 2 pod.id mode
  config ← elim (find_subject_row pod.subject_id db.subjects) [
    | none ↦ deny db 500 "AttributeError"
    | some subject ↦ pod_config_for_access env db subject mode
  ]
  done (
    db,
    record {
      status = pod.status;
      access_mode = mode;
      access_grant = grant;
      next_heartbeat_sequence = pod.heartbeat_sequence + 1;
      config = config;
    },
  )

-- `verify_pod_access`.
unfoldable pub verify_pod_access :
    Env → String → String → String → Database → Outcome Database (Database × VerifyReply)
unfolding find_pod is_denied save_pod
verify_pod_access env i username password db = elim (find_pod i db.pods) [
  | none ↦ deny db 404 (missing "pod" i)
  | some pod ↦ do
    refuse_if (is_revoked_pod db pod) db 403 "pod_revoked"
    entered ← login_pod env pod username password db
    let db' =
        audit env 1
          (record {
            actor_type = "pod_user";
            actor_id = username;
            action = "pod.access.verified";
            target_type = "pod";
            target_id = pod.id;
            payload = obj end;
            result = obj end;
          })
          (record db { pods = save_pod entered.0 db.pods })
    verify_reply env entered.0 entered.1 db'
]

pub record StatusReply : Type 0 where
  pub deleted : Bool
  pub status : String

-- `read_pod_runtime_status`. The fields of the payload are texts or missing.
unfoldable pub read_pod_runtime_status :
    Env → String → Fields → Database → Outcome Database StatusReply
unfolding find_pod is_denied get_field compare_digest
read_pod_runtime_status env i payload db = elim (find_pod i db.pods) [
  | none ↦
      if is_denied "pod_id" i db.denylist
      then done (record { deleted = true; status = "revoked" })
      else deny db 404 "pod_not_found"
  | some pod ↦ do
    let fingerprint = text_of (get_field "certificate_fingerprint" payload)
    let timestamp = text_of (get_field "timestamp" payload)
    let signature = text_of (get_field "signature" payload)
    refuse_if (fingerprint == "" || timestamp == "" || signature == "") db 422
        "invalid_pod_status_request"
    same ← elim (compare_digest fingerprint pod.certificate_fingerprint) [
      | none ↦ deny db 500 "TypeError"
      | some b ↦ done b
    ]
    refuse_if (not same) db 403 "certificate_fingerprint_mismatch"
    observed ← elim (env.platform.fromisoformat timestamp) [
      | none ↦ deny db 422 "invalid_pod_status_timestamp"
      | some at ↦ done at
    ]
    refuse_if (ltb (300 * second) (distance env.now observed)) db 400
        "pod_status_timestamp_out_of_range"
    refuse_if (not (env.platform.verify_signature pod.public_key_pem (obj payload) signature)) db
        403 "invalid_pod_signature"
    let gone = is_revoked_pod db pod
    done (record { deleted = gone; status = if gone then "revoked" else pod.status })
]
