-- ===== src/Pods/Applicant.antt =====
-- What `enroll_pod` of app/api_service/app.py checks before it registers a Pod: the record or the
-- Pod that it comes from, the access that its password gives, and its device and key.
use perimetr.Prelude.{
  ℕ, String, Bool, false, not, Option, none, some, ◌==◌, ◌!=◌, ◌&&◌, ◌||◌, leb, if◌then◌else◌, List,
  [], ◌∷◌, or_else,
}
use perimetr.Http.{Outcome, done, deny, missing, ◌>>=◌, ◌>>◌, refuse_if}
use perimetr.Settings.{Env}
use perimetr.Database.{
  Subject, Pod, PodProvisioningRecord, Database, find_pod, find_record, find_subject_row,
  save_record, is_denied,
}
use perimetr.Pods.Credentials.{hash_token, hash_pod_password, pod_access_mode}
use perimetr.Pods.Config.{is_empty_text}
use perimetr.Sessions.Login.{verify_direct_login}

pub record EnrollRequest : Type 0 where
  pub provisioning_id : Option String
  pub enrollment_token : Option String
  pub clone_from_pod_id : Option String
  pub username : String
  pub password : String
  pub public_key_pem : String
  pub certificate_fingerprint : String
  pub device_binding_fingerprint : String
  pub host_id : String
  pub pod_version : String

-- Where the new Pod comes from: the locals `record`, `subject` and the three credentials.
pub record Source : Type 0 where
  pub from_record : Option PodProvisioningRecord
  pub subject : Subject
  pub login : String
  pub password_hash : String
  pub decoy_password_hash : String

abbrev pub is_expired : ℕ → Option ℕ → Bool
is_expired now none = false
is_expired now (some at) = leb at now

-- `status in {"active", "revoked", "expired"}`
abbrev pub is_consumed : String → Bool
is_consumed status = status == "active" || status == "revoked" || status == "expired"

abbrev pub require_subject : Database → Option Subject → Outcome Database Subject
require_subject db none = deny db 404 "subject_not_found"
require_subject db (some s) = done s

-- The branch of a provisioning record. An expired record is marked, and that is committed.
unfoldable pub provisioned_source :
    Env → EnrollRequest → Database → PodProvisioningRecord → Outcome Database Source
unfolding hash_token find_subject_row save_record
provisioned_source env p db r = do
  refuse_if (is_empty_text p.enrollment_token) db 404 "pod_provisioning_not_found"
  refuse_if (hash_token env (or_else p.enrollment_token "") != r.enrollment_token_hash) db 403
      "invalid_enrollment_token"
  refuse_if (is_consumed r.status || r.enrollment_token_encrypted == "") db 409
      "enrollment_token_consumed"
  refuse_if (is_expired env.now r.expires_at)
      (record db { provisioning = save_record (record r { status = "expired" }) db.provisioning })
      410 "pod_provisioning_expired"
  subject ← require_subject db (find_subject_row r.subject_id db.subjects)
  done (record {
    from_record = some r;
    subject = subject;
    login = r.login;
    password_hash = r.password_hash;
    decoy_password_hash = r.decoy_password_hash;
  })

-- The branch of `clone_from_pod_id`.
unfoldable pub cloned_source : Env → Database → String → Outcome Database Source
unfolding find_pod find_subject_row
cloned_source env db i = elim (find_pod i db.pods) [
  | none ↦ deny db 404 (missing "pod" i)
  | some previous ↦ do
    subject ← require_subject db (find_subject_row previous.subject_id db.subjects)
    done (record {
      from_record = none;
      subject = subject;
      login = previous.login;
      password_hash = previous.password_hash;
      decoy_password_hash = previous.decoy_password_hash;
    })
]

unfoldable pub enroll_source : Env → EnrollRequest → Database → Outcome Database Source
unfolding provisioned_source cloned_source find_record
enroll_source env p db =
    if not (is_empty_text p.provisioning_id)
    then elim (find_record (or_else p.provisioning_id "") db.provisioning) [
      | none ↦ deny db 404 "pod_provisioning_not_found"
      | some r ↦ provisioned_source env p db r
    ]
    else if not (is_empty_text p.clone_from_pod_id)
    then cloned_source env db (or_else p.clone_from_pod_id "")
    else deny db 400 "provisioning_or_clone_source_required"

-- What the credentials give: the mode, and the login and verifier of the new Pod. A source with no
-- verifier takes the Access Key and stores the password that was typed.
pub record Access : Type 0 where
  pub mode : String
  pub login : String
  pub password_hash : String

abbrev pub require_mode : Database → String → String → Option String → Outcome Database Access
require_mode db login verifier none = deny db 403 "invalid_credentials"
require_mode db login verifier (some mode) =
    done (record { mode = mode; login = login; password_hash = verifier })

unfoldable pub enroll_access : Env → EnrollRequest → Database → Source → Outcome Database Access
unfolding pod_access_mode hash_pod_password verify_direct_login
enroll_access env p db s =
    if s.password_hash != ""
    then (do
      mode ←
          pod_access_mode env db p.username p.password s.login s.password_hash s.decoy_password_hash
      require_mode db s.login s.password_hash mode)
    else if verify_direct_login env db p.password
    then (do
      verifier ← hash_pod_password env db 0 p.password
      require_mode db p.username verifier (some "primary"))
    else deny db 403 "invalid_credentials"

-- `public_key_fingerprint`, and the checks of the new device against the deny list and the Pods.
unfoldable pub is_registered : String → List Pod → Bool
is_registered fingerprint [] = false
is_registered fingerprint (p ∷ ps) =
    (p.certificate_fingerprint == fingerprint && p.status != "revoked")
    || is_registered fingerprint ps

abbrev pub require_key : Env → Database → String → Outcome Database String
require_key env db pem =
    if not (env.platform.is_public_key pem)
    then deny db 400 "invalid_pod_public_key"
    else elim (env.platform.p256_fingerprint pem) [
      | none ↦ deny db 400 "pod_public_key_must_be_ecdsa_p256"
      | some fingerprint ↦ done fingerprint
    ]

unfoldable pub enroll_device : Env → EnrollRequest → Database → Outcome Database String
unfolding is_denied is_registered
enroll_device env p db = do
  fingerprint ← require_key env db p.public_key_pem
  refuse_if (env.platform.upper fingerprint != env.platform.upper p.certificate_fingerprint) db 400
      "certificate_fingerprint_mismatch"
  refuse_if (is_denied "certificate_fingerprint" fingerprint db.denylist) db 403
      "certificate_fingerprint_revoked"
  refuse_if (is_denied "device_binding_fingerprint" p.device_binding_fingerprint db.denylist) db 403
      "device_binding_revoked"
  refuse_if (is_registered fingerprint db.pods) db 409 "certificate_already_registered"
  done fingerprint
