-- ===== src/Pods/Tests.antt =====
-- Concrete Pods, records and requests, and the theorems on them.
use perimetr.Prelude.{
  String, ◌≡◌, refl, true, false, none, some, [], ◌∷◌, ◌++◌, ◌==◌, arith, eq_iff,
}
use perimetr.Prelude.Text.{cut}
use perimetr.Json.{str, end, field, get_field}
use perimetr.Http.{Outcome, done, deny, is_done, committed}
use perimetr.Settings.{Env}
use perimetr.Samples.{env, record_of, settings, platform, result, result-eq, subject, start}
use perimetr.Database.{Subject, Pod, PodProvisioningRecord, Database, find_record, is_denied}
use perimetr.Pods.Credentials.{
  grant_value, grant_signature, hash_token, password_record, verify_pod_password, iterations,
  issue_pod_access_grant, verify_pod_access_grant, is_mode,
}
use perimetr.Pods.Credentials.Laws.{
  verify-password_record, verify-issue_grant, verify_grant-IsSigned,
}
use perimetr.Pods.Config.{PodConfig, pod_config_for_access}
use perimetr.Pods.Config.Decoy.{decoy_config-LookAlike, pod_config-IsPinned}
use perimetr.Pods.Enroll.{EnrollReply, enroll_pod}
use perimetr.Pods.Applicant.{EnrollRequest, is_consumed, is_expired, is_registered}
use perimetr.Pods.Enroll.Admission.{enroll-IsAdmitted, enroll-IsAuthorized}
use perimetr.Pods.Enroll.Once.{enroll_once}
use perimetr.Pods.Enroll.Ascii.{enroll-needs_ascii}

abbrev request : EnrollRequest
request = record {
  provisioning_id = some "r";
  enrollment_token = some "token";
  clone_from_pod_id = none;
  username = "user";
  password = "password";
  public_key_pem = "key";
  certificate_fingerprint = "key";
  device_binding_fingerprint = "device";
  host_id = "host";
  pod_version = "0.1.3";
}

abbrev enrollment : Outcome Database (Database × EnrollReply)
enrollment = enroll_pod (env 10) request start

enrollment_done : is_done enrollment ≡ true
unfolding enroll_pod perimetr.Pods.Enroll.admit perimetr.Pods.Applicant.enroll_source
    perimetr.Pods.Applicant.enroll_access perimetr.Pods.Config.validate_subject_pod_config
    perimetr.Pods.Credentials.decrypt_secret perimetr.Pods.Config.validate_vless_uri
    perimetr.Pods.Applicant.enroll_device perimetr.Pods.Enroll.register_pod
    perimetr.Pods.Enroll.enroll_reply issue_pod_access_grant pod_config_for_access
    perimetr.Pods.Config.subject_pod_config
enrollment_done = refl

abbrev enrolled : Database
enrolled = (result enrollment enrollment_done).0

abbrev reply : EnrollReply
reply = (result enrollment enrollment_done).1

enroll_once_example :
    (is_done (enroll_pod (env 20) request enrolled) ≡ false)
    × (committed (enroll_pod (env 20) request enrolled) ≡ enrolled)
enroll_once_example =
    enroll_once (env 10) (env 20) request request start enrolled reply refl refl
      (result-eq enrollment enrollment_done)

enroll-IsAdmitted_example :
    (pod : Pod) × (enrolled.pods ≡ [] ++ pod ∷ [])
    × (pod.status ≡ "offline")
    × (platform.p256_fingerprint "key" ≡ some pod.certificate_fingerprint)
    × (pod.device_binding_fingerprint ≡ "device")
    × (is_denied "certificate_fingerprint" pod.certificate_fingerprint [] ≡ false)
    × (is_denied "device_binding_fingerprint" "device" [] ≡ false)
    × (is_registered pod.certificate_fingerprint [] ≡ false)
enroll-IsAdmitted_example =
    enroll-IsAdmitted (env 10) request start enrolled reply (result-eq enrollment enrollment_done)

enroll-IsAuthorized_example :
    (r : PodProvisioningRecord) × (find_record "r" start.provisioning ≡ some r)
    × (hash_token (env 10) "token" ≡ r.enrollment_token_hash)
    × (is_consumed r.status ≡ false)
    × (is_expired 10 r.expires_at ≡ false)
    × (find_record "r" enrolled.provisioning
        ≡ some (record r {
          status = "active";
          activated_at = some 10;
          enrollment_token_encrypted = "";
        }))
enroll-IsAuthorized_example =
    enroll-IsAuthorized (env 10) request start enrolled reply refl
      (result-eq enrollment enrollment_done)

-- An installation whose release address and key are known.
abbrev pinned : Env
pinned = record (env 10) {
  settings = record settings {
    perimetr_pod_update_manifest_url = "u";
    pod_update_public_key = "k";
  };
}

-- The Subject's own policy names another release address.
abbrev own_policy : Subject
own_policy = record subject { security_policy = field "update_manifest_url" (str "x") end }

abbrev sent : Outcome Database PodConfig
sent = pod_config_for_access pinned start own_policy "decoy"

sent_done : is_done sent ≡ true
unfolding pod_config_for_access perimetr.Pods.Config.subject_pod_config
    perimetr.Pods.Credentials.decrypt_secret
sent_done = refl

pod_config-IsPinned_example :
    (get_field "update_manifest_url" (result sent sent_done).security_policy ≡ some (str "u"))
    × (get_field "update_public_key_pem" (result sent sent_done).security_policy ≡ some (str "k"))
pod_config-IsPinned_example =
    pod_config-IsPinned pinned start own_policy "decoy" (result sent sent_done) refl refl
      (result-eq sent sent_done)

decoy_config-LookAlike_example :
    pod_config_for_access (env 10) start subject "decoy"
    ≡ pod_config_for_access
        (env 10)
        start
        (record subject { name = "Other"; entity_id = "o" })
        "decoy"
decoy_config-LookAlike_example =
    decoy_config-LookAlike (env 10) start subject
      (record subject { name = "Other"; entity_id = "o" })
      (record {
        same_connection = refl;
        same_network_version = refl;
        same_channel = refl;
        same_security = refl;
      })

verify-password_record_example :
    (verify_pod_password (env 10) "other" (password_record (env 10) "f" "password")
      ≡ (platform.pbkdf2 "other" "f" iterations == platform.pbkdf2 "password" "f" iterations))
    × (verify_pod_password (env 10) "password" (password_record (env 10) "f" "password") ≡ true)
verify-password_record_example =
    verify-password_record (env 10) "f" "password"
      (record {
        salt_text = omega arith;
        salt_canonical = refl;
        digest_canonical = refl;
        count_read = refl;
      })
      "other"

-- A platform that reads one grant.
abbrev granting : Env
granting = record (env 10) {
  platform = record platform { decode_json = λ s. some (grant_value "p" "decoy" "f") };
}

abbrev issue : Outcome Database String
issue = issue_pod_access_grant granting start 0 "p" "decoy"

issue_done : is_done issue ≡ true
unfolding issue_pod_access_grant
issue_done = refl

verify-issue_grant_example :
    (verify_pod_access_grant granting start (result issue issue_done) "p" ≡ done "decoy")
    × (verify_pod_access_grant granting start (result issue issue_done) "q"
        ≡ deny start 403 "invalid_pod_access_grant")
unfolding perimetr.Pods.Credentials.is_ascii
verify-issue_grant_example =
    verify-issue_grant granting start 0 "p" "decoy" (result issue issue_done) refl (omega arith)
      refl refl "q" (result-eq issue issue_done)
      (λ h. absurd (ground (arith, (eq_iff "q" "p").1 h)))

verify_grant-IsSigned_example :
    (encoded : String) × (cut b'.' (result issue issue_done)
      ≡ some (encoded, grant_signature granting encoded))
    × (is_mode "decoy" ≡ true)
verify_grant-IsSigned_example =
    verify_grant-IsSigned granting start (result issue issue_done) "p" "decoy"
      verify-issue_grant_example.0

-- A record with an accented login.
abbrev accented : Database
accented = record start { provisioning = record record_of { login = "é" } ∷ [] }

enroll-needs_ascii_example : is_done (enroll_pod (env 10) request accented) ≡ false
unfolding find_record perimetr.Pods.Credentials.is_ascii
enroll-needs_ascii_example =
    enroll-needs_ascii (env 10) request accented (record record_of { login = "é" }) refl refl refl
      refl
