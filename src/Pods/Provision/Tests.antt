-- ===== src/Pods/Provision/Tests.antt =====
-- A record that is created, downloaded and used.
use perimetr.Prelude.{◌≡◌, refl, true, false, none, some}
use perimetr.Json.{end}
use perimetr.Http.{Outcome, is_done, committed}
use perimetr.Database.{PodProvisioningRecord, Database}
use perimetr.Samples.{env, result, result-eq, start}
use perimetr.Pods.Credentials.{hash_token}
use perimetr.Pods.Enroll.{EnrollReply, enroll_pod}
use perimetr.Pods.Applicant.{EnrollRequest}
use perimetr.Artifacts.{Artifact}
use perimetr.Pods.Provision.{fetched, Artifacts, PodProvisioningCreate, create_subject_pod}
use perimetr.Pods.Provision.Download.{Bootstrap, download_subject_pod}
use perimetr.Pods.Provision.Redeem.{download-IsRedeemable, download-refused_after_use}

abbrev artifact : Artifact
artifact = record {
  version = "0.1.3";
  sha256 = "digest";
  source = "release";
  manifest = end;
  refresh_error = "";
}

abbrev artifacts : Artifacts
artifacts = record {
  latest = λ force. fetched artifact;
  pinned = λ digest version m. fetched artifact;
}

abbrev form : PodProvisioningCreate
form = record {
  login = "user";
  password = "password";
  confirm_password = "password";
  decoy_password = none;
  confirm_decoy_password = none;
}

abbrev creation : Outcome Database (Database × PodProvisioningRecord)
creation = create_subject_pod (env 10) artifacts "s" form start

creation_done : is_done creation ≡ true
unfolding create_subject_pod perimetr.Pods.Credentials.decrypt_secret
    perimetr.Pods.Config.validate_vless_uri
creation_done = refl

abbrev download : Outcome Database (Database × Bootstrap)
download = download_subject_pod (env 20) artifacts "s" "f" (result creation creation_done).0

download_done : is_done download ≡ true
unfolding download_subject_pod create_subject_pod perimetr.Pods.Config.validate_vless_uri
download_done = refl

download-IsRedeemable_example :
    ((result download download_done).1.enrollment_token ≡ "f")
    × (hash_token (env 20) (result download download_done).1.enrollment_token
        ≡ (result creation creation_done).1.enrollment_token_hash)
    × ((result download download_done).1.provisioning_id ≡ "f")
unfolding create_subject_pod download_subject_pod perimetr.Pods.Config.validate_vless_uri
download-IsRedeemable_example =
    download-IsRedeemable (env 10) (env 20) artifacts artifacts "s" "s" form start
      (result creation creation_done).0 (result download download_done).0
      (result creation creation_done).1 (result download download_done).1
      (result-eq creation creation_done) (result-eq download download_done) refl (refl, refl) refl
      refl refl

abbrev request : EnrollRequest
request = record {
  provisioning_id = some "r";
  enrollment_token = some "token";
  clone_from_pod_id = none;
  username = "user";
  password = "password";
  public_key_pem = "key";
  certificate_fingerprint = "key";
  device_binding_fingerprint = "device";
  host_id = "host";
  pod_version = "0.1.3";
}

abbrev enrollment : Outcome Database (Database × EnrollReply)
enrollment = enroll_pod (env 10) request start

enrollment_done : is_done enrollment ≡ true
unfolding enroll_pod perimetr.Pods.Enroll.admit perimetr.Pods.Applicant.enroll_source
    perimetr.Pods.Applicant.enroll_access perimetr.Pods.Config.validate_subject_pod_config
    perimetr.Pods.Credentials.decrypt_secret perimetr.Pods.Config.validate_vless_uri
    perimetr.Pods.Applicant.enroll_device perimetr.Pods.Enroll.register_pod
    perimetr.Pods.Enroll.enroll_reply perimetr.Pods.Credentials.issue_pod_access_grant
    perimetr.Pods.Config.pod_config_for_access perimetr.Pods.Config.subject_pod_config
enrollment_done = refl

download-refused_after_use_example :
    (is_done (download_subject_pod (env 20) artifacts "s" "r" (result enrollment enrollment_done).0)
      ≡ false)
    × (committed
          (download_subject_pod (env 20) artifacts "s" "r" (result enrollment enrollment_done).0)
        ≡ (result enrollment enrollment_done).0)
download-refused_after_use_example =
    download-refused_after_use (env 10) (env 20) artifacts "s" "r" request start
      (result enrollment enrollment_done).0 (result enrollment enrollment_done).1 refl refl
      (result-eq enrollment enrollment_done)
