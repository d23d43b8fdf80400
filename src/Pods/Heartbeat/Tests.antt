-- ===== src/Pods/Heartbeat/Tests.antt =====
-- A Pod that reports itself, and one that is revoked.
use perimetr.Prelude.{◌∷◌, [], ℕ, String, ◌≡◌, refl, true, false, none, some, arith, ◌⊎◌, ◌==◌}
use perimetr.Json.{null, pos}
use perimetr.Http.{Outcome, deny, is_done}
use perimetr.Database.{Subject, Pod, Database, find_pod, find_subject_row}
use perimetr.Samples.{env, platform, result, result-eq, pod, running}
use perimetr.Pods.Credentials.{grant_value, issue_pod_access_grant}
use perimetr.Settings.{Env}
use perimetr.Pods.Enroll.{enroll_pod}
use perimetr.Pods.Applicant.{EnrollRequest}
use perimetr.Pods.Access.{verify_pod_access}
use perimetr.Pods.Heartbeat.{Heartbeat, HeartbeatPayload, HeartbeatReply, heartbeat_pod}
use perimetr.Pods.Heartbeat.Replay.{IsGenuine, IsAnswered, heartbeat-IsGenuine, heartbeat_once}
use perimetr.Pods.Heartbeat.{LegacyHeartbeat, legacy_heartbeat}
use perimetr.Pods.Heartbeat.Legacy.{revoke-overwritten}
use perimetr.Pods.Manage.{revoke_pod}
use perimetr.Pods.Manage.Lockout.{reuses, revoke_locks_out}

abbrev beat : ℕ → Heartbeat
beat n = record {
  certificate_fingerprint = "key";
  sequence = n;
  timestamp = 10;
  pod_version = "0.1.3";
  device_binding_fingerprint = "device";
  device_binding_status = "bound";
  proxy_engine = "xray-core";
  xray_version = "1";
  network_status = "connected";
  access_grant = "json.kjson";
  temporary_tabs_count = pos 0;
  signature = "signed";
  payload = null;
}

abbrev payload : ℕ → HeartbeatPayload
payload n = record { legacy = none; signed = some (beat n) }

-- A platform that reads one grant.
abbrev granting : Env
granting = record (env 10) {
  platform = record platform { decode_json = λ s. some (grant_value "p" "primary" "f") };
}

abbrev accepted : Outcome Database (Database × HeartbeatReply)
accepted = heartbeat_pod granting "p" (payload 5) running

accepted_done : is_done accepted ≡ true
unfolding heartbeat_pod perimetr.Pods.Heartbeat.signed_heartbeat
    perimetr.Pods.Heartbeat.heartbeat_checks perimetr.Pods.Credentials.read_grant
    perimetr.Pods.Config.pod_config_for_access perimetr.Pods.Config.subject_pod_config
    perimetr.Pods.Credentials.decrypt_secret
accepted_done = refl

heartbeat-IsGenuine_example :
    IsGenuine granting pod (beat 5) running
    × ((pod' : Pod) × (find_pod "p" (result accepted accepted_done).0.pods ≡ some pod')
        × (pod'.heartbeat_sequence ≡ 5)
        × (pod'.status ≡ "active")
        × (pod'.public_key_pem ≡ "key")
        × (pod'.device_binding_fingerprint ≡ "device"))
    × ((of_pod : Subject) × (find_subject_row "s" running.subjects ≡ some of_pod)
        × IsAnswered granting pod
            (beat 5)
            running
            of_pod
            (result accepted accepted_done).0
            (result accepted accepted_done).1)
unfolding find_pod
heartbeat-IsGenuine_example =
    heartbeat-IsGenuine granting "p" (payload 5) (beat 5) running pod refl refl refl
      (result accepted accepted_done).0 (result accepted accepted_done).1
      (result-eq accepted accepted_done)

heartbeat_once_example :
    is_done (heartbeat_pod (env 30) "p" (payload 5) (result accepted accepted_done).0) ≡ false
unfolding find_pod
heartbeat_once_example =
    heartbeat_once granting "p" (payload 5) (beat 5) running pod refl refl refl (env 30) (payload 5)
      (beat 5) (result accepted accepted_done).0 (result accepted accepted_done).1
      (result-eq accepted accepted_done) refl (omega arith)

-- The device that was revoked comes back with another key.
abbrev comeback : EnrollRequest
comeback = record {
  provisioning_id = some "r";
  enrollment_token = some "token";
  clone_from_pod_id = none;
  username = "user";
  password = "password";
  public_key_pem = "new";
  certificate_fingerprint = "new";
  device_binding_fingerprint = "device";
  host_id = "host";
  pod_version = "0.1.3";
}

abbrev revocation : Outcome Database (Database × String)
revocation = revoke_pod (env 10) "p" running

revocation_done : is_done revocation ≡ true
unfolding revoke_pod
revocation_done = refl

revoke_locks_out_example :
    (verify_pod_access (env 20) "p" "user" "password" (result revocation revocation_done).0
      ≡ deny (result revocation revocation_done).0 403 "pod_revoked")
    × ((("key" == "") ≡ true)
        ⊎ (is_done (heartbeat_pod (env 20) "p" (payload 9) (result revocation revocation_done).0)
            ≡ false))
    × ((reuses pod (env 20) comeback ≡ false)
        ⊎ (is_done (enroll_pod (env 20) comeback (result revocation revocation_done).0) ≡ false))
unfolding find_pod revoke_pod
revoke_locks_out_example =
    revoke_locks_out (env 10) "p" running (result revocation revocation_done).0 pod refl refl refl
      (result-eq revocation revocation_done) (env 20) "user" "password" (payload 9) comeback

-- The device comes back.
comeback-reuses : reuses pod (env 20) comeback ≡ true
unfolding reuses
comeback-reuses = refl

-- A Pod without a key that is revoked, and what anyone may say of it.
abbrev keyless : Pod
keyless = record pod { public_key_pem = "" }

abbrev old : Database
old = record running { pods = keyless ∷ [] }

abbrev withdrawal : Outcome Database (Database × String)
withdrawal = revoke_pod (env 10) "p" old

withdrawal_done : is_done withdrawal ≡ true
unfolding revoke_pod
withdrawal_done = refl

abbrev claim : LegacyHeartbeat
claim = record { status = "active"; runtime_state = null; observed_at = 10 }

abbrev told : HeartbeatPayload
told = record { legacy = some claim; signed = none }

abbrev overwriting : Outcome Database (Database × HeartbeatReply)
overwriting = heartbeat_pod (env 20) "p" told (result withdrawal withdrawal_done).0

overwriting_done : is_done overwriting ≡ true
unfolding heartbeat_pod revoke_pod perimetr.Pods.Heartbeat.legacy_heartbeat
overwriting_done = refl

revoke-overwritten_example :
    ((row : Pod) × (find_pod "p" (result overwriting overwriting_done).0.pods ≡ some row)
      × (row.status ≡ "active"))
    × (verify_pod_access (env 30) "p" "user" "password" (result overwriting overwriting_done).0
        ≡ deny (result overwriting overwriting_done).0 403 "pod_revoked")
unfolding find_pod revoke_pod
revoke-overwritten_example =
    revoke-overwritten (env 10) "p" old (result withdrawal withdrawal_done).0 keyless refl refl refl
      (result-eq withdrawal withdrawal_done) (env 20) (env 30) told claim
      (result overwriting overwriting_done).0 (result overwriting overwriting_done).1 "user"
      "password" refl refl (result-eq overwriting overwriting_done)

-- A status that the column does not take.
too_wide :
    legacy_heartbeat
      (env 20)
      keyless
      (record claim { status = "a status of more than 32 characters" })
      old
    ≡ deny old 500 "DataError"
unfolding legacy_heartbeat
too_wide = refl
