-- ===== src/Pods/Heartbeat/Replay.antt =====
-- What a heartbeat that is accepted has been checked for, and why it cannot be sent again.
use perimetr.Prelude.{
  ◌*◌, ◌≤◌, ◌<◌, String, ◌≡◌, refl, true, false, some, ◌==◌, arith, eq_iff, inl, inr, ◌⊎◌,
  Option-cases, Bool-cases, eq_of_test, ap, sym, subst, ◌!=◌, if◌then◌else◌,
}
use perimetr.Http.{done, deny, refuse_if, done-injective, >>=-eq-done, is_done, is_done-absurd}
use perimetr.Settings.{Env, second}
use perimetr.Database.{Subject, Pod, Database, find_pod, find_subject_row, save_pod, is_denied}
use perimetr.Database.Rows.{find_pod-save_pod, find_pod-id}
use perimetr.Pods.Credentials.{verify_pod_access_grant}
use perimetr.Pods.Config.{PodConfig, pod_config_for_access}
use perimetr.Pods.Heartbeat.{
  Heartbeat, HeartbeatPayload, HeartbeatReply, allowed, is_wide, heartbeat_mode, distance,
  heartbeat_checks, heartbeat_row, heartbeat_audit, signed_heartbeat, heartbeat_pod,
}

-- The conditions under which the row of a Pod takes a signed heartbeat.
pub record IsGenuine (env : Env) (pod : Pod) (h : Heartbeat) (db : Database) : Type 0 where
  pub active : (pod.status == "revoked") ≡ false
  pub allowed_key :
      is_denied "certificate_fingerprint" h.certificate_fingerprint db.denylist ≡ false
  pub same_key : h.certificate_fingerprint ≡ pod.certificate_fingerprint
  pub same_device : h.device_binding_fingerprint ≡ pod.device_binding_fingerprint
  pub fresh : pod.heartbeat_sequence < h.sequence
  pub recent : distance env.now h.timestamp ≤ 300 * second
  pub signed : env.platform.verify_signature pod.public_key_pem h.payload h.signature ≡ true

-- The access mode that a heartbeat proves: that of its grant for this Pod, and without a grant, which
-- only a Pod without a decoy password may leave out, the primary one.
unfoldable pub IsGranted : Env → Pod → Heartbeat → Database → String → Type 0
IsGranted env pod h db mode =
    ((h.access_grant ≡ "") × (pod.decoy_password_hash ≡ "") × (mode ≡ "primary"))
    ⊎ (((h.access_grant == "") ≡ false)
        × (verify_pod_access_grant env db h.access_grant pod.id ≡ done mode))

module _ (env : Env) (pod : Pod) (h : Heartbeat) (db : Database) where
  mode-IsGranted :
      (mode : String) → heartbeat_mode env pod h db ≡ done mode → IsGranted env pod h db mode
  unfolding heartbeat_mode IsGranted
  mode-IsGranted mode e = elim (Bool-cases (h.access_grant == "")) [
    | inl q ↦
        let (none_needed, primary) = without (rw q at e) in
        inl (eq_of_test h.access_grant "" q, none_needed, primary)
    | inr q ↦ inr (q, rw q at e)
  ]
    where
      without :
          (if pod.decoy_password_hash != ""
              then deny db 403 "pod_access_grant_required"
              else done "primary")
            ≡ done mode
          → (pod.decoy_password_hash ≡ "") × (mode ≡ "primary")
      without e = (ground (arith, eq_iff pod.decoy_password_hash ""), ground arith)

  checks-IsGranted :
      (mode : String) → heartbeat_checks env pod h db ≡ done mode → IsGranted env pod h db mode
  unfolding heartbeat_checks
  checks-IsGranted mode e = mode-IsGranted mode (ground arith)

  checks-IsGenuine :
      (mode : String) → heartbeat_checks env pod h db ≡ done mode → IsGenuine env pod h db
  unfolding heartbeat_checks
  checks-IsGenuine mode e = record {
    active = ground arith;
    allowed_key = ground arith;
    same_key = ground (arith, eq_iff h.certificate_fingerprint pod.certificate_fingerprint);
    same_device =
        ground (arith, eq_iff h.device_binding_fingerprint pod.device_binding_fingerprint);
    fresh = ground arith;
    recent = ground arith;
    signed = ground arith;
  }

  -- The answer: the configuration of the Subject for the mode that was proved.
  unfoldable pub IsAnswered : Subject → Database → HeartbeatReply → Type 0
  IsAnswered subject db' reply =
      (mode : String) × (config : PodConfig) × IsGranted env pod h db mode
      × (pod_config_for_access env db' subject mode ≡ done config)
      × (reply ≡ allowed "active" env.settings.perimetr_pod_offline_after_sec config)

  signed-done :
      (subject : Subject) (db' : Database) (reply : HeartbeatReply)
      → signed_heartbeat env pod subject h db ≡ done (db', reply)
      → IsGenuine env pod h db
        × (db'.pods ≡ save_pod (heartbeat_row env pod subject h) db.pods)
        × (db'.denylist ≡ db.denylist)
        × IsAnswered subject db' reply
  unfolding signed_heartbeat heartbeat_audit IsAnswered
  signed-done subject db' reply e =
      let (mode, hm, e1) = >>=-eq-done (heartbeat_checks env pod h db) _ e in
      let (_, _, e2) = >>=-eq-done (refuse_if (is_wide h) db 500 "DataError") _ e1 in
      let (config, hc, e3) = >>=-eq-done (pod_config_for_access env _ subject mode) _ e2 in
      let made = done-injective e3 in
      let same = ap (λ r. r.0) made in
      (
        checks-IsGenuine mode hm,
        ground arith,
        ground arith,
        (
          mode,
          config,
          checks-IsGranted mode hm,
          subst (λ d. pod_config_for_access env d subject mode ≡ done config) same hc,
          sym (ap (λ r. r.1) made),
        ),
      )

heartbeat-signed_at :
    (env : Env) (i : String) (payload : HeartbeatPayload) (h : Heartbeat) (db : Database)
    (pod : Pod)
    → find_pod i db.pods ≡ some pod
    → (pod.public_key_pem == "") ≡ false
    → payload.signed ≡ some h
    → (db' : Database) (reply : HeartbeatReply) → heartbeat_pod env i payload db ≡ done (db', reply)
    → (subject : Subject) × (find_subject_row pod.subject_id db.subjects ≡ some subject)
      × (signed_heartbeat env pod subject h db ≡ done (db', reply))
unfolding heartbeat_pod
heartbeat-signed_at env i payload h db pod found keyed read db' reply e =
    elim (Option-cases (find_subject_row pod.subject_id db.subjects)) [
      | inl q ↦ absurd (ground arith)
      | inr (subject, q) ↦ (subject, q, ground arith)
    ]

module _ (env : Env) (i : String) (payload : HeartbeatPayload) (h : Heartbeat) (db : Database)
    (pod : Pod) (found : find_pod i db.pods ≡ some pod) (keyed : (pod.public_key_pem == "") ≡ false)
    (read : payload.signed ≡ some h) where
  -- A signed heartbeat that is accepted, by a Pod with a key, is genuine: the Pod is not revoked, its
  -- key is not denied, key and device are the registered ones, the signature is valid, the time is
  -- within five minutes and the sequence number is above the stored one. The stored row then has that
  -- sequence number and is active, and the answer is the configuration of the Pod's Subject for the
  -- mode of the access grant, or for the primary mode where the heartbeat has none and the Pod has no
  -- decoy password.
  pub heartbeat-IsGenuine :
      (db' : Database) (reply : HeartbeatReply)
      → heartbeat_pod env i payload db ≡ done (db', reply)
      → IsGenuine env pod h db
        × ((pod' : Pod) × (find_pod i db'.pods ≡ some pod')
            × (pod'.heartbeat_sequence ≡ h.sequence)
            × (pod'.status ≡ "active")
            × (pod'.public_key_pem ≡ pod.public_key_pem)
            × (pod'.device_binding_fingerprint ≡ pod.device_binding_fingerprint))
        × ((subject : Subject) × (find_subject_row pod.subject_id db.subjects ≡ some subject)
            × IsAnswered env pod h db subject db' reply)
  heartbeat-IsGenuine db' reply e =
      let (subject, q, e1) =
        heartbeat-signed_at env i payload h db pod found keyed read db' reply e in
      let (genuine, pods, denied, answered) = signed-done env pod h db subject db' reply e1 in
      let row = heartbeat_row env pod subject h in
      (
        genuine,
        (
          row,
          rw pods (find_pod-save_pod i row pod db.pods found (find_pod-id i db.pods pod found)),
          refl,
          refl,
          refl,
          refl,
        ),
        (subject, q, answered),
      )

  -- In the database that an accepted signed heartbeat of a Pod with a key leaves, no signed heartbeat
  -- of that Pod whose sequence number is not higher is accepted: neither the same one again nor an
  -- older one, at any time and with whatever other contents.
  pub heartbeat_once :
      (later : Env) (again : HeartbeatPayload) (q : Heartbeat) (db' : Database)
      (reply : HeartbeatReply)
      → heartbeat_pod env i payload db ≡ done (db', reply)
      → again.signed ≡ some q
      → q.sequence ≤ h.sequence
      → is_done (heartbeat_pod later i again db') ≡ false
  heartbeat_once later again q db' reply e read' old =
      let (genuine, (pod', found', seq, active, key, device), _) =
        heartbeat-IsGenuine db' reply e in
      is_done-absurd (heartbeat_pod later i again db') λ (next, reply') e'.
        let (subject, q1, e1) =
          heartbeat-signed_at later i again q db' pod' found' (rw key keyed) read' next reply' e' in
        let newer = (signed-done later pod' q db' subject next reply' e1).0 in
        absurd (omega (arith, newer.fresh, seq))
