-- ===== src/Pods/Manage/Lockout.antt =====
-- A revoked Pod is locked out.
use perimetr.Prelude.{
  Option, Bool, ◌&&◌, ◌||◌, ◌!=◌, eq_of_test, ap, ◌∙◌, String, ◌≡◌, refl, true, false, none, some,
  ◌==◌, arith, ◌⊎◌, inl, inr, Bool-cases, Option-cases,
}
use perimetr.Http.{done, deny, is_done, is_done-absurd}
use perimetr.Settings.{Env}
use perimetr.Database.{Pod, Database, find_pod, save_pod, is_denied}
use perimetr.Database.Rows.{find_pod-save_pod, find_pod-id}
use perimetr.Pods.Enroll.{enroll_pod}
use perimetr.Pods.Applicant.{EnrollRequest}
use perimetr.Pods.Enroll.Admission.{enroll-IsAdmitted}
use perimetr.Pods.Heartbeat.{Heartbeat, HeartbeatPayload, heartbeat_pod}
use perimetr.Pods.Heartbeat.Replay.{heartbeat-IsGenuine}
use perimetr.Pods.Access.{verify_pod_access}
use perimetr.Pods.Manage.Denial.{deny_pod-denies}
use perimetr.Pods.Manage.{deny_pod, revoked_row, revoke_row, revoke_pod}

abbrev is_text_of : String → Option String → Bool
is_text_of value none = false
is_text_of value (some s) = s == value

-- An enrollment request with the key or the device of a Pod, where these are not empty.
unfoldable pub reuses : Pod → Env → EnrollRequest → Bool
reuses pod later p =
    (pod.certificate_fingerprint != ""
      && is_text_of pod.certificate_fingerprint (later.platform.p256_fingerprint p.public_key_pem))
    || (pod.device_binding_fingerprint != ""
        && p.device_binding_fingerprint == pod.device_binding_fingerprint)

reuses-which :
    (pod : Pod) (later : Env) (p : EnrollRequest)
    → reuses pod later p ≡ true
    → ((pod.certificate_fingerprint == "") ≡ false)
        × (later.platform.p256_fingerprint p.public_key_pem ≡ some pod.certificate_fingerprint)
      ⊎ ((pod.device_binding_fingerprint == "") ≡ false)
        × (p.device_binding_fingerprint ≡ pod.device_binding_fingerprint)
unfolding reuses
reuses-which pod later p h =
    elim (Bool-cases (
      pod.device_binding_fingerprint != ""
      && p.device_binding_fingerprint == pod.device_binding_fingerprint)) [
        | inl e ↦ inr (
          ground arith,
          eq_of_test p.device_binding_fingerprint pod.device_binding_fingerprint (ground arith),
        )
        | inr e ↦ elim (Option-cases (later.platform.p256_fingerprint p.public_key_pem)) [
          | inl q ↦ absurd (ground arith)
          | inr (s, q) ↦
              let own = rw q at h in
              let same = eq_of_test s pod.certificate_fingerprint (ground arith) in
              inl (ground arith, q ∙ ap some same)
        ]
      ]

verify-revoked :
    (env : Env) (i username password : String) (db : Database) (pod : Pod)
    → find_pod i db.pods ≡ some pod
    → (pod.status == "revoked") ≡ true
    → verify_pod_access env i username password db ≡ deny db 403 "pod_revoked"
unfolding verify_pod_access
verify-revoked env i username password db pod found gone =
    rw (found, verify_pod_access) (ground arith)

module _ (env : Env) (i : String) (db db' : Database) (pod : Pod)
    (found : find_pod i db.pods ≡ some pod) (named : (i == "") ≡ false)
    (live : (pod.status == "revoked") ≡ false)
    (revoked : revoke_pod env i db ≡ done (db', "revoked")) where
  revoke-done :
      (db'.pods ≡ save_pod (revoked_row env pod) db.pods)
      × (db'.denylist ≡ deny_pod db.denylist pod "operator_deleted" db.denylist)
  unfolding revoke_pod revoke_row
  revoke-done = ground arith

  pub revoke-found : find_pod i db'.pods ≡ some (revoked_row env pod)
  revoke-found = rw (revoke-done.0) (
      find_pod-save_pod i (revoked_row env pod) pod db.pods found (find_pod-id i db.pods pod found))

  pub identifier_denied :
      (kind value : String)
      → ((kind ≡ "pod_id") × (value ≡ pod.id))
        ⊎ (((kind ≡ "certificate_fingerprint") × (value ≡ pod.certificate_fingerprint))
            ⊎ ((kind ≡ "device_binding_fingerprint") × (value ≡ pod.device_binding_fingerprint)))
      → (value == "") ≡ false
      → is_denied kind value db'.denylist ≡ true
  identifier_denied kind value which ne = rw (revoke-done.1) (
      deny_pod-denies db.denylist pod "operator_deleted" db.denylist kind value (λ k v h. h) which
        ne)

  unread_refused :
      (later : Env) (payload : HeartbeatPayload)
      → (pod.public_key_pem == "") ≡ false
      → payload.signed ≡ none
      → is_done (heartbeat_pod later i payload db') ≡ false
  unfolding heartbeat_pod
  unread_refused later payload keyed read = rw (revoke-found, heartbeat_pod) (rw (keyed, read) refl)

  beat_refused :
      (later : Env) (payload : HeartbeatPayload) (h : Heartbeat)
      → (pod.public_key_pem == "") ≡ false
      → payload.signed ≡ some h
      → is_done (heartbeat_pod later i payload db') ≡ false
  beat_refused later payload h keyed read =
      is_done-absurd (heartbeat_pod later i payload db') λ (next, reply) e.
        let genuine =
          (heartbeat-IsGenuine later i payload h db' (revoked_row env pod) revoke-found keyed read
            next reply e).0 in
        ground (arith, genuine.active)

  reuse_refused :
      (later : Env) (p : EnrollRequest)
      → ((pod.certificate_fingerprint == "") ≡ false)
          × (later.platform.p256_fingerprint p.public_key_pem ≡ some pod.certificate_fingerprint)
        ⊎ ((pod.device_binding_fingerprint == "") ≡ false)
          × (p.device_binding_fingerprint ≡ pod.device_binding_fingerprint)
      → is_done (enroll_pod later p db') ≡ false
  reuse_refused later p same = is_done-absurd (enroll_pod later p db') λ (next, reply) e.
      let (new, rows, offline, key, device, cert_free, device_free, unused) =
        enroll-IsAdmitted later p db' next reply e in
      elim same [
        | inl (ne, k) ↦
            let same_key : pod.certificate_fingerprint ≡ new.certificate_fingerprint = cc in
            let denied =
              identifier_denied "certificate_fingerprint" pod.certificate_fingerprint
                (inr (inl (refl, refl))) ne in
            cc
        | inr (ne, k) ↦
            let denied =
              identifier_denied "device_binding_fingerprint" pod.device_binding_fingerprint
                (inr (inr (refl, refl))) ne in
            cc
      ]

  -- In the database that the revocation of a Pod in use leaves, at any time: its user's login is
  -- refused; every heartbeat for it is refused, unless the Pod has no public key; and every enrollment
  -- with the fingerprint of the Pod's key or with the Pod's device, where these are not empty, is
  -- refused.
  pub revoke_locks_out :
      (later : Env) (username password : String) (payload : HeartbeatPayload) (p : EnrollRequest)
      → (verify_pod_access later i username password db' ≡ deny db' 403 "pod_revoked")
        × (((pod.public_key_pem == "") ≡ true)
            ⊎ (is_done (heartbeat_pod later i payload db') ≡ false))
        × ((reuses pod later p ≡ false) ⊎ (is_done (enroll_pod later p db') ≡ false))
  revoke_locks_out later username password payload p = (
    verify-revoked later i username password db' (revoked_row env pod) revoke-found refl,
    elim (Bool-cases (pod.public_key_pem == "")) [
      | inl e ↦ inl e
      | inr e ↦ inr (elim (Option-cases payload.signed) [
        | inl none_read ↦ unread_refused later payload e none_read
        | inr (h, read) ↦ beat_refused later payload h e read
      ])
    ],
    elim (Bool-cases (reuses pod later p)) [
      | inl e ↦ inr (reuse_refused later p (reuses-which pod later p e))
      | inr e ↦ inl e
    ],
  )
