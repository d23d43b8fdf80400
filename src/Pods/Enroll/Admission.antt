-- ===== src/Pods/Enroll/Admission.antt =====
-- What an enrollment that succeeds has been checked for.
use perimetr.Prelude.{
  String, ◌≡◌, refl, false, none, some, [], ◌∷◌, ◌++◌, ◌==◌, arith, eq_iff, inl, inr, Option-cases,
  or_else,
}
use perimetr.Http.{done, >>=-eq-done}
use perimetr.Settings.{Env}
use perimetr.Database.{Pod, PodProvisioningRecord, Database, find_record, save_record, is_denied}
use perimetr.Database.Rows.{find_record-save_record, find_record-id}
use perimetr.Pods.Credentials.{hash_token}
use perimetr.Pods.Config.{is_empty_text, validate_subject_pod_config}
use perimetr.Pods.Enroll.{
  EnrollReply, Admitted, admit, enroll_pod, register_pod, spend_record, add_denied, new_pod,
  enroll_reply,
}
use perimetr.Pods.Applicant.{
  EnrollRequest, Source, enroll_source, provisioned_source, enroll_access, enroll_device,
  is_consumed, is_expired, is_registered,
}

module _ (env : Env) (p : EnrollRequest) (db : Database) where
  pub admit-done :
      (a : Admitted)
      → admit env p db ≡ done a
      → (enroll_source env p db ≡ done a.source)
        × (enroll_access env p db a.source ≡ done a.access)
        × (enroll_device env p db ≡ done a.fingerprint)
  unfolding admit
  admit-done a h =
      let (s, hs, h1) = >>=-eq-done (enroll_source env p db) _ h in
      let (c, hc, h2) = >>=-eq-done (enroll_access env p db s) _ h1 in
      let (u, hu, h3) = >>=-eq-done (validate_subject_pod_config env db s.subject) _ h2 in
      let (f, hf, h4) = >>=-eq-done (enroll_device env p db) _ h3 in ground arith

  enroll_reply-db :
      (a : Admitted) (pod : Pod) (d db' : Database) (reply : EnrollReply)
      → enroll_reply env a pod d ≡ done (db', reply)
      → d ≡ db'
  unfolding enroll_reply
  enroll_reply-db a pod d db' reply h = ground arith

  pub enroll-done :
      (db' : Database) (reply : EnrollReply)
      → enroll_pod env p db ≡ done (db', reply)
      → (a : Admitted) × (admit env p db ≡ done a)
        × (register_pod env db a.source (new_pod env p a.source a.access a.fingerprint) ≡ done db')
  unfolding enroll_pod
  enroll-done db' reply h =
      let (a, ha, h1) = >>=-eq-done (admit env p db) _ h in
      let pod = new_pod env p a.source a.access a.fingerprint in
      let (d, hd, h2) = >>=-eq-done (register_pod env db a.source pod) _ h1 in
      (a, ha, rw (← enroll_reply-db a pod d db' reply h2) hd)

  device-done :
      (fingerprint : String)
      → enroll_device env p db ≡ done fingerprint
      → (is_denied "certificate_fingerprint" fingerprint db.denylist ≡ false)
        × (is_denied "device_binding_fingerprint" p.device_binding_fingerprint db.denylist ≡ false)
        × (is_registered fingerprint db.pods ≡ false)
        × (env.platform.p256_fingerprint p.public_key_pem ≡ some fingerprint)
  unfolding enroll_device
  device-done fingerprint h = ground arith

  record-done :
      (r : PodProvisioningRecord) (s : Source)
      → provisioned_source env p db r ≡ done s
      → (hash_token env (or_else p.enrollment_token "") ≡ r.enrollment_token_hash)
        × (is_consumed r.status ≡ false)
        × ((r.enrollment_token_encrypted == "") ≡ false)
        × (is_expired env.now r.expires_at ≡ false)
        × (s.from_record ≡ some r)
  unfolding provisioned_source
  record-done r s h =
      ground
        (arith, eq_iff (hash_token env (or_else p.enrollment_token "")) r.enrollment_token_hash)

  -- The new row, and what the registration leaves of the old ones.
  register-done :
      (s : Source) (pod : Pod) (db' : Database)
      → register_pod env db s pod ≡ done db'
      → (db'.pods ≡ db.pods ++ pod ∷ [])
        × (db'.provisioning ≡ elim s.from_record [
          | none ↦ db.provisioning
          | some r ↦
              save_record
                (record r {
                  status = "active";
                  activated_at = some env.now;
                  enrollment_token_encrypted = "";
                })
                db.provisioning
        ])
  unfolding register_pod spend_record add_denied
  register-done s pod db' h = ground arith

  pub source-record :
      (s : Source)
      → is_empty_text p.provisioning_id ≡ false
      → enroll_source env p db ≡ done s
      → (r : PodProvisioningRecord) × (find_record (or_else p.provisioning_id "") db.provisioning
          ≡ some r)
        × (provisioned_source env p db r ≡ done s)
  unfolding enroll_source
  source-record s given h =
      elim (Option-cases (find_record (or_else p.provisioning_id "") db.provisioning)) [
        | inl e ↦ absurd (ground arith)
        | inr (r, e) ↦ (r, e, ground arith)
      ]

  -- An enrollment that succeeds has added exactly one Pod, which is offline and has the fingerprint
  -- of the P-256 key that was sent; when it began, neither that fingerprint nor the device binding
  -- was denied, and no Pod with that fingerprint was in use.
  pub enroll-IsAdmitted :
      (db' : Database) (reply : EnrollReply)
      → enroll_pod env p db ≡ done (db', reply)
      → (pod : Pod) × (db'.pods ≡ db.pods ++ pod ∷ [])
        × (pod.status ≡ "offline")
        × (env.platform.p256_fingerprint p.public_key_pem ≡ some pod.certificate_fingerprint)
        × (pod.device_binding_fingerprint ≡ p.device_binding_fingerprint)
        × (is_denied "certificate_fingerprint" pod.certificate_fingerprint db.denylist ≡ false)
        × (is_denied "device_binding_fingerprint" p.device_binding_fingerprint db.denylist ≡ false)
        × (is_registered pod.certificate_fingerprint db.pods ≡ false)
  unfolding new_pod
  enroll-IsAdmitted db' reply h =
      let (a, ha, hr) = enroll-done db' reply h in
      let (hs, hc, hd) = admit-done a ha in
      let (cert, device, unused, key) = device-done a.fingerprint hd in
      let pod = new_pod env p a.source a.access a.fingerprint in
      (pod, (register-done a.source pod db' hr).0, refl, key, refl, cert, device, unused)

  -- An enrollment by a provisioning record that succeeds has shown the token of that record, which
  -- was neither spent, removed nor expired; it leaves the record active and without its token.
  pub enroll-IsAuthorized :
      (db' : Database) (reply : EnrollReply)
      → is_empty_text p.provisioning_id ≡ false
      → enroll_pod env p db ≡ done (db', reply)
      → (r : PodProvisioningRecord) × (find_record (or_else p.provisioning_id "") db.provisioning
          ≡ some r)
        × (hash_token env (or_else p.enrollment_token "") ≡ r.enrollment_token_hash)
        × (is_consumed r.status ≡ false)
        × (is_expired env.now r.expires_at ≡ false)
        × (find_record (or_else p.provisioning_id "") db'.provisioning
            ≡ some (record r {
              status = "active";
              activated_at = some env.now;
              enrollment_token_encrypted = "";
            }))
  enroll-IsAuthorized db' reply given h =
      let (a, ha, hr) = enroll-done db' reply h in
      let (hs, hc, hd) = admit-done a ha in
      let (r, found, source) = source-record a.source given hs in
      let (token, unspent, present, young, from) = record-done r a.source source in
      let (added, spent) =
        register-done a.source (new_pod env p a.source a.access a.fingerprint) db' hr in
      let used : PodProvisioningRecord = record r {
        status = "active";
        activated_at = some env.now;
        enrollment_token_encrypted = "";
      } in
      let saved : db'.provisioning ≡ save_record used db.provisioning = ground arith in
      (
        r,
        found,
        token,
        unspent,
        young,
        rw saved (
            find_record-save_record (or_else p.provisioning_id "") used r db.provisioning found
              (find_record-id (or_else p.provisioning_id "") db.provisioning r found)),
      )
