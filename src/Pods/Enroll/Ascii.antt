-- ===== src/Pods/Enroll/Ascii.antt =====
-- A Pod whose login is not ASCII.
use perimetr.Prelude.{String, ◌≡◌, false, some, ◌==◌, arith, or_else, ap, sym, ◌∙◌}
use perimetr.Http.{done, deny, is_done, is_done-absurd}
use perimetr.Settings.{Env}
use perimetr.Database.{PodProvisioningRecord, Database, find_record}
use perimetr.Pods.Credentials.{is_ascii, compare_digest, pod_access_mode}
use perimetr.Pods.Config.{is_empty_text}
use perimetr.Pods.Enroll.{enroll_pod}
use perimetr.Pods.Applicant.{EnrollRequest, Source, Access, provisioned_source, enroll_access}
use perimetr.Pods.Enroll.Admission.{enroll-done, admit-done, source-record}

module _ (env : Env) (p : EnrollRequest) (db : Database) where
  source-login :
      (r : PodProvisioningRecord) (s : Source)
      → provisioned_source env p db r ≡ done s
      → (s.login ≡ r.login) × (s.password_hash ≡ r.password_hash)
  unfolding provisioned_source
  source-login r s h = ground arith

  mode-raises :
      (login verifier decoy : String)
      → is_ascii login ≡ false
      → pod_access_mode env db p.username p.password login verifier decoy ≡ deny db 500 "TypeError"
  unfolding pod_access_mode compare_digest
  mode-raises login verifier decoy h = ground arith

  access-raises :
      (s : Source) (a : Access)
      → is_ascii s.login ≡ false
      → (s.password_hash == "") ≡ false
      → enroll_access env p db s ≡ done a
      → ⊥
  unfolding enroll_access
  access-raises s a odd stored h =
      ground (arith, mode-raises s.login s.password_hash s.decoy_password_hash odd)

  -- No enrollment by a provisioning record succeeds whose login has a character outside ASCII, if the
  -- record has a verifier, whatever the request says.
  pub enroll-needs_ascii :
      (r : PodProvisioningRecord)
      → is_empty_text p.provisioning_id ≡ false
      → find_record (or_else p.provisioning_id "") db.provisioning ≡ some r
      → (r.password_hash == "") ≡ false
      → is_ascii r.login ≡ false
      → is_done (enroll_pod env p db) ≡ false
  enroll-needs_ascii r given found stored odd =
      is_done-absurd (enroll_pod env p db) λ (db', reply) e.
        let (a, ha, hr) = enroll-done env p db db' reply e in
        let (hs, hc, hd) = admit-done env p db a ha in
        let (q, found', made) = source-record env p db a.source given hs in
        let (login, verifier) = source-login q a.source made in
        let same : some q ≡ some r = sym found' ∙ found in
        let q_is_r : q ≡ r = cc in
        access-raises a.source a.access (ap is_ascii (login ∙ ap (λ x. x.login) q_is_r) ∙ odd)
          (ap (λ v. v == "") (verifier ∙ ap (λ x. x.password_hash) q_is_r) ∙ stored) hc
