-- ===== src/Pods/Provision/Redeem.antt =====
-- The one-time token of a provisioning record, from its creation to its use.
use perimetr.Prelude.{
  ℕ, String, ◌≡◌, refl, true, false, none, some, List, [], ◌∷◌, ◌++◌, ◌==◌, ◌!=◌, ◌||◌, arith,
  eq_iff, inl, inr, Option-cases, Bool-cases, or_else, ap, sym, ◌∙◌,
}
use perimetr.Http.{Outcome, done, deny, refuse_if, >>=-eq-done, is_done, committed}
use perimetr.Settings.{Env}
use perimetr.Database.{Subject, PodProvisioningRecord, Database, find_record, find_subject_row}
use perimetr.Pods.Credentials.{encrypt_secret, decrypt_secret, hash_token, hash_pod_password}
use perimetr.Pods.Enroll.{EnrollReply, enroll_pod}
use perimetr.Pods.Applicant.{EnrollRequest, is_consumed, is_expired}
use perimetr.Pods.Enroll.Admission.{enroll-IsAuthorized}
use perimetr.Pods.Removal.{get_subject, find_entity}
use perimetr.Artifacts.{Artifact}
use perimetr.Pods.Provision.{
  Artifacts, PodProvisioningCreate, require_artifact, decoy_hash, provisioning_row, add_record,
  create_subject_pod, check_create, issue_record,
}
use perimetr.Pods.Provision.Download.{
  Bootstrap, build_pod_bundle, pin_artifact, resolve_artifact, download_record,
  download_subject_pod,
}

done-inj : {S A : Type 0} {a b : A} → ◌≡◌ {A = Outcome S A} (done a) (done b) → a ≡ b
done-inj h = cc

find_record-append_new :
    (i : String) (r : PodProvisioningRecord) (rs : List PodProvisioningRecord)
    → find_record i rs ≡ none
    → r.id ≡ i
    → find_record i (rs ++ r ∷ []) ≡ some r
unfolding find_record
find_record-append_new i r [] h e = ground (arith, eq_iff r.id i)
find_record-append_new i r (q ∷ qs) h e = ground (arith, find_record-append_new i r qs)

-- What a creation leaves in the table.
module _ (env : Env) (artifacts : Artifacts) (p : PodProvisioningCreate) (db db' : Database)
    (r : PodProvisioningRecord) where
  added :
      (subject : Subject) (login verifier decoy : String) (artifact : Artifact)
      → ◌≡◌ {A = Database × PodProvisioningRecord}
          (
            add_record env subject artifact
                (provisioning_row env subject login verifier decoy artifact)
                db,
            provisioning_row env subject login verifier decoy artifact,
          )
          (db', r)
      → (db'.provisioning ≡ db.provisioning ++ r ∷ [])
        × (r.id ≡ env.fresh 3)
        × (r.enrollment_token_hash ≡ hash_token env (env.fresh 2))
        × (r.enrollment_token_encrypted ≡ encrypt_secret env (env.fresh 2))
  unfolding add_record
  added subject login verifier decoy artifact h =
      let same : provisioning_row env subject login verifier decoy artifact ≡ r = ap (λ q. q.1) h in
      (
        sym (ap (λ q. q.0.provisioning) h) ∙ ap (λ x. db.provisioning ++ x ∷ []) same,
        sym (ap (λ x. x.id) same),
        sym (ap (λ x. x.enrollment_token_hash) same),
        sym (ap (λ x. x.enrollment_token_encrypted) same),
      )

  issued :
      (subject : Subject)
      → issue_record env artifacts subject p db ≡ done (db', r)
      → (db'.provisioning ≡ db.provisioning ++ r ∷ [])
        × (r.id ≡ env.fresh 3)
        × (r.enrollment_token_hash ≡ hash_token env (env.fresh 2))
        × (r.enrollment_token_encrypted ≡ encrypt_secret env (env.fresh 2))
  unfolding issue_record
  issued subject h =
      let (artifact, h0, h1) = >>=-eq-done (require_artifact db (artifacts.latest true)) _ h in
      let (verifier, h2, h3) = >>=-eq-done (hash_pod_password env db 0 p.password) _ h1 in
      let (decoy, h4, h5) = >>=-eq-done (decoy_hash env db (or_else p.decoy_password "")) _ h3 in
      added subject (env.platform.strip p.login) verifier decoy artifact (done-inj h5)

  created :
      (subject_id : String)
      → create_subject_pod env artifacts subject_id p db ≡ done (db', r)
      → (db'.provisioning ≡ db.provisioning ++ r ∷ [])
        × (r.id ≡ env.fresh 3)
        × (r.enrollment_token_hash ≡ hash_token env (env.fresh 2))
        × (r.enrollment_token_encrypted ≡ encrypt_secret env (env.fresh 2))
  unfolding create_subject_pod
  created subject_id h =
      let (subject, h0, h1) = >>=-eq-done (check_create env subject_id p db) _ h in
      issued subject h1

-- What a download hands out.
bundled :
    (env : Env) (db : Database) (r : PodProvisioningRecord) (subject : Subject) (b : Bootstrap)
    → build_pod_bundle env db r subject ≡ done b
    → (decrypt_secret env db r.enrollment_token_encrypted ≡ done b.enrollment_token)
      × (b.provisioning_id ≡ r.id)
unfolding build_pod_bundle
bundled env db r subject b h =
    let (token, h0, h1) = >>=-eq-done (decrypt_secret env db r.enrollment_token_encrypted) _ h in
    ground arith

pin_artifact-token :
    (r : PodProvisioningRecord) (a : Artifact)
    → ((pin_artifact r a).enrollment_token_encrypted ≡ r.enrollment_token_encrypted)
      × ((pin_artifact r a).id ≡ r.id)
unfolding pin_artifact
pin_artifact-token r a = elim (Bool-cases (r.artifact_sha256 != "")) [
  | inl e ↦ elim (Bool-cases (a.source == "pinned-redownload")) [
    | inl f ↦ rw (e, f) (refl, refl)
    | inr f ↦ rw (e, f) (refl, refl)
  ]
  | inr e ↦ rw e (refl, refl)
]

module _ (env : Env) (artifacts : Artifacts) (db db' : Database) (b : Bootstrap) where
  downloaded :
      (subject : Subject) (r : PodProvisioningRecord)
      → download_record env artifacts subject r db ≡ done (db', b)
      → (is_consumed r.status ≡ false)
        × (decrypt_secret env db r.enrollment_token_encrypted ≡ done b.enrollment_token)
        × (b.provisioning_id ≡ r.id)
  unfolding download_record
  downloaded subject r h =
      let (u0, h0, h1) =
        >>=-eq-done (refuse_if (r.subject_id != subject.id) db 404 "pod_provisioning_not_found") _
          h in
      let (u2, h2, h3) =
        >>=-eq-done
          (refuse_if (is_consumed r.status || r.enrollment_token_encrypted == "") db 409
            "pod_bundle_not_downloadable")
          _ h1 in
      let (u4, h4, h5) = >>=-eq-done (refuse_if (is_expired env.now r.expires_at) _ 410 _) _ h3 in
      let (artifact, h6, h7) =
        >>=-eq-done (require_artifact db (resolve_artifact artifacts r)) _ h5 in
      let (bundle, h8, h9) =
        >>=-eq-done (build_pod_bundle env db (pin_artifact r artifact) subject) _ h7 in
      let same : bundle ≡ b = ap (λ q. q.1) (done-inj h9) in
      let (token, id) = bundled env db (pin_artifact r artifact) subject bundle h8 in
      let (kept_token, kept_id) = pin_artifact-token r artifact in
      (
        ground (arith, h2),
        ap (decrypt_secret env db) (sym kept_token)
            ∙ (token ∙ ap (λ x. done x.enrollment_token) same),
        sym (ap (λ x. x.provisioning_id) same) ∙ (id ∙ kept_id),
      )

  by_id :
      (subject_id i : String) (r : PodProvisioningRecord)
      → find_record i db.provisioning ≡ some r
      → download_subject_pod env artifacts subject_id i db ≡ done (db', b)
      → (subject : Subject) × (download_record env artifacts subject r db ≡ done (db', b))
  unfolding download_subject_pod
  by_id subject_id i r found h =
      let (subject, h0, h1) = >>=-eq-done (get_subject subject_id db) _ h in (subject, ground arith)

decrypts :
    (env later : Env) (db : Database) (t : String)
    → later.platform ≡ env.platform
    → later.settings ≡ env.settings
    → (t == "") ≡ false
    → (env.platform.fernet_encrypt env.settings.perimetr_pod_signing_secret t == "") ≡ false
    → env.platform.fernet_decrypt env.settings.perimetr_pod_signing_secret
        (env.platform.fernet_encrypt env.settings.perimetr_pod_signing_secret t)
      ≡ some t
    → decrypt_secret later db (encrypt_secret env t) ≡ done t
unfolding encrypt_secret decrypt_secret
decrypts env later db t same settings named cipher reads =
    rw (named, same, settings, cipher, reads) refl

-- A bundle that is downloaded for a record which was just created carries the token that the record
-- was created with, and the token's hash is the one that the record asks of an enrollment. The
-- download may come at any time and with any artifacts, if settings and platform have not changed,
-- token and ciphertext are not empty, the cipher reads the token back, and the record's id was new.
pub download-IsRedeemable :
    (env later : Env) (artifacts others : Artifacts) (subject_id other_id : String)
    (p : PodProvisioningCreate) (db db' next : Database) (r : PodProvisioningRecord) (b : Bootstrap)
    → create_subject_pod env artifacts subject_id p db ≡ done (db', r)
    → download_subject_pod later others other_id r.id db' ≡ done (next, b)
    → find_record (env.fresh 3) db.provisioning ≡ none
    → (later.platform ≡ env.platform) × (later.settings ≡ env.settings)
    → (env.fresh 2 == "") ≡ false
    → (env.platform.fernet_encrypt env.settings.perimetr_pod_signing_secret (env.fresh 2) == "")
      ≡ false
    → env.platform.fernet_decrypt env.settings.perimetr_pod_signing_secret
        (env.platform.fernet_encrypt env.settings.perimetr_pod_signing_secret (env.fresh 2))
      ≡ some (env.fresh 2)
    → (b.enrollment_token ≡ env.fresh 2)
      × (hash_token later b.enrollment_token ≡ r.enrollment_token_hash)
      × (b.provisioning_id ≡ r.id)
unfolding hash_token
download-IsRedeemable env later artifacts others subject_id other_id p db db' next r b h d new
      (same, settings) named cipher reads =
    let (rows, id, hash, secret) = created env artifacts p db db' r subject_id h in
    let found : find_record r.id db'.provisioning ≡ some r =
      ap (find_record r.id) rows
      ∙ find_record-append_new r.id r db.provisioning
          (ap (λ i. find_record i db.provisioning) id ∙ new) refl in
    let (subject, d') = by_id later others db' next b other_id r.id r found d in
    let (unspent, read, name) = downloaded later others db' next b subject r d' in
    let token : env.fresh 2 ≡ b.enrollment_token = done-inj (
      sym (decrypts env later db' (env.fresh 2) same settings named cipher reads)
      ∙ (ap (decrypt_secret later db') (sym secret) ∙ read)) in
    (
      sym token,
      ap (hash_token later) (sym token) ∙ (ap (λ x. x.sha256_hex (env.fresh 2)) same ∙ sym hash),
      name,
    )

record_refused :
    (env : Env) (artifacts : Artifacts) (subject : Subject) (r : PodProvisioningRecord)
    (db : Database)
    → is_consumed r.status ≡ true
    → (is_done (download_record env artifacts subject r db) ≡ false)
      × (committed (download_record env artifacts subject r db) ≡ db)
unfolding download_record
record_refused env artifacts subject r db spent = elim (Bool-cases (r.subject_id != subject.id)) [
  | inl e ↦ rw e (refl, refl)
  | inr e ↦ rw (e, spent) (refl, refl)
]

get_subject-refused :
    (i : String) (db d : Database) (code : ℕ) (detail : String)
    → get_subject i db ≡ deny d code detail
    → d ≡ db
unfolding get_subject
get_subject-refused i db d code detail h = elim (Option-cases (find_subject_row i db.subjects)) [
  | inr (s, e) ↦ absurd (ground arith)
  | inl e ↦ elim (Option-cases (find_entity i db.subjects)) [
    | inl f ↦ ground arith
    | inr (s, f) ↦ absurd (ground arith)
  ]
]

spent_refused :
    (env : Env) (artifacts : Artifacts) (subject_id i : String) (db : Database)
    (r : PodProvisioningRecord) (o : Outcome Database Subject)
    → get_subject subject_id db ≡ o
    → find_record i db.provisioning ≡ some r
    → is_consumed r.status ≡ true
    → (is_done (download_subject_pod env artifacts subject_id i db) ≡ false)
      × (committed (download_subject_pod env artifacts subject_id i db) ≡ db)
unfolding download_subject_pod
spent_refused env artifacts subject_id i db r (deny d code detail) e found spent =
    rw e (refl, get_subject-refused subject_id db d code detail e)
spent_refused env artifacts subject_id i db r (done s) e found spent =
    rw (e, found) (record_refused env artifacts s r db spent)

-- In the database that an enrollment by a provisioning record leaves, the bundle with its token is
-- not given out again: every download of the record is refused and changes nothing, at any time.
pub download-refused_after_use :
    (env later : Env) (artifacts : Artifacts) (subject_id i : String) (p : EnrollRequest)
    (db db' : Database) (reply : EnrollReply)
    → p.provisioning_id ≡ some i
    → (i == "") ≡ false
    → enroll_pod env p db ≡ done (db', reply)
    → (is_done (download_subject_pod later artifacts subject_id i db') ≡ false)
      × (committed (download_subject_pod later artifacts subject_id i db') ≡ db')
download-refused_after_use env later artifacts subject_id i p db db' reply same named h =
    let (r, found, token, unspent, young, spent) =
      enroll-IsAuthorized env p db db' reply (rw same named) h in
    spent_refused later artifacts subject_id i db' _ _ refl
      (ap (λ x. find_record (or_else x "") db'.provisioning) (sym same) ∙ spent) refl
