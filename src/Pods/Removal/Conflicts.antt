-- ===== src/Pods/Removal/Conflicts.antt =====
-- Two removals that end in the unique constraint of the deny list.
use perimetr.Prelude.{
  String, ◌≡◌, refl, true, false, some, inl, inr, Option-cases, ◌==◌, [], ◌∷◌, ◌++◌, arith, eq_self,
}
use perimetr.Http.{done, deny, >>=-eq-done}
use perimetr.Settings.{Env}
use perimetr.Database.{
  Subject, PodProvisioningRecord, Database, is_denied, find_record, save_record,
}
use perimetr.Database.Rows.{is_denied-append, find_record-id, find_record-save_record}
use perimetr.Pods.Enroll.{add_denied}
use perimetr.Pods.Removal.{
  get_subject, removed_record, removal_denied, remove_record, delete_pending_pod,
}

remove-done :
    (env : Env) (subject : Subject) (r : PodProvisioningRecord) (db db' : Database) (id : String)
    → remove_record env subject r db ≡ done (db', id)
    → (db'.denylist ≡ db.denylist ++ removal_denied subject r ∷ [])
      × ((r.subject_id == subject.id) ≡ true)
      × (db'.provisioning ≡ save_record (removed_record env r) db.provisioning)
      × (db'.subjects ≡ db.subjects)
unfolding remove_record add_denied
remove-done env subject r db db' id h = ground arith

-- A provisioning record whose token hash is already denied cannot be removed: the request ends in
-- the unhandled error of the unique constraint.
denied_record-fails :
    (env : Env) (subject : Subject) (r : PodProvisioningRecord) (db : Database)
    → (r.subject_id == subject.id) ≡ true
    → (r.status == "active") ≡ false
    → is_denied "enrollment_token" r.enrollment_token_hash db.denylist ≡ true
    → remove_record env subject r db ≡ deny db 500 "IntegrityError"
unfolding remove_record add_denied
denied_record-fails env subject r db own idle denied = ground arith

-- The record that a removal leaves cannot be removed.
removed-fails :
    (env later : Env) (subject : Subject) (r : PodProvisioningRecord) (db db' : Database)
    (id : String)
    → remove_record env subject r db ≡ done (db', id)
    → remove_record later subject (removed_record env r) db' ≡ deny db' 500 "IntegrityError"
unfolding is_denied
removed-fails env later subject r db db' id h =
    let (rows, own, _, _) = remove-done env subject r db db' id h in
    let added =
      is_denied-append "enrollment_token" r.enrollment_token_hash db.denylist
        (removal_denied subject r ∷ []) in
    denied_record-fails later subject (removed_record env r) db' own refl
      (rw rows (ground (arith, added, eq_self r.enrollment_token_hash, eq_self "enrollment_token")))

module _ (env : Env) (subject_id provisioning_id : String) (db db' : Database) (id : String)
    (removed : delete_pending_pod env subject_id provisioning_id db ≡ done (db', id)) where
  -- The Subject and the record that a removal found.
  delete_pending-found :
      (s : Subject) × (r : PodProvisioningRecord) × (get_subject subject_id db ≡ done s)
      × (find_record provisioning_id db.provisioning ≡ some r)
      × (remove_record env s r db ≡ done (db', id))
  unfolding delete_pending_pod
  delete_pending-found =
      let (s, hs, h) = >>=-eq-done (get_subject subject_id db) _ removed in
      elim (Option-cases (find_record provisioning_id db.provisioning)) [
        | inl none_found ↦ absurd (ground arith)
        | inr (r, found) ↦ (s, r, hs, found, ground arith)
      ]

  get_subject-kept :
      (s : Subject)
      → db'.subjects ≡ db.subjects
      → get_subject subject_id db ≡ done s
      → get_subject subject_id db' ≡ done s
  unfolding get_subject
  get_subject-kept s same h = rw same (ground arith)

  -- Removing a provisioning record a second time is not answered as the first time: after a successful
  -- request, the same request ends in the unhandled error of the unique constraint of the deny list
  -- at any time, and changes nothing.
  pub delete_pending_twice :
      (later : Env)
      → delete_pending_pod later subject_id provisioning_id db' ≡ deny db' 500 "IntegrityError"
  unfolding delete_pending_pod
  delete_pending_twice later =
      let (s, r, subject, found, h) = delete_pending-found in
      let (_, _, records, subjects) = remove-done env s r db db' id h in
      let again : find_record provisioning_id db'.provisioning ≡ some (removed_record env r) =
        rw records (
          find_record-save_record provisioning_id (removed_record env r) r db.provisioning found
            (find_record-id provisioning_id db.provisioning r found)) in
      rw (get_subject-kept s subjects subject, again) (removed-fails env later s r db db' id h)
