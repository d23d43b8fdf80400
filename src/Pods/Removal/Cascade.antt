-- ===== src/Pods/Removal/Cascade.antt =====
-- What the deletion of a Subject leaves, and what it takes.
use perimetr.Prelude.{
  String, ◌≡◌, refl, true, false, ◌==◌, ◌!=◌, ◌&&◌, ◌||◌, not, Bool, List, [], ◌∷◌, arith, inl, inr,
  ◌⊎◌, Bool-cases, All, All-keep_self, keep,
}
use perimetr.Http.{done}
use perimetr.Settings.{Env}
use perimetr.Database.{Subject, Pod, PodDenylist, Database, is_denied}
use perimetr.Pods.Manage.{deny_pod}
use perimetr.Pods.Manage.Denial.{deny_pod-keeps, deny_pod-denies}
use perimetr.Pods.Removal.{
  get_subject, delete_subject, without_subject, deny_pods, is_subject, is_one_of, pod_ids_of,
}

deny_pods-keeps :
    (stored : List PodDenylist) (i kind value : String) (ps : List Pod) (ds : List PodDenylist)
    → is_denied kind value ds ≡ true
    → is_denied kind value (deny_pods stored i ps ds) ≡ true
unfolding deny_pods deny_pod
deny_pods-keeps stored i kind value [] ds h = h
deny_pods-keeps stored i kind value (p ∷ ps) ds h = elim (Bool-cases (p.subject_id == i)) [
  | inl e ↦ rw e (
      deny_pods-keeps stored i kind value ps (deny_pod stored p "subject_deleted" ds)
        (deny_pod-keeps stored p "subject_deleted" kind value ds h))
  | inr e ↦ rw e (deny_pods-keeps stored i kind value ps ds h)
]

deleted :
    (env : Env) (i : String) (s : Subject) (db db' : Database) (id : String)
    → get_subject i db ≡ done s
    → delete_subject env i db ≡ done (db', id)
    → (db'.pods ≡ keep (λ p. p.subject_id != s.id) db.pods)
      × (db'.provisioning ≡ keep (λ r. r.subject_id != s.id) db.provisioning)
      × (db'.authorizations ≡ keep (λ a. a.subject_id != s.id) db.authorizations)
      × (db'.subjects ≡ keep (λ t. t.id != s.id) db.subjects)
      × (db'.leases
          ≡ keep
              (λ l.
                not (is_subject s.id l.subject_id || is_one_of (pod_ids_of s.id db.pods) l.pod_id))
              db.leases)
      × (db'.denylist ≡ deny_pods db.denylist s.id db.pods db.denylist)
unfolding delete_subject without_subject
deleted env i s db db' id found h = ground arith

-- A Pod stands in a table.
abbrev pub Within : Pod → List Pod → Type 0
Within p [] = ⊥
Within p (q ∷ qs) = (p ≡ q) ⊎ Within p qs

module _ (stored : List PodDenylist) (i : String) (p : Pod) (own : (p.subject_id == i) ≡ true)
    (named : (p.id == "") ≡ false) where
  deny_pods-denies :
      (ps : List Pod) (ds : List PodDenylist)
      → Within p ps
      → ((k v : String) → is_denied k v stored ≡ true → is_denied k v ds ≡ true)
      → is_denied "pod_id" p.id (deny_pods stored i ps ds) ≡ true
  unfolding deny_pods
  deny_pods-denies [] ds w sub = absurd w
  deny_pods-denies (q ∷ qs) ds (inl e) sub =
      let here =
        deny_pod-denies stored p "subject_deleted" ds "pod_id" p.id sub (inl (refl, refl)) named in
      rw (← e, own) (deny_pods-keeps stored i "pod_id" p.id qs _ here)
  deny_pods-denies (q ∷ qs) ds (inr w) sub = elim (Bool-cases (q.subject_id == i)) [
    | inl e ↦ rw e (
        deny_pods-denies qs (deny_pod stored q "subject_deleted" ds) w
          λ k v h. deny_pod-keeps stored q "subject_deleted" k v ds (sub k v h))
    | inr e ↦ rw e (deny_pods-denies qs ds w sub)
  ]

-- What holds of every row that passes a test holds of the rows that the test keeps.
All-keep-Within :
    (test : Pod → Bool) (Q : Pod → Type 0) (ps : List Pod)
    → ((p : Pod) → Within p ps → test p ≡ true → Q p)
    → All Q (keep test ps)
All-keep-Within test Q [] h = tt
All-keep-Within test Q (p ∷ ps) h = elim (Bool-cases (test p)) [
  | inl e ↦ rw e (h p (inl refl) e, All-keep-Within test Q ps (λ q w. h q (inr w)))
  | inr e ↦ rw e (All-keep-Within test Q ps (λ q w. h q (inr w)))
]

-- After the deletion of a Subject no Pod, provisioning record, authorization, session or row of it is
-- left, nor a session of one of its Pods, and the identifier of each of its Pods that is not empty is
-- denied, also where it had no Pod at all.
pub delete_subject-IsComplete :
    (env : Env) (i : String) (s : Subject) (db db' : Database) (id : String)
    → get_subject i db ≡ done s
    → delete_subject env i db ≡ done (db', id)
    → All (λ q. (q.subject_id != s.id) ≡ true) db'.pods
      × All (λ r. (r.subject_id != s.id) ≡ true) db'.provisioning
      × All (λ a. (a.subject_id != s.id) ≡ true) db'.authorizations
      × All (λ t. (t.id != s.id) ≡ true) db'.subjects
      × All
          (λ l.
            not (is_subject s.id l.subject_id || is_one_of (pod_ids_of s.id db.pods) l.pod_id)
            ≡ true)
          db'.leases
      × All
          (λ p. is_denied "pod_id" p.id db'.denylist ≡ true)
          (keep (λ p. p.subject_id == s.id && p.id != "") db.pods)
delete_subject-IsComplete env i s db db' id found h =
    let (pods, records, grants, subjects, leases, denied) = deleted env i s db db' id found h in
    (
      rw pods (All-keep_self _ db.pods),
      rw records (All-keep_self _ db.provisioning),
      rw grants (All-keep_self _ db.authorizations),
      rw subjects (All-keep_self _ db.subjects),
      rw leases (All-keep_self _ db.leases),
      rw denied (
          All-keep-Within (λ p. p.subject_id == s.id && p.id != "") _ db.pods
            λ p within own.
              deny_pods-denies db.denylist s.id p (ground arith) (ground arith) db.pods db.denylist
                within (λ k v q. q)),
    )
