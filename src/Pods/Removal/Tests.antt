-- ===== src/Pods/Removal/Tests.antt =====
-- Removals of a record and of a Subject.
use perimetr.Prelude.{
  String, ◌≡◌, refl, true, [], ◌∷◌, ◌==◌, ◌!=◌, ◌&&◌, ◌||◌, not, keep, arith, All,
}
use perimetr.Http.{Outcome, deny, is_done}
use perimetr.Database.{Database, is_denied}
use perimetr.Samples.{env, result, result-eq, subject, start, pod, running}
use perimetr.Pods.Removal.{
  get_subject, delete_subject, delete_pending_pod, is_subject, is_one_of, pod_ids_of,
}
use perimetr.Pods.Removal.Conflicts.{delete_pending_twice}
use perimetr.Pods.Removal.SharedDevice.{delete_subject_shared_device}
use perimetr.Pods.Removal.Cascade.{delete_subject-IsComplete}

abbrev removal : Outcome Database (Database × String)
removal = delete_pending_pod (env 10) "s" "r" start

removal_done : is_done removal ≡ true
unfolding delete_pending_pod
removal_done = refl

delete_pending_twice_example :
    delete_pending_pod (env 20) "s" "r" (result removal removal_done).0
    ≡ deny (result removal removal_done).0 500 "IntegrityError"
delete_pending_twice_example =
    delete_pending_twice (env 10) "s" "r" start (result removal removal_done).0
      (result removal removal_done).1 (result-eq removal removal_done) (env 20)

-- Two Pods on one device.
abbrev shared : Database
shared = record start {
  pods = pod ∷ record pod { id = "q"; certificate_fingerprint = "other" } ∷ [];
}

delete_subject_shared_device_example :
    delete_subject (env 10) "s" shared ≡ deny shared 500 "IntegrityError"
unfolding get_subject is_denied perimetr.Pods.Removal.SharedDevice.sharing
delete_subject_shared_device_example =
    delete_subject_shared_device (env 10) "s" "device" subject shared refl refl refl (omega arith)

abbrev deletion : Outcome Database (Database × String)
deletion = delete_subject (env 10) "s" running

deletion_done : is_done deletion ≡ true
unfolding delete_subject
deletion_done = refl

delete_subject-IsComplete_example :
    All (λ q. (q.subject_id != "s") ≡ true) (result deletion deletion_done).0.pods
    × All (λ r. (r.subject_id != "s") ≡ true) (result deletion deletion_done).0.provisioning
    × All (λ a. (a.subject_id != "s") ≡ true) (result deletion deletion_done).0.authorizations
    × All (λ t. (t.id != "s") ≡ true) (result deletion deletion_done).0.subjects
    × All
        (λ l.
          not (is_subject "s" l.subject_id || is_one_of (pod_ids_of "s" running.pods) l.pod_id)
          ≡ true)
        (result deletion deletion_done).0.leases
    × All
        (λ p. is_denied "pod_id" p.id (result deletion deletion_done).0.denylist ≡ true)
        (keep (λ p. p.subject_id == "s" && p.id != "") running.pods)
unfolding get_subject
delete_subject-IsComplete_example =
    delete_subject-IsComplete (env 10) "s" subject running (result deletion deletion_done).0
      (result deletion deletion_done).1 refl (result-eq deletion deletion_done)
