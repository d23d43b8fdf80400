-- ===== src/Pods/Removal/SharedDevice.antt =====
-- A Subject with two Pods on one device cannot be deleted: the deny list would hold the device twice.
use perimetr.Prelude.{
  ℕ, String, ◌≡◌, true, false, some, ◌==◌, ◌&&◌, if◌then◌else◌, List, [], ◌∷◌, ◌++◌, arith, eq_self,
  eq_iff, suc, ◌+◌, ◌≤◌, eq_of_test,
}
use perimetr.Http.{done, deny}
use perimetr.Settings.{Env}
use perimetr.Database.{Subject, Pod, PodDenylist, Database, is_denied}
use perimetr.Pods.Manage.{deny_identifier, deny_pod}
use perimetr.Pods.Removal.{get_subject, has_conflict, deny_pods, delete_subject, without_subject}

-- How many rows deny a value, and how many Pods of a Subject have a device.
unfoldable pub denials : String → String → List PodDenylist → ℕ
denials kind value [] = 0
denials kind value (d ∷ ds) =
    if d.identifier_type == kind && d.identifier_value == value
    then suc (denials kind value ds)
    else denials kind value ds

unfoldable pub sharing : String → String → List Pod → ℕ
sharing subject_id device [] = 0
sharing subject_id device (p ∷ ps) =
    if p.subject_id == subject_id && p.device_binding_fingerprint == device
    then suc (sharing subject_id device ps)
    else sharing subject_id device ps

denials-denied :
    (kind value : String) (ds : List PodDenylist)
    → 1 ≤ denials kind value ds
    → is_denied kind value ds ≡ true
unfolding denials is_denied
denials-denied kind value [] h = absurd (omega arith)
denials-denied kind value (d ∷ ds) h = ground (arith, denials-denied kind value ds)

conflict_of_two :
    (kind value : String) (ds : List PodDenylist)
    → 2 ≤ denials kind value ds
    → has_conflict ds ≡ true
unfolding denials has_conflict
conflict_of_two kind value [] h = absurd (omega arith)
conflict_of_two kind value (d ∷ ds) h = ground (
  arith,
  conflict_of_two kind value ds,
  denials-denied kind value ds,
  eq_iff d.identifier_type kind,
  eq_iff d.identifier_value value,
)

denials-append :
    (kind value : String) (ds es : List PodDenylist)
    → denials kind value (ds ++ es) ≡ denials kind value ds + denials kind value es
unfolding denials
denials-append kind value [] es = omega arith
denials-append kind value (d ∷ ds) es = ground (arith, denials-append kind value ds es)

module _ (stored : List PodDenylist) (reason device : String) where
  denials-deny_identifier :
      (p : Pod) (kind value : String) (ds : List PodDenylist)
      → denials "device_binding_fingerprint" device ds
        ≤ denials "device_binding_fingerprint" device
            (deny_identifier stored p reason kind value ds)
  unfolding deny_identifier
  denials-deny_identifier p kind value ds = ground (
    arith,
    denials-append "device_binding_fingerprint" device ds (
        record {
          pod_id = some p.id;
          subject_id = some p.subject_id;
          identifier_type = kind;
          identifier_value = value;
          reason = reason;
        }
        ∷ []),
  )

  module _ (named : (device == "") ≡ false)
      (new : is_denied "device_binding_fingerprint" device stored ≡ false) where
    denials-deny_device :
        (p : Pod) (ds : List PodDenylist)
        → (p.device_binding_fingerprint == device) ≡ true
        → suc (denials "device_binding_fingerprint" device ds)
          ≤ denials "device_binding_fingerprint" device (
              deny_identifier stored p reason "device_binding_fingerprint"
                p.device_binding_fingerprint ds)
    unfolding deny_identifier denials
    denials-deny_device p ds e = rw (eq_of_test p.device_binding_fingerprint device e) (
        ground (
          arith,
          eq_self device,
          denials-append "device_binding_fingerprint" device ds (
              record {
                pod_id = some p.id;
                subject_id = some p.subject_id;
                identifier_type = "device_binding_fingerprint";
                identifier_value = device;
                reason = reason;
              }
              ∷ []),
        ))

    denials-deny_pod :
        (p : Pod) (ds : List PodDenylist)
        → (p.device_binding_fingerprint == device) ≡ true
        → suc (denials "device_binding_fingerprint" device ds)
          ≤ denials "device_binding_fingerprint" device (deny_pod stored p reason ds)
    unfolding deny_pod
    denials-deny_pod p ds e =
        let first = deny_identifier stored p reason "pod_id" p.id ds in
        let second =
          deny_identifier stored p reason "certificate_fingerprint" p.certificate_fingerprint
            first in
        omega (
          arith,
          denials-deny_identifier p "pod_id" p.id ds,
          denials-deny_identifier p "certificate_fingerprint" p.certificate_fingerprint first,
          denials-deny_device p second e,
        )

  denials-deny_pod_any :
      (p : Pod) (ds : List PodDenylist)
      → denials "device_binding_fingerprint" device ds
        ≤ denials "device_binding_fingerprint" device (deny_pod stored p reason ds)
  unfolding deny_pod
  denials-deny_pod_any p ds =
      let first = deny_identifier stored p reason "pod_id" p.id ds in
      let second =
        deny_identifier stored p reason "certificate_fingerprint" p.certificate_fingerprint first in
      omega (
        arith,
        denials-deny_identifier p "pod_id" p.id ds,
        denials-deny_identifier p "certificate_fingerprint" p.certificate_fingerprint first,
        denials-deny_identifier p "device_binding_fingerprint" p.device_binding_fingerprint second,
      )

denials-deny_pods :
    (stored : List PodDenylist) (subject_id device : String) (ps : List Pod) (ds : List PodDenylist)
    → (device == "") ≡ false
    → is_denied "device_binding_fingerprint" device stored ≡ false
    → denials "device_binding_fingerprint" device ds + sharing subject_id device ps
      ≤ denials "device_binding_fingerprint" device (deny_pods stored subject_id ps ds)
unfolding deny_pods sharing
denials-deny_pods stored subject_id device [] ds named new = omega arith
denials-deny_pods stored subject_id device (p ∷ ps) ds named new =
    let next = deny_pod stored p "subject_deleted" ds in
    ground (
      arith,
      denials-deny_pods stored subject_id device ps next named new,
      denials-deny_pods stored subject_id device ps ds named new,
      denials-deny_pod stored "subject_deleted" device named new p ds,
      denials-deny_pod_any stored "subject_deleted" device p ds,
    )

-- A Subject of which two Pods have the same device binding, which is not denied yet, cannot be
-- deleted: the request ends in the unhandled error of the unique constraint, and changes nothing.
pub delete_subject_shared_device :
    (env : Env) (i device : String) (s : Subject) (db : Database)
    → get_subject i db ≡ done s
    → (device == "") ≡ false
    → is_denied "device_binding_fingerprint" device db.denylist ≡ false
    → 2 ≤ sharing s.id device db.pods
    → delete_subject env i db ≡ deny db 500 "IntegrityError"
unfolding delete_subject without_subject
delete_subject_shared_device env i device s db found named new two =
    let twice =
      conflict_of_two "device_binding_fingerprint" device
        (deny_pods db.denylist s.id db.pods db.denylist)
        (omega (arith, denials-deny_pods db.denylist s.id device db.pods db.denylist named new)) in
    ground arith
