-- ===== src/Pods/Manage/Denial.antt =====
-- The rows that `deny_pod` adds to the deny list, and those that stay on it.
use perimetr.Prelude.{
  String, ◌≡◌, true, false, some, ◌==◌, arith, eq_self, ◌⊎◌, List, [], ◌∷◌, inl, inr, Bool-cases,
}
use perimetr.Database.{Pod, PodDenylist, is_denied}
use perimetr.Database.Rows.{is_denied-append}
use perimetr.Pods.Manage.{deny_identifier, deny_pod}

module _ (stored : List PodDenylist) (pod : Pod) (reason : String) where
  -- Denying one identifier takes no other one off the list.
  denied-keeps :
      (kind value k v : String) (ds : List PodDenylist)
      → is_denied k v ds ≡ true
      → is_denied k v (deny_identifier stored pod reason kind value ds) ≡ true
  unfolding deny_identifier
  denied-keeps kind value k v ds h = ground (
    arith,
    is_denied-append k v ds (
        record {
          pod_id = some pod.id;
          subject_id = some pod.subject_id;
          identifier_type = kind;
          identifier_value = value;
          reason = reason;
        }
        ∷ []),
  )

  denied_self :
      (kind value : String) (ds : List PodDenylist)
      → (value == "") ≡ false
      → (is_denied kind value stored ≡ true → is_denied kind value ds ≡ true)
      → is_denied kind value (deny_identifier stored pod reason kind value ds) ≡ true
  unfolding deny_identifier is_denied
  denied_self kind value ds named kept = elim (Bool-cases (is_denied kind value stored)) [
    | inl e ↦ ground arith
    | inr e ↦ ground (
      arith,
      eq_self kind,
      eq_self value,
      is_denied-append kind value ds (
          record {
            pod_id = some pod.id;
            subject_id = some pod.subject_id;
            identifier_type = kind;
            identifier_value = value;
            reason = reason;
          }
          ∷ []),
    )
  ]

  pub deny_pod-keeps :
      (k v : String) (ds : List PodDenylist)
      → is_denied k v ds ≡ true
      → is_denied k v (deny_pod stored pod reason ds) ≡ true
  unfolding deny_pod
  deny_pod-keeps k v ds h =
      denied-keeps "device_binding_fingerprint" pod.device_binding_fingerprint k v _ (
        denied-keeps "certificate_fingerprint" pod.certificate_fingerprint k v _
          (denied-keeps "pod_id" pod.id k v ds h))

  -- All three identifiers are denied, an empty one excepted.
  pub deny_pod-denies :
      (ds : List PodDenylist) (kind value : String)
      → ((k v : String) → is_denied k v stored ≡ true → is_denied k v ds ≡ true)
      → ((kind ≡ "pod_id") × (value ≡ pod.id))
        ⊎ (((kind ≡ "certificate_fingerprint") × (value ≡ pod.certificate_fingerprint))
            ⊎ ((kind ≡ "device_binding_fingerprint") × (value ≡ pod.device_binding_fingerprint)))
      → (value == "") ≡ false
      → is_denied kind value (deny_pod stored pod reason ds) ≡ true
  unfolding deny_pod
  deny_pod-denies ds kind value sub which named =
      let first = deny_identifier stored pod reason "pod_id" pod.id ds in
      let second =
        deny_identifier stored pod reason "certificate_fingerprint" pod.certificate_fingerprint
          first in
      let keep_first = λ (k v : String) (h : is_denied k v stored ≡ true).
        denied-keeps "pod_id" pod.id k v ds (sub k v h) in
      let keep_second = λ (k v : String) (h : is_denied k v stored ≡ true).
        denied-keeps "certificate_fingerprint" pod.certificate_fingerprint k v first
          (keep_first k v h) in
      elim which [
        | inl (k, v) ↦
            rw (k, v)
              (denied-keeps "device_binding_fingerprint" pod.device_binding_fingerprint "pod_id"
                pod.id second
                (denied-keeps "certificate_fingerprint" pod.certificate_fingerprint "pod_id" pod.id
                  first (denied_self "pod_id" pod.id ds (rw v at named) (sub "pod_id" pod.id))))
        | inr (inl (k, v)) ↦
            rw (k, v)
              (denied-keeps "device_binding_fingerprint" pod.device_binding_fingerprint
                "certificate_fingerprint" pod.certificate_fingerprint second
                (denied_self "certificate_fingerprint" pod.certificate_fingerprint first
                  (rw v at named)
                  (keep_first "certificate_fingerprint" pod.certificate_fingerprint)))
        | inr (inr (k, v)) ↦
            rw (k, v)
              (denied_self "device_binding_fingerprint" pod.device_binding_fingerprint second
                (rw v at named)
                (keep_second "device_binding_fingerprint" pod.device_binding_fingerprint))
      ]
