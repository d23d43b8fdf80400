-- ===== src/Database/Rows.antt =====
-- Rows that are read after they were saved.
use perimetr.Prelude.{
  String, ◌≡◌, refl, false, some, List, [], ◌∷◌, ◌++◌, ◌==◌, ◌||◌, arith, eq_iff,
}
use perimetr.Database.{
  Pod, PodProvisioningRecord, PodDenylist, SessionLease, find_pod, find_record, save_pod,
  save_record, is_denied, find_lease, save_lease,
}

pub find_pod-id : (i : String) (ps : List Pod) (p : Pod) → find_pod i ps ≡ some p → p.id ≡ i
unfolding find_pod
find_pod-id i [] p h = cc
find_pod-id i (q ∷ qs) p h = ground (arith, find_pod-id i qs p, eq_iff q.id i)

pub find_pod-save_pod :
    (i : String) (p q : Pod) (ps : List Pod)
    → find_pod i ps ≡ some q
    → p.id ≡ i
    → find_pod i (save_pod p ps) ≡ some p
unfolding find_pod save_pod
find_pod-save_pod i p q [] h e = cc
find_pod-save_pod i p q (r ∷ rs) h e =
    ground (arith, find_pod-save_pod i p q rs, eq_iff r.id i, eq_iff r.id p.id, eq_iff p.id i)

pub find_pod-save_pod_other :
    (i : String) (p : Pod) (ps : List Pod)
    → (p.id == i) ≡ false
    → find_pod i (save_pod p ps) ≡ find_pod i ps
unfolding find_pod save_pod
find_pod-save_pod_other i p [] h = refl
find_pod-save_pod_other i p (r ∷ rs) h =
    ground (arith, find_pod-save_pod_other i p rs, eq_iff r.id i, eq_iff r.id p.id, eq_iff p.id i)

pub find_pod-append :
    (i : String) (ps : List Pod) (p q : Pod)
    → find_pod i ps ≡ some q
    → find_pod i (ps ++ p ∷ []) ≡ some q
unfolding find_pod
find_pod-append i [] p q h = cc
find_pod-append i (r ∷ rs) p q h = ground (arith, find_pod-append i rs p q)

pub find_record-id :
    (i : String) (rs : List PodProvisioningRecord) (r : PodProvisioningRecord)
    → find_record i rs ≡ some r
    → r.id ≡ i
unfolding find_record
find_record-id i [] r h = cc
find_record-id i (q ∷ qs) r h = ground (arith, find_record-id i qs r, eq_iff q.id i)

pub find_record-save_record :
    (i : String) (r q : PodProvisioningRecord) (rs : List PodProvisioningRecord)
    → find_record i rs ≡ some q
    → r.id ≡ i
    → find_record i (save_record r rs) ≡ some r
unfolding find_record save_record
find_record-save_record i r q [] h e = cc
find_record-save_record i r q (s ∷ ss) h e =
    ground (arith, find_record-save_record i r q ss, eq_iff s.id i, eq_iff s.id r.id, eq_iff r.id i)

pub find_lease-id :
    (i : String) (ls : List SessionLease) (l : SessionLease) → find_lease i ls ≡ some l → l.id ≡ i
unfolding find_lease
find_lease-id i [] l h = cc
find_lease-id i (q ∷ qs) l h = ground (arith, find_lease-id i qs l, eq_iff q.id i)

pub find_lease-save_lease :
    (i : String) (l q : SessionLease) (ls : List SessionLease)
    → find_lease i ls ≡ some q
    → l.id ≡ i
    → find_lease i (save_lease l ls) ≡ some l
unfolding find_lease save_lease
find_lease-save_lease i l q [] h e = cc
find_lease-save_lease i l q (s ∷ ss) h e =
    ground (arith, find_lease-save_lease i l q ss, eq_iff s.id i, eq_iff s.id l.id, eq_iff l.id i)

pub is_denied-append :
    (kind value : String) (ds es : List PodDenylist)
    → is_denied kind value (ds ++ es) ≡ (is_denied kind value ds || is_denied kind value es)
unfolding is_denied
is_denied-append kind value [] es = refl
is_denied-append kind value (d ∷ ds) es = ground (arith, is_denied-append kind value ds es)
