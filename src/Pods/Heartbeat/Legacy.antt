-- ===== src/Pods/Heartbeat/Legacy.antt =====
-- A Pod without a key, which reports without a signature, also after its revocation.
use perimetr.Prelude.{String, ◌≡◌, refl, true, false, some, ◌==◌, arith, inl, sym, subst, ap, ◌∙◌}
use perimetr.Http.{done, deny, refuse_if, >>=-eq-done, done-injective}
use perimetr.Settings.{Env}
use perimetr.Database.{Pod, Database, find_pod, is_denied}
use perimetr.Database.Rows.{find_pod-save_pod, find_pod-id}
use perimetr.Pods.Access.{verify_pod_access}
use perimetr.Pods.Heartbeat.{
  HeartbeatPayload, HeartbeatReply, LegacyHeartbeat, is_wide_status, reported_row, legacy_heartbeat,
  heartbeat_pod,
}
use perimetr.Pods.Manage.{revoked_row, revoke_pod}
use perimetr.Pods.Manage.Lockout.{revoke-found, identifier_denied}

legacy-eq :
    (env : Env) (i : String) (payload : HeartbeatPayload) (l : LegacyHeartbeat) (db : Database)
    (pod : Pod)
    → find_pod i db.pods ≡ some pod
    → (pod.public_key_pem == "") ≡ true
    → payload.legacy ≡ some l
    → heartbeat_pod env i payload db ≡ legacy_heartbeat env pod l db
unfolding heartbeat_pod
legacy-eq env i payload l db pod found keyless read = ground arith

-- What an unsigned heartbeat that is accepted leaves.
legacy-done :
    (env : Env) (i : String) (l : LegacyHeartbeat) (db db' : Database) (pod : Pod)
    (reply : HeartbeatReply)
    → find_pod i db.pods ≡ some pod
    → legacy_heartbeat env pod l db ≡ done (db', reply)
    → (row : Pod) × (find_pod i db'.pods ≡ some row)
      × (row.status ≡ l.status)
      × (row.id ≡ pod.id)
      × (db'.denylist ≡ db.denylist)
unfolding legacy_heartbeat
legacy-done env i l db db' pod reply found e =
    let (_, _, e') = >>=-eq-done (refuse_if (is_wide_status l.status) db 500 "DataError") _ e in
    let same = ap (λ r. r.0) (done-injective e') in
    (
      reported_row pod l,
      subst (λ d. find_pod i (Database.pods d) ≡ some (reported_row pod l)) same
          (find_pod-save_pod i (reported_row pod l) pod db.pods found
            (find_pod-id i db.pods pod found)),
      refl,
      refl,
      sym (ap Database.denylist same),
    )

verify-denied :
    (env : Env) (i username password : String) (db : Database) (pod : Pod)
    → find_pod i db.pods ≡ some pod
    → is_denied "pod_id" pod.id db.denylist ≡ true
    → verify_pod_access env i username password db ≡ deny db 403 "pod_revoked"
unfolding verify_pod_access
verify-denied env i username password db pod found denied =
    rw (found, verify_pod_access) (ground arith)

-- After the revocation of a Pod in use that has no public key, an unsigned heartbeat for it that is
-- accepted sets the status of the revoked row to what it says; the login of the Pod's user is refused
-- all the same, by the deny list.
pub revoke-overwritten :
    (env : Env) (i : String) (db db' : Database) (pod : Pod)
    → find_pod i db.pods ≡ some pod
    → (i == "") ≡ false
    → (pod.status == "revoked") ≡ false
    → revoke_pod env i db ≡ done (db', "revoked")
    → (later after : Env) (payload : HeartbeatPayload) (l : LegacyHeartbeat) (db'' : Database)
      (reply : HeartbeatReply) (username password : String)
    → (pod.public_key_pem == "") ≡ true
    → payload.legacy ≡ some l
    → heartbeat_pod later i payload db' ≡ done (db'', reply)
    → ((row : Pod) × (find_pod i db''.pods ≡ some row) × (row.status ≡ l.status))
      × (verify_pod_access after i username password db'' ≡ deny db'' 403 "pod_revoked")
revoke-overwritten env i db db' pod found named live revoked later after payload l db'' reply
      username password keyless read e =
    let there = revoke-found env i db db' pod found named live revoked in
    let read_as = legacy-eq later i payload l db' (revoked_row env pod) there keyless read in
    let (row, at, status, id, kept) =
      legacy-done later i l db' db'' (revoked_row env pod) reply there (sym read_as ∙ e) in
    let name : pod.id ≡ i = find_pod-id i db.pods pod found in
    let denied =
      identifier_denied env i db db' pod found named live revoked "pod_id" pod.id (inl (refl, refl))
        (rw name named) in
    ((row, at, status), verify-denied after i username password db'' row at (rw (id, kept) denied))
