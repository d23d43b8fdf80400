-- ===== src/Pods/Enroll/Once.antt =====
-- An enrollment token works once.
use perimetr.Prelude.{◌≡◌, refl, true, false, some, arith, or_else}
use perimetr.Http.{done, is_done, committed}
use perimetr.Settings.{Env}
use perimetr.Database.{PodProvisioningRecord, Database, find_record}
use perimetr.Pods.Config.{is_empty_text}
use perimetr.Pods.Enroll.{EnrollReply, admit, enroll_pod}
use perimetr.Pods.Applicant.{EnrollRequest, enroll_source, provisioned_source, is_consumed}
use perimetr.Pods.Enroll.Admission.{enroll-IsAuthorized}

refused-source :
    (env : Env) (q : EnrollRequest) (db : Database) (r : PodProvisioningRecord)
    → is_empty_text q.provisioning_id ≡ false
    → find_record (or_else q.provisioning_id "") db.provisioning ≡ some r
    → is_consumed r.status ≡ true
    → (is_done (enroll_pod env q db) ≡ false) × (committed (enroll_pod env q db) ≡ db)
unfolding enroll_pod admit enroll_source provisioned_source
refused-source env q db r given found spent = ground arith

-- In the database that a successful enrollment by a provisioning record leaves, every enrollment that
-- names the same record is refused and changes nothing, whatever else it sends and at any time.
pub enroll_once :
    (env later : Env) (p q : EnrollRequest) (db db' : Database) (reply : EnrollReply)
    → is_empty_text p.provisioning_id ≡ false
    → q.provisioning_id ≡ p.provisioning_id
    → enroll_pod env p db ≡ done (db', reply)
    → (is_done (enroll_pod later q db') ≡ false) × (committed (enroll_pod later q db') ≡ db')
enroll_once env later p q db db' reply given same h =
    let (r, found, token, unspent, young, spent) = enroll-IsAuthorized env p db db' reply given h in
    refused-source later q db'
      (record r { status = "active"; activated_at = some env.now; enrollment_token_encrypted = "" })
      (rw same given) (rw same spent) refl
