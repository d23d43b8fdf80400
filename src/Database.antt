-- ===== src/Database.antt =====
-- app/models.py: the tables, as lists of rows in the order of their creation. Rows have the columns
-- that the modelled handlers read or write; `created_at` is the order of the list, and `updated_at`,
-- images, tags and policies are left out. Times are microseconds since the epoch, as `datetime` has
-- them.
pub mod Rows
use perimetr.Prelude.{
  ℕ, ◌+◌, String, Bool, true, false, Option, none, some, List, [], ◌∷◌, ◌++◌, ◌==◌, ◌&&◌, ◌||◌,
  if◌then◌else◌, any, find?,
}
use perimetr.Json.{Json, Fields, Number}

-- An entry of `system_tabs`, as `SystemTab` of app/schemas.py; the position is an integer.
pub record SystemTab : Type 0 where
  pub id : String
  pub title : String
  pub url : String
  pub required : Bool
  pub position : Number

pub record Subject : Type 0 where
  pub id : String
  pub entity_id : String
  pub name : String
  pub pod_id : Option String
  pub primary_route : Option String
  pub vless_uri_encrypted : String
  pub network_profile_version : ℕ
  pub system_tabs : List SystemTab
  pub system_tabs_profile_version : ℕ
  pub update_channel : String
  pub ui_policy : Fields
  pub security_policy : Fields

pub record Pod : Type 0 where
  pub id : String
  pub subject_id : String
  pub provisioning_id : Option String
  pub name : String
  pub login : String
  pub password_hash : String
  pub decoy_password_hash : String
  pub status : String
  pub host_id : String
  pub path : String
  pub launcher_path : String
  pub runtime_state : Fields
  pub last_materialized_at : Option ℕ
  pub public_key_pem : String
  pub identity_certificate : String
  pub certificate_fingerprint : String
  pub device_binding_fingerprint : String
  pub device_binding_status : String
  pub pod_version : String
  pub xray_version : String
  pub network_profile_version : ℕ
  pub system_tabs_profile_version : ℕ
  pub heartbeat_sequence : ℕ
  pub last_seen_at : Option ℕ
  pub last_heartbeat_at : Option ℕ
  pub activated_at : Option ℕ
  pub revoked_at : Option ℕ
  pub revoke_reason : String

pub record PodProvisioningRecord : Type 0 where
  pub id : String
  pub subject_id : String
  pub name : String
  pub login : String
  pub password_hash : String
  pub decoy_password_hash : String
  pub status : String
  pub enrollment_token_hash : String
  pub enrollment_token_encrypted : String
  pub bundle_version : String
  pub artifact_sha256 : String
  pub download_count : ℕ
  pub downloaded_at : Option ℕ
  pub expires_at : Option ℕ
  pub activated_at : Option ℕ
  pub revoked_at : Option ℕ
  pub metadata_json : Fields

pub record PodDenylist : Type 0 where
  pub pod_id : Option String
  pub subject_id : Option String
  pub identifier_type : String
  pub identifier_value : String
  pub reason : String

pub record LaunchAuthorization : Type 0 where
  pub id : String
  pub subject_id : String
  pub pod_id : String
  pub decision : String
  pub reason : String
  pub issued_at : Option ℕ
  pub expires_at : Option ℕ
  pub revoked_at : Option ℕ

pub record SessionLease : Type 0 where
  pub id : String
  pub subject_id : Option String
  pub pod_id : Option String
  pub status : String
  pub session_key_hash : String
  pub access_scope : String
  pub transport : Option String
  pub expires_at : Option ℕ
  pub ended_at : Option ℕ

pub record AuditEvent : Type 0 where
  pub id : String
  pub actor_type : String
  pub actor_id : String
  pub action : String
  pub target_type : String
  pub target_id : String
  pub payload : Json
  pub result : Json
  pub created_at : ℕ

-- `access_key_hash` is `system_settings["perimetr.preferences"]["auth"]["access_key_hash"]`.
pub record Database : Type 0 where
  pub subjects : List Subject
  pub pods : List Pod
  pub provisioning : List PodProvisioningRecord
  pub denylist : List PodDenylist
  pub authorizations : List LaunchAuthorization
  pub leases : List SessionLease
  pub audit_events : List AuditEvent
  pub access_key_hash : String

-- `db.get(Table, id)`.
unfoldable pub find_pod : String → List Pod → Option Pod
find_pod i [] = none
find_pod i (p ∷ ps) = if p.id == i then some p else find_pod i ps

unfoldable pub find_record : String → List PodProvisioningRecord → Option PodProvisioningRecord
find_record i [] = none
find_record i (r ∷ rs) = if r.id == i then some r else find_record i rs

unfoldable pub find_subject_row : String → List Subject → Option Subject
find_subject_row i [] = none
find_subject_row i (s ∷ ss) = if s.id == i then some s else find_subject_row i ss

unfoldable pub find_lease : String → List SessionLease → Option SessionLease
find_lease i [] = none
find_lease i (l ∷ ls) = if l.id == i then some l else find_lease i ls

-- The flush of a changed row: the row with its id is replaced.
unfoldable pub save_pod : Pod → List Pod → List Pod
save_pod p [] = []
save_pod p (q ∷ qs) = (if q.id == p.id then p else q) ∷ save_pod p qs

unfoldable pub save_record :
    PodProvisioningRecord → List PodProvisioningRecord → List PodProvisioningRecord
save_record r [] = []
save_record r (q ∷ qs) = (if q.id == r.id then r else q) ∷ save_record r qs

unfoldable pub save_subject : Subject → List Subject → List Subject
save_subject s [] = []
save_subject s (q ∷ qs) = (if q.id == s.id then s else q) ∷ save_subject s qs

unfoldable pub save_lease : SessionLease → List SessionLease → List SessionLease
save_lease l [] = []
save_lease l (q ∷ qs) = (if q.id == l.id then l else q) ∷ save_lease l qs

-- `db.scalar(select(PodDenylist).where(identifier_type == …, identifier_value == …))` finds a row.
unfoldable pub is_denied : String → String → List PodDenylist → Bool
is_denied kind value [] = false
is_denied kind value (d ∷ ds) =
    (d.identifier_type == kind && d.identifier_value == value) || is_denied kind value ds
