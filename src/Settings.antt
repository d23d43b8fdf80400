-- ===== src/Settings.antt =====
-- app/settings.py: the settings that the modelled code reads, and what one request is given besides
-- its payload. A request reads the clock once here, and the n-th identifier or secret that it draws
-- from `secrets` or `uuid4` is `fresh n`.
use perimetr.Prelude.{ℕ, String}
use perimetr.Platform.{Platform}

pub record Settings : Type 0 where
  pub perimetr_public_url : String
  pub perimetr_session_ttl_sec : ℕ
  pub perimetr_audit_max_entries : ℕ
  pub perimetr_audit_max_bytes : ℕ
  pub perimetr_audit_retention_days : ℕ
  pub perimetr_pod_signing_secret : String
  pub perimetr_pod_version : String
  pub perimetr_pod_enrollment_ttl_sec : ℕ
  pub perimetr_pod_offline_after_sec : ℕ
  pub perimetr_pod_update_manifest_url : String
  -- the text of the file at `perimetr_pod_update_public_key_path`, empty if it cannot be read
  pub pod_update_public_key : String
  pub perimetr_xray_dns_url : String
  pub perimetr_proxy_verification_url : String
  pub perimetr_default_pod_url : String

pub record Env : Type 0 where
  pub settings : Settings
  pub platform : Platform
  pub now : ℕ
  pub fresh : ℕ → String

-- A second, in the unit of `now`.
abbrev pub second : ℕ
second = 1000000
