-- ===== src/Kernel.antt =====
-- app/kernel_register.py: the Register of the Kernel, whose values are a part of the settings. The
-- Kernel's replies and the file of the last snapshot are parameters and state.
pub mod References
pub mod Snapshot
pub mod Values
pub mod Apply
pub mod Connection
pub mod Current
mod Tests
use perimetr.Prelude.{ℕ, String, Option}
use perimetr.Json.{Json, Fields, Number}
use perimetr.Artifacts.{Address, Runtime}

-- What is taken from Python's library besides what app/pod_artifacts.py takes.
pub record Register : Type 0 where
  pub runtime : Runtime
  -- `"sha256:" + sha256(_canonical_json({"values": values})).hexdigest()`
  pub checksum : Fields → String
  -- `int(text)`, or `ValueError`, and `int` of a float
  pub parse_int : String → Option Number
  pub truncate : String → Number
  -- `str(number)`
  pub decimal : ℕ → String

-- The settings that the Register gives, `_register_fields` of app/settings.py.
pub record RegisterSettings : Type 0 where
  pub perimetr_repository_url : String
  pub perimetr_pod_repository_url : String
  pub perimetr_pod_update_manifest_url : String
  pub perimetr_sni : String
  pub perimetr_service_port : ℕ
  pub perimetr_public_url : String
  pub kernel_refresh_sec : ℕ
  pub kernel_register_revision : String
