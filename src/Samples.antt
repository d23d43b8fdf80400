-- ===== src/Samples.antt =====
-- Concrete parameters for the tests: a platform whose functions are simple texts, and settings.
use Prim.Native.String
use perimetr.Prelude.{ℕ, ◌≡◌, refl, Bool, true, false, none, some, [], ◌∷◌, ◌==◌, nat_eq}
use perimetr.Http.{Outcome, done, deny, is_done}
use perimetr.Json.{end}
use perimetr.Artifacts.{Try, returns, error, crash}
use perimetr.Redaction.{Patterns}
use perimetr.Platform.{Platform, Url}
use perimetr.Settings.{Settings, Env}
use perimetr.Database.{Subject, Pod, PodProvisioningRecord, Database}

abbrev pub patterns : Patterns
patterns = record {
  sub_urls = λ f s. s;
  sub_keys = λ s. s;
  sub_inline = λ s. s;
  is_private = λ k. k == "token";
  urlsplit = λ s. none;
  urlunsplit = λ a b c d. a;
  json_bytes = λ v. 10;
}

-- Every text is read as one valid `vless` address.
abbrev pub url : Url
url = record {
  scheme = "vless";
  username = some "user";
  hostname = some "host";
  port = some 443;
  query = λ k. none;
}

-- Digests mark their text and the cipher keeps it; a signature is valid if it is "signed".
abbrev pub platform : Platform
platform = record {
  strip = λ s. s;
  lower = λ s. s;
  upper = λ s. s;
  is_space = λ c. nat_eq c 32;
  urlsplit = λ s. none;
  urlparse = λ s. url;
  is_vless_identity = λ s. true;
  sha256_hex = λ s. String.◌++◌ "h" s;
  hmac_hex = λ k s. String.◌++◌ k s;
  pbkdf2 = λ v salt n. String.◌++◌ v salt;
  b64_canonical = λ s. some s;
  parse_int = λ s. some 310000;
  fernet_encrypt = λ k s. s;
  fernet_decrypt = λ k s. some s;
  encode_json = λ v. "json";
  decode_json = λ s. none;
  p256_fingerprint = λ s. some s;
  is_public_key = λ s. true;
  verify_signature = λ k v s. s == "signed";
  fromisoformat = λ s. some 0;
  scrypt = λ v salt. String.◌++◌ v salt;
  byte_count = λ s. 16;
  column_bytes = λ v. 10;
  patterns = patterns;
}

abbrev pub settings : Settings
settings = record {
  perimetr_public_url = "https://p";
  perimetr_session_ttl_sec = 3600;
  perimetr_audit_max_entries = 2;
  perimetr_audit_max_bytes = 100000;
  perimetr_audit_retention_days = 30;
  perimetr_pod_signing_secret = "k";
  perimetr_pod_version = "0.1.3";
  perimetr_pod_enrollment_ttl_sec = 86400;
  perimetr_pod_offline_after_sec = 90;
  perimetr_pod_update_manifest_url = "";
  pod_update_public_key = "";
  perimetr_xray_dns_url = "";
  perimetr_proxy_verification_url = "";
  perimetr_default_pod_url = "about:blank";
}

-- A request at the given time; the identifiers and secrets that it draws are all "f".
abbrev pub env : ℕ → Env
env now = record { settings = settings; platform = platform; now = now; fresh = λ n. "f" }

-- The result of a request that is known to succeed.
abbrev pub result : {S A : Type 0} (o : Outcome S A) → is_done o ≡ true → A
result (done a) h = a
result (deny s code detail) h = absurd cc

pub result-eq : {S A : Type 0} (o : Outcome S A) (h : is_done o ≡ true) → o ≡ done (result o h)
result-eq (done a) h = refl
result-eq (deny s code detail) h = absurd cc

abbrev pub is_ok : {A : Type 0} → Try A → Bool
is_ok (returns a) = true
is_ok _ = false

-- The value of a result that is known to be one.
abbrev pub value : {A : Type 0} (m : Try A) → is_ok m ≡ true → A
value (returns a) h = a
value (error t) h = absurd cc
value (crash t) h = absurd cc

pub value-eq : {A : Type 0} (m : Try A) (h : is_ok m ≡ true) → m ≡ returns (value m h)
value-eq (returns a) h = refl
value-eq (error t) h = absurd cc
value-eq (crash t) h = absurd cc

-- A Subject, a provisioning record whose token is `token`, and a Pod with a key.
abbrev pub subject : Subject
subject = record {
  id = "s";
  entity_id = "e";
  name = "Subject";
  pod_id = none;
  primary_route = none;
  vless_uri_encrypted = "vless://u@h:443";
  network_profile_version = 1;
  system_tabs = [];
  system_tabs_profile_version = 1;
  update_channel = "stable";
  ui_policy = end;
  security_policy = end;
}

abbrev pub record_of : PodProvisioningRecord
record_of = record {
  id = "r";
  subject_id = "s";
  name = "user";
  login = "user";
  password_hash = "pbkdf2_sha256$310000$f$passwordf";
  decoy_password_hash = "";
  status = "downloaded";
  enrollment_token_hash = "htoken";
  enrollment_token_encrypted = "token";
  bundle_version = "0.1.3";
  artifact_sha256 = "";
  download_count = 1;
  downloaded_at = some 5;
  expires_at = some 1000;
  activated_at = none;
  revoked_at = none;
  metadata_json = end;
}

abbrev pub start : Database
start = record {
  subjects = subject ∷ [];
  pods = [];
  provisioning = record_of ∷ [];
  denylist = [];
  authorizations = [];
  leases = [];
  audit_events = [];
  access_key_hash = "";
}

abbrev pub pod : Pod
pod = record {
  id = "p";
  subject_id = "s";
  provisioning_id = none;
  name = "pod";
  login = "user";
  password_hash = "";
  decoy_password_hash = "";
  status = "active";
  host_id = "host";
  path = "";
  launcher_path = "";
  runtime_state = end;
  last_materialized_at = none;
  public_key_pem = "key";
  identity_certificate = "";
  certificate_fingerprint = "key";
  device_binding_fingerprint = "device";
  device_binding_status = "bound";
  pod_version = "0.1.3";
  xray_version = "";
  network_profile_version = 1;
  system_tabs_profile_version = 1;
  heartbeat_sequence = 4;
  last_seen_at = none;
  last_heartbeat_at = none;
  activated_at = none;
  revoked_at = none;
  revoke_reason = "";
}

-- The same installation with that Pod.
abbrev pub running : Database
running = record start { pods = pod ∷ [] }
