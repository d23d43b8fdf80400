-- ===== src/Kernel/Tests.antt =====
-- A Register that is loaded from the Kernel and applied.
use perimetr.Prelude.{
  ℕ, ◌≤◌, String, ◌≡◌, ◌≢◌, refl, Bool, true, false, Option, none, some, List, [], ◌∷◌, ◌==◌, ◌⊎◌,
  All, inl, inr,
}
use perimetr.Json.{Json, Fields, pos, str, obj, end, field, get_field}
use perimetr.Samples
use perimetr.Samples.{is_ok, value, value-eq}
use perimetr.Artifacts.{Try, returns, Address, no_file, Runtime, Reply, replied}
use perimetr.Kernel.{Register, RegisterSettings}
use perimetr.Kernel.Connection.{Link, Surroundings, token_payload, rotate}
use perimetr.Kernel.Connection.Rotation.{rotate-IsChecked}
use perimetr.RateLimiter.{check}
use perimetr.Security.{verify_password}
use perimetr.Settings.{Env}
use perimetr.Http.{Outcome, is_done}
use perimetr.Samples.{result, result-eq}
use perimetr.Prelude.{◌==◌, if◌then◌else◌, false}
use perimetr.Kernel.References.{is_volt_reference, is_revision}
use perimetr.Kernel.Snapshot.{verify_snapshot, load_snapshot}
use perimetr.Kernel.Snapshot.Verified.{load_snapshot-IsVerified}
use perimetr.Kernel.Values.{parts, resolve, replace_resolved}
use perimetr.Kernel.Values.Replaced.{ArePairwiseApart, IsApart, resolve-replace_resolved}
use perimetr.Kernel.Apply.{apply_register, public_url}
use perimetr.Kernel.Apply.Bounds.{apply_register-bounds}

abbrev address : Address
address = record { scheme = "https"; hostname = some "host"; path = ""; query = ""; fragment = "" }

abbrev runtime : Runtime
runtime = record {
  platform = Samples.platform;
  show = λ v. "value";
  float_is = λ s n. false;
  urlparse = λ s. some address;
  digest = λ s. s;
  verify = λ key m signature. true;
  trusted_key = no_file;
  bundle = none;
  now = 100;
  now_iso = "now";
  perimetr_version = "1.0.0";
  perimetr_pod_version = "1.0.0";
  perimetr_pod_repository_url = "";
  perimetr_pod_refresh_sec = 60;
  perimetr_pod_max_artifact_bytes = 1000;
}

abbrev register : Register
register = record {
  runtime = runtime;
  checksum = λ values. "sha256:0";
  parse_int = λ s. some (pos 8443);
  truncate = λ s. pos 0;
  decimal = λ n. "8443";
}

abbrev reference : String
reference = "volt://00000000-0000-4000-8000-000000000000/1"

reference_valid : is_volt_reference reference ≡ true
unfolding is_volt_reference
reference_valid = refl

revision_invalid : is_revision "register-" ≡ false
unfolding is_revision
revision_invalid = refl

abbrev group : String → Json → Json
group name v = obj (field name v end)

abbrev values : Fields
values =
    field "repositories"
      (obj (
        field "perimetr" (group "url" (str reference))
          (field "pod" (group "url" (str reference)) end)))
      (field "services"
        (group "perimetr" (obj (field "sni" (str reference) (field "port" (str reference) end))))
        (field "intervals" (group "kernel" (group "refresh_sec" (str reference))) end))

abbrev items : List (String × String)
items =
    ("repositories.perimetr.url", "https://host/a")
    ∷ (("repositories.pod.url", "https://host/b")
        ∷ (("services.perimetr.sni", "host")
            ∷ (("services.perimetr.port", "8443") ∷ (("intervals.kernel.refresh_sec", "60") ∷ []))))

abbrev item : String → Json
item v = group "value" (str v)

abbrev resolution : Fields
resolution = field "schema" (str "exocortex.register.resolution.v1") (
    field "values"
      (obj (
        field "repositories.perimetr.url" (item "https://host/a") (
          field "repositories.pod.url" (item "https://host/b") (
            field "services.perimetr.sni" (item "host") (
              field "services.perimetr.port" (item "8443")
                (field "intervals.kernel.refresh_sec" (item "60") end))))))
      end)

abbrev rest_of : Fields
rest_of =
    field "revision" (str "register-1")
      (field "values" (obj values) (field "checksum" (str "sha256:0") end))

abbrev snapshot : Fields
snapshot = field "schema" (str "exocortex.register.snapshot.v1") rest_of

abbrev before : RegisterSettings
before = record {
  perimetr_repository_url = "";
  perimetr_pod_repository_url = "";
  perimetr_pod_update_manifest_url = "";
  perimetr_sni = "localhost";
  perimetr_service_port = 18080;
  perimetr_public_url = "http://localhost:18080";
  kernel_refresh_sec = 60;
  kernel_register_revision = "";
}

abbrev network : String → String → Reply
network url etag = replied 500 (some (obj snapshot)) ""

load_snapshot-IsVerified_example :
    (verify_snapshot register snapshot ≡ returns snapshot)
    × ((some (obj snapshot) ≡ none) ⊎ (some (obj snapshot) ≡ some (obj snapshot)))
unfolding load_snapshot
load_snapshot-IsVerified_example =
    load_snapshot-IsVerified register network "https://kernel/" "token" false true none
      (some (obj snapshot)) snapshot (cc) (cc) refl

abbrev applied : Try RegisterSettings
applied = apply_register register (replied 500 (some (obj resolution)) "") snapshot before

applied_ok : is_ok applied ≡ true
unfolding apply_register
applied_ok = refl

abbrev after : RegisterSettings
after = value applied applied_ok

after_url : after.perimetr_public_url ≡ "https://host:8443"
unfolding apply_register
after_url = refl

apply_register-bounds_example :
    (1 ≤ after.perimetr_service_port)
    × (after.perimetr_service_port ≤ 65535)
    × (after.perimetr_public_url
        ≡ public_url register after.perimetr_sni after.perimetr_service_port)
    × ((after.kernel_refresh_sec ≡ 60)
        ⊎ ((5 ≤ after.kernel_refresh_sec) × (after.kernel_refresh_sec ≤ 3600)))
    × (after.kernel_register_revision ≡ "register-1")
unfolding get_field
apply_register-bounds_example =
    apply_register-bounds register (replied 500 (some (obj resolution)) "") "schema"
      (str "exocortex.register.snapshot.v1") rest_of before after (value-eq applied applied_ok)

abbrev replaced : Try Fields
replaced = replace_resolved items values

replaced_ok : is_ok replaced ≡ true
unfolding replace_resolved perimetr.Prelude.Text.split
replaced_ok = refl

apart : ArePairwiseApart items
unfolding ArePairwiseApart IsApart perimetr.Prelude.Text.split
apart = (
  (inr (refl, inl (cc)), (inl (cc), (inl (cc), (inl (cc), tt)))),
  (
    (inl (cc), (inl (cc), (inl (cc), tt))),
    ((inr (refl, inr (refl, inl (cc))), (inl (cc), tt)), ((inl (cc), tt), (tt, tt))),
  ),
)

resolve-replace_resolved_example :
    All (λ i. resolve (parts i.0) (obj (value replaced replaced_ok)) ≡ some (str i.1)) items
resolve-replace_resolved_example =
    resolve-replace_resolved items values (value replaced replaced_ok) apart
      (value-eq replaced replaced_ok)

-- A rotation of the token with the Access Key "pass".
abbrev parameters : Env
parameters = record (Samples.env 10) {
  platform = record Samples.platform { byte_count = λ s. if s == "f" then 16 else 64 };
}

abbrev surroundings : Surroundings
surroundings = record {
  register = register;
  current = before;
  kernel_url = "https://kernel";
  is_development = false;
  kernel_register_stale = false;
  file = none;
  snapshot = λ token. network;
  resolution = λ url token. replied 500 (some (obj resolution)) "";
}

abbrev link : Link
link = record {
  origin = none;
  token = "old";
  limiter = record {
    max_attempts = 5;
    window_seconds = 60;
    base_delay = 250000000;
    maximum_delay = 2000000000;
    max_clients = 3;
    attempts = [];
  };
  db = record Samples.start { access_key_hash = "scrypt$f$passf" };
}

abbrev order : Fields
order = field "current_key" (str "pass") (field "token" (str "new") end)

abbrev rotation : Outcome Link Link
rotation = rotate parameters surroundings 0 "client" order link

rotation_done : is_done rotation ≡ true
unfolding rotate
rotation_done = refl

abbrev rotated : Link
rotated = result rotation rotation_done

rotate-IsChecked_example :
    (key : String) × (token_payload parameters surroundings order ≡ some (key, rotated.token))
    × ((check link.limiter "kernel-rotation:client" 0).0.allowed ≡ true)
    × (verify_password parameters.platform key "scrypt$f$passf" ≡ true)
    × (given : Fields) × (fields : RegisterSettings) × ((load_snapshot register network
          "https://kernel" rotated.token true false none).1
        ≡ returns given)
    × (apply_register register (replied 500 (some (obj resolution)) "") given before
        ≡ returns fields)
rotate-IsChecked_example =
    rotate-IsChecked parameters surroundings 0 "client" order link rotated
      (result-eq rotation rotation_done)
