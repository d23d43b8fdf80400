-- ===== src/Kernel/Apply.antt =====
-- `apply_register` of app/kernel_register.py.
pub mod Bounds
use perimetr.Prelude.{
  ℕ, String, Bool, true, false, not, Option, none, some, List, [], ◌∷◌, ◌==◌, ◌!=◌, ◌&&◌, ◌||◌,
  nat_eq, is_some, if◌then◌else◌,
}
use perimetr.Prelude.Text.{cut, truncate, split}
use perimetr.Json.{Json, Fields, str, obj, end, field, get_field}
use perimetr.Pods.Config.{is_empty_text}
use perimetr.Pods.Credentials.{◌+++◌}
use perimetr.Artifacts.{Try, returns, error, crash, ◌>>=◌, ◌>>◌, raise_if, Reply}
use perimetr.Artifacts.Manifest.{address, pod_discovery_url}
use perimetr.Kernel.{Register, RegisterSettings}
use perimetr.Kernel.References.{is_volt_reference}
use perimetr.Kernel.Snapshot.{as_object}
use perimetr.Kernel.Values.{
  parts, resolve, replace_resolved, required_string, required_url, required_port, positive_int,
  resolve_values,
}

abbrev pub keys : List String
keys =
    "repositories.perimetr.url"
    ∷ ("repositories.pod.url"
        ∷ ("services.perimetr.sni"
            ∷ ("services.perimetr.port" ∷ ("intervals.kernel.refresh_sec" ∷ []))))

abbrev pub is_reference : Option Json → Bool
is_reference (some (str s)) = is_volt_reference s
is_reference _ = false

unfoldable pub check_references : List String → Fields → Try (Unit {0})
unfolding resolve split is_volt_reference
check_references [] values = returns tt
check_references (key ∷ rest) values =
    raise_if (not (is_reference (resolve (parts key) (obj values))))
      ("Kernel Register key " +++ (key +++ " must use volt://<entry-id>/<field-id>"))
    >> check_references rest values

-- A `PodArtifactError` is no `KernelRegisterError`.
abbrev pub foreign : {A : Type 0} → Try A → Try A
foreign (returns a) = returns a
foreign (error t) = crash t
foreign (crash t) = crash t

-- The host of a URL: an IPv6 address is put in brackets.
unfoldable pub url_host : String → String
unfolding cut
url_host sni =
    if is_some (cut b':' sni) && truncate 1 sni != "[" then "[" +++ (sni +++ "]") else sni

module _ (k : Register) where
  abbrev pub public_url : String → ℕ → String
  public_url sni port =
      "https://" +++ (url_host sni +++ (if nat_eq port 443 then "" else ":" +++ k.decimal port))

  -- The repositories, and the address of the manifests.
  unfoldable pub read_repositories : Fields → RegisterSettings → Try RegisterSettings
  unfolding required_url pod_discovery_url
  read_repositories values s = do
    repository ← required_url k values "repositories.perimetr.url"
    pod ← required_url k values "repositories.pod.url"
    manifest ← foreign (pod_discovery_url k.runtime pod)
    returns (record s {
      perimetr_repository_url = repository;
      perimetr_pod_repository_url = pod;
      perimetr_pod_update_manifest_url = manifest;
    })

  -- The name and the port of the service, and the public address that they make.
  unfoldable pub read_service : Fields → RegisterSettings → Try RegisterSettings
  unfolding required_string required_port url_host
  read_service values s = do
    sni ← required_string k values "services.perimetr.sni"
    port ← required_port k values "services.perimetr.port"
    parsed ← address k.runtime ("http://" +++ sni)
    raise_if (is_empty_text parsed.hostname || not (parsed.path == "" || parsed.path == "/"))
        "Kernel Register services.perimetr.sni is invalid"
    returns (record s {
      perimetr_sni = sni;
      perimetr_service_port = port;
      perimetr_public_url = public_url sni port;
    })

  unfoldable pub read_interval : Fields → String → RegisterSettings → RegisterSettings
  unfolding positive_int
  read_interval values revision s = record s {
    kernel_refresh_sec =
        positive_int k values "intervals.kernel.refresh_sec" s.kernel_refresh_sec 5 3600;
    kernel_register_revision = revision;
  }

  -- The settings that the values give, for a revision.
  unfoldable pub read_settings : Fields → String → RegisterSettings → Try RegisterSettings
  unfolding read_repositories read_service read_interval
  read_settings values revision s = do
    a ← read_repositories values s
    b ← read_service values a
    returns (read_interval values revision b)

  -- The stored values with their references resolved.
  unfoldable pub resolved_values : Reply → Fields → Try Fields
  unfolding check_references resolve_values replace_resolved
  resolved_values reply stored = do
    check_references keys stored
    resolved ← resolve_values keys reply
    replace_resolved resolved stored

  abbrev pub values_of : Fields → Try Fields
  values_of snapshot = elim (as_object (get_field "values" snapshot)) [
    | some values ↦ returns values
    | none ↦ crash "TypeError"
  ]

  abbrev pub revision_of : Option Json → String
  revision_of (some (str r)) = r
  revision_of _ = ""

  -- `apply_register`, at a snapshot that was verified and the reply to the resolution. The settings
  -- that an exception leaves half changed are dropped by every caller.
  unfoldable pub apply_register : Reply → Fields → RegisterSettings → Try RegisterSettings
  unfolding resolved_values read_settings get_field
  apply_register reply end s = returns s
  apply_register reply (field n v fs) s = do
    stored ← values_of (field n v fs)
    values ← resolved_values reply stored
    read_settings values (revision_of (get_field "revision" (field n v fs))) s
