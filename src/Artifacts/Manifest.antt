-- ===== src/Artifacts/Manifest.antt =====
-- `pod_discovery_url` and `_verify_manifest` of app/pod_artifacts.py.
pub mod Signed
use Prim.Native.Nat.{lt}
use Prim.Native.Char.{Char, code}
use perimetr.Prelude.{
  ℕ, String, Bool, true, false, not, Option, none, some, List, [], ◌∷◌, ◌==◌, ◌!=◌, ◌&&◌, ◌||◌, leb,
  ltb, nat_eq, if◌then◌else◌, is_some, or_else,
}
use perimetr.Prelude.Text.{cut, text_length, drop_suffix}
use perimetr.Json.{
  Json, Fields, null, bool, num, str, pos, float, get_field, set_field, drop_field, is_true,
}
use perimetr.Pods.Credentials.{◌+++◌}
use perimetr.Pods.Config.{rstrip_slash, is_empty_text}
use perimetr.Artifacts.{
  Try, returns, error, crash, ◌>>=◌, ◌>>◌, raise_if, Address, TrustedKey, no_file, unreadable,
  not_p256, p256, Runtime,
}
use perimetr.Artifacts.Version.{semver, compare_versions, all_chars, is_digit}

-- `SHA256_PATTERN`
abbrev pub is_sha256 : String → Bool
is_sha256 s =
    nat_eq (text_length s) 64
    && all_chars (λ c. is_digit c || leb b'a' (code c) && leb (code c) b'f') s

abbrev pub key_of : TrustedKey → Try String
key_of no_file = error "trusted Pod update public key is unavailable or invalid"
key_of unreadable = error "trusted Pod update public key is unavailable or invalid"
key_of not_p256 = error "trusted Pod update key must be ECDSA P-256"
key_of (p256 key) = returns key

module _ (env : Runtime) where
  -- `str(value)`
  abbrev pub str_of : Option Json → String
  str_of none = "None"
  str_of (some (str s)) = s
  str_of (some v) = env.show v

  -- `value in {None, 1, 2}` of a number; a list and a dict are not hashable
  abbrev is_number : ℕ → Json → Bool
  is_number n (num (pos k)) = nat_eq k n
  is_number n (num (float s)) = env.float_is s n
  is_number n (bool b) = b && nat_eq n 1
  is_number n _ = false

  abbrev pub is_known_schema : Option Json → Try Bool
  is_known_schema none = returns true
  is_known_schema (some null) = returns true
  is_known_schema (some (Json.arr vs)) = crash "unhashable type: 'list'"
  is_known_schema (some (Json.obj fs)) = crash "unhashable type: 'dict'"
  is_known_schema (some v) = returns (is_number 1 v || is_number 2 v)

  -- `value in {None, name}`
  abbrev pub is_absent_or : String → Option Json → Try Bool
  is_absent_or name none = returns true
  is_absent_or name (some null) = returns true
  is_absent_or name (some (Json.arr vs)) = crash "unhashable type: 'list'"
  is_absent_or name (some (Json.obj fs)) = crash "unhashable type: 'dict'"
  is_absent_or name (some (str s)) = returns (s == name)
  is_absent_or name (some v) = returns false

  abbrev pub is_text : String → Option Json → Bool
  is_text name (some (str s)) = s == name
  is_text name _ = false

  -- A size that is given is an `int` of 2 or more; `True` is 1.
  abbrev pub is_size : Option Json → Bool
  is_size none = true
  is_size (some null) = true
  is_size (some (num (pos n))) = leb 2 n
  is_size _ = false

  -- `urlparse(text)`
  abbrev pub address : String → Try Address
  address value = elim (env.urlparse value) [ none ↦ crash "ValueError" | some a ↦ returns a ]

  -- `pod_discovery_url`. The host of an address is a text that is not empty.
  unfoldable pub pod_discovery_url : String → Try String
  unfolding rstrip_slash
  pod_discovery_url repository_url = do
    let candidate = rstrip_slash (env.platform.strip repository_url)
    parsed ← address candidate
    raise_if
        (parsed.scheme != "https"
          || is_empty_text parsed.hostname
          || parsed.query != ""
          || parsed.fragment != "")
        "repositories.pod.url must be a valid HTTPS repository URL"
    returns (drop_suffix ".git" candidate +++ "/releases/download/pod-current/pod-update.json")

  -- The names of the required fields that are missing.
  unfoldable pub missing_fields : List String → Fields → List String
  unfolding get_field
  missing_fields [] m = []
  missing_fields (k ∷ ks) m =
      let rest = missing_fields ks m in if is_true (get_field k m) then rest else k ∷ rest

  unfoldable pub joined_names : List String → String
  joined_names [] = ""
  joined_names (k ∷ []) = k
  joined_names (k ∷ (j ∷ ks)) = k +++ (", " +++ joined_names (j ∷ ks))

  abbrev pub required : List String
  required = "version" ∷ ("channel" ∷ ("url" ∷ ("sha256" ∷ ("signature" ∷ []))))

  abbrev pub invalid_version : String → String
  invalid_version value = "invalid semantic version: " +++ value

  -- `_semver(value)`, for its exception.
  unfoldable pub require_semver : String → Try (Unit {0})
  unfolding semver
  require_semver value =
      raise_if (not (is_some (semver env.platform value))) (invalid_version value)

  -- The version of Perimetr that the release asks for.
  unfoldable pub check_minimum : String → String → Try (Unit {0})
  unfolding require_semver compare_versions
  check_minimum version minimum = if minimum == "" then returns tt else do
    require_semver env.perimetr_version
    require_semver minimum
    raise_if
        (elim (compare_versions env.platform env.perimetr_version minimum) [
          | some lt ↦ true
          | _ ↦ false
        ])
        ("Pod " +++ (version +++ (" requires Perimetr " +++ (minimum +++ " or newer"))))

  -- The checks of the release's fields, schema and product.
  unfoldable pub check_product : Fields → Try (Unit {0})
  unfolding missing_fields joined_names get_field
  check_product m = do
    raise_if (elim (missing_fields required m) [ [] ↦ false | k ∷ ks ↦ true ])
        ("Pod update manifest is missing: " +++ joined_names (missing_fields required m))
    known ← is_known_schema (get_field "schema_version" m)
    raise_if (not known) "unsupported Pod update manifest schema"
    same ← is_absent_or "pod" (get_field "product" m)
    raise_if (not same) "Pod update manifest product mismatch"

  unfoldable pub check_channel : Fields → Try (Unit {0})
  unfolding get_field
  check_channel m =
      raise_if (not (is_text "stable" (get_field "channel" m)))
        "Pod update manifest channel must be stable"

  -- The checks of its version and of those it works with.
  unfoldable pub check_version : Fields → Try (Unit {0})
  unfolding get_field require_semver check_minimum cut
  check_version m = do
    require_semver (str_of (get_field "version" m))
    raise_if (is_some (cut b'-' (str_of (get_field "version" m))))
        "stable Pod manifests cannot publish a prerelease version"
    api ← is_absent_or "v1" (get_field "perimetr_api" m)
    raise_if (not api) "Pod release is incompatible with Perimetr API v1"
    check_minimum (str_of (get_field "version" m)) (
        env.platform.strip (
          if is_true (get_field "minimum_perimetr_version" m)
          then str_of (get_field "minimum_perimetr_version" m)
          else ""))

  -- The checks of the file it names.
  unfoldable pub check_file : Fields → Try (Unit {0})
  unfolding get_field all_chars
  check_file m = do
    parsed ← address (str_of (get_field "url" m))
    raise_if (parsed.scheme != "https" || is_empty_text parsed.hostname)
        "Pod artifact URL must use HTTPS"
    raise_if (not (is_sha256 (env.platform.lower (str_of (get_field "sha256" m)))))
        "Pod artifact SHA-256 is invalid"
    raise_if (not (is_size (get_field "size" m))) "Pod artifact size is invalid"

  unfoldable pub trusted_key : Try String
  trusted_key = key_of env.trusted_key

  -- `_verify_manifest`. The signature is that of the manifest without it.
  unfoldable pub verify_manifest : Fields → Try Fields
  unfolding check_product check_channel check_version check_file trusted_key drop_field get_field
      set_field
  verify_manifest m = do
    check_product m
    check_channel m
    check_version m
    check_file m
    key ← trusted_key
    raise_if (not (env.verify key (drop_field "signature" m) (str_of (get_field "signature" m))))
        "Pod update manifest signature is invalid"
    returns (set_field "sha256" (str (env.platform.lower (str_of (get_field "sha256" m)))) m)
