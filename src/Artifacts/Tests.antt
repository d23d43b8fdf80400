-- ===== src/Artifacts/Tests.antt =====
-- A release that is published, taken and resolved again, over an executable of the installation.
use Prim.Native.Nat.{lt}
use perimetr.Prelude.{
  ◌≤◌, String, ◌≡◌, ◌≢◌, refl, Bool, true, false, Option, none, some, ◌==◌, if◌then◌else◌, is_some,
}
use perimetr.Prelude.Text.{cut, text_length, truncate}
use perimetr.Json.{Fields, num, str, pos, obj, end, field, get_field, set_field, drop_field}
use perimetr.Samples
use perimetr.Samples.{is_ok, value, value-eq}
use perimetr.Artifacts.{
  Artifact, Try, returns, error, crash, Address, p256, Runtime, Network, Reply, replied, Response,
  response, bytes, finished, chunk, Slot, State, Cache,
}
use perimetr.Artifacts.Version.{semver, compare_versions}
use perimetr.Artifacts.Manifest.{is_sha256, str_of, verify_manifest}
use perimetr.Artifacts.Manifest.Signed.{verify_manifest-signed}
use perimetr.Artifacts.Stored.{state_fallback}
use perimetr.Artifacts.Latest.{ensure_latest_pod_artifact}
use perimetr.Artifacts.Pinned.{resolve_pinned_pod_artifact}
use perimetr.Artifacts.Ready.{IsSound}
use perimetr.Artifacts.Ready.Ensure.{
  ensure_latest_pod_artifact-IsSound, ensure_latest_pod_artifact-IsCached,
}
use perimetr.Artifacts.Ready.Available.{ensure_latest_pod_artifact-available}
use perimetr.Artifacts.Ready.Pinned.{
  resolve_pinned_pod_artifact-exact, resolve_pinned-ensure_latest,
}

abbrev digest_0 : String
digest_0 = "0000000000000000000000000000000000000000000000000000000000000000"

abbrev digest_1 : String
digest_1 = "1111111111111111111111111111111111111111111111111111111111111111"

-- The digest tells the executable of the installation from any other.
abbrev digest_of : String → String
digest_of s = if s == "MZ0" then digest_0 else digest_1

abbrev address : Address
address = record { scheme = "https"; hostname = some "host"; path = ""; query = ""; fragment = "" }

abbrev runtime : Runtime
runtime = record {
  platform = Samples.platform;
  show = λ v. "value";
  float_is = λ s n. false;
  urlparse = λ s. some address;
  digest = digest_of;
  verify = λ key m signature. signature == "signed";
  trusted_key = p256 "key";
  bundle = some "MZ0";
  now = 100;
  now_iso = "now";
  perimetr_version = "1.0.0";
  perimetr_pod_version = "1.0.0-rc.1";
  perimetr_pod_repository_url = "https://host/pod";
  perimetr_pod_refresh_sec = 60;
  perimetr_pod_max_artifact_bytes = 1000;
}

abbrev manifest : Fields
manifest = field "version" (str "1.0.0") (
    field "channel" (str "stable") (
      field "url" (str "https://host/pod.exe") (
        field "sha256" (str digest_1)
          (field "size" (num (pos 5)) (field "signature" (str "signed") end)))))

abbrev network : Network
network = record {
  discover = λ url etag. replied 500 (some (obj manifest)) "etag";
  fetch = λ url. response (bytes 5) (chunk "MZ1" (chunk "23" finished));
}

abbrev empty : Cache
empty = record {
  slots = λ d. record { executable = none; metadata = end };
  state = record {
    current = none;
    manifest_url = "";
    etag = "";
    last_checked_at = "";
    checked_epoch = 0;
    last_error = "";
  };
}

shape : (content : String) → is_sha256 (digest_of content) ≡ true
unfolding perimetr.Artifacts.Version.all_chars
shape content = chosen (content == "MZ0")
  where
    chosen : (b : Bool) → is_sha256 (if b then digest_0 else digest_1) ≡ true
    chosen true = refl
    chosen false = refl

sound : IsSound runtime empty
unfolding IsSound
sound d content e = cc

abbrev call : Cache × Try Artifact
call = ensure_latest_pod_artifact runtime network true empty

call_ok : is_ok call.1 ≡ true
unfolding ensure_latest_pod_artifact
call_ok = refl

abbrev given : Artifact
given = value call.1 call_ok

given-eq : call ≡ (call.0, returns given)
given-eq = λ i. (call.0, value-eq call.1 call_ok i)

-- The release of the repository is given.
given_release : given.version ≡ "1.0.0"
unfolding ensure_latest_pod_artifact
given_release = refl

ensure_latest_pod_artifact-IsSound_example : IsSound runtime call.0
ensure_latest_pod_artifact-IsSound_example =
    ensure_latest_pod_artifact-IsSound runtime shape network true empty sound

ensure_latest_pod_artifact-IsCached_example :
    (content : String) × ((call.0.slots given.sha256).executable ≡ some content)
    × (digest_of content ≡ given.sha256)
    × (truncate 2 content ≡ "MZ")
    × (text_length content ≤ 1000)
ensure_latest_pod_artifact-IsCached_example =
    ensure_latest_pod_artifact-IsCached runtime shape network true empty sound call.0 given given-eq

-- What is found first: the executable of the installation.
abbrev found : Cache × Option Artifact
unfolding state_fallback
found = value (state_fallback runtime empty) refl

abbrev factory : Option Artifact → Artifact
factory (some a) = a
factory none = given

ensure_latest_pod_artifact-available_example :
    (c' : Cache) × (a : Artifact) × (call ≡ (c', returns a))
    × (compare_versions Samples.platform a.version "1.0.0-rc.1" ≢ some lt)
unfolding state_fallback
ensure_latest_pod_artifact-available_example =
    ensure_latest_pod_artifact-available runtime network true (factory found.1) empty found.0 shape
      sound refl

resolve_pinned-ensure_latest_example :
    (b : Artifact) × (resolve_pinned_pod_artifact runtime network given.sha256 given.version none
        call.0
      ≡ returns (call.0, b))
    × (b.version ≡ given.version)
    × (b.sha256 ≡ given.sha256)
    × (b.source ≡ "pinned-cache")
resolve_pinned-ensure_latest_example =
    resolve_pinned-ensure_latest runtime shape (λ t h. refl) network network true none empty call.0
      given sound given-eq

-- A pinned release that the cache lost is downloaded again, for its stored manifest.
abbrev again : Try (Cache × Artifact)
again = resolve_pinned_pod_artifact runtime network digest_1 "1.0.0" (some (obj manifest)) empty

again_ok : is_ok again ≡ true
unfolding resolve_pinned_pod_artifact
again_ok = refl

abbrev resolved : Cache × Artifact
resolved = value again again_ok

resolve_pinned_pod_artifact-exact_example :
    (resolved.1.version ≡ "1.0.0")
    × (resolved.1.sha256 ≡ digest_1)
    × (content : String) × ((resolved.0.slots resolved.1.sha256).executable ≡ some content)
    × (digest_of content ≡ resolved.1.sha256)
resolve_pinned_pod_artifact-exact_example =
    resolve_pinned_pod_artifact-exact runtime (λ t. refl) network digest_1 empty "1.0.0"
      (some (obj manifest)) resolved.0 resolved.1 (value-eq again again_ok)

abbrev verified : Fields
unfolding verify_manifest
verified = value (verify_manifest runtime manifest) refl

verify_manifest-signed_example :
    (key : String) × (p256 "key" ≡ p256 key)
    × (runtime.verify key
          (drop_field "signature" manifest)
          (str_of runtime (get_field "signature" manifest))
        ≡ true)
    × (get_field "channel" manifest ≡ some (str "stable"))
    × (is_some (semver Samples.platform (str_of runtime (get_field "version" manifest))) ≡ true)
    × (cut b'-' (str_of runtime (get_field "version" manifest)) ≡ none)
    × (is_sha256 (str_of runtime (get_field "sha256" manifest)) ≡ true)
    × (verified ≡ set_field "sha256" (str (str_of runtime (get_field "sha256" manifest))) manifest)
unfolding verify_manifest
verify_manifest-signed_example =
    verify_manifest-signed runtime manifest verified
      (value-eq (verify_manifest runtime manifest) refl)
