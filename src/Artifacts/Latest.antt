-- ===== src/Artifacts/Latest.antt =====
-- `ensure_latest_pod_artifact` of app/pod_artifacts.py.
use Prim.Native.Nat.{Ordering, lt, eq}
use perimetr.Prelude.{
  ◌+◌, ◌*◌, String, Bool, true, false, not, Option, none, some, ◌==◌, ◌!=◌, ◌&&◌, ltb, nat_eq,
  if◌then◌else◌, is_some,
}
use perimetr.Json.{Fields, get_field}
use perimetr.Settings.{second}
use perimetr.Artifacts.{
  Artifact, Try, returns, error, crash, ◌>>=◌, ◌>>◌, raise_if, TrustedKey, no_file, Runtime, Reply,
  replied, http_error, failed, Network, Current, State, Cache,
}
use perimetr.Artifacts.Version.{compare_versions}
use perimetr.Artifacts.Manifest.{str_of, pod_discovery_url, verify_manifest, require_semver}
use perimetr.Artifacts.Stored.{state_fallback}
use perimetr.Artifacts.Download.{read_manifest_response, download_artifact}

-- `comparison < 0` and `comparison == 0`
abbrev pub is_below : Option Ordering → Bool
is_below (some lt) = true
is_below _ = false

abbrev pub is_same : Option Ordering → Bool
is_same (some eq) = true
is_same _ = false

abbrev pub is_no_file : TrustedKey → Bool
is_no_file no_file = true
is_no_file _ = false

abbrev pub current_of : Artifact → Current
current_of a = record { version = a.version; sha256 = a.sha256; source = a.source }

-- The state in memory: the fallback becomes the current release where there is none.
unfoldable pub with_current : Option Artifact → State → State
with_current (some f) s = elim s.current [
  | none ↦ record s { current = some (current_of f) }
  | some k ↦ s
]
with_current none s = s

module _ (env : Runtime) where
  -- `{…, "last_checked_at": …, "last_error": …}`
  abbrev pub checked_state : String → State → State
  checked_state text s = record s { last_checked_at = env.now_iso; last_error = text }

  -- The check of the fallback is not older than `perimetr_pod_refresh_sec`.
  abbrev pub is_fresh : Bool → Option Artifact → State → Bool
  is_fresh force fallback s =
      not force
      && is_some fallback
      && not (nat_eq s.checked_epoch 0)
      && ltb env.now (s.checked_epoch + env.perimetr_pod_refresh_sec * second)

  -- `If-None-Match`, if the state has an `etag` of this address.
  abbrev pub request_etag : String → State → String
  request_etag url s = if s.manifest_url == url then s.etag else ""

  -- The verified manifest of a reply with its `ETag`, and `none` for a 304 where there is a fallback.
  unfoldable pub read_reply : Bool → Reply → Try (Option (Fields × String))
  unfolding verify_manifest
  read_reply has_fallback (replied size body etag) = do
    m ← read_manifest_response size body
    verified ← verify_manifest env m
    returns (some (verified, etag))
  read_reply has_fallback (http_error code t) =
      if nat_eq code 304 && has_fallback then returns none else crash t
  read_reply has_fallback (failed t) = crash t

  -- No version before the fallback's, and no other file for its version.
  unfoldable pub check_upgrade : Option Artifact → Fields → Try (Unit {0})
  unfolding compare_versions get_field require_semver
  check_upgrade none m = returns tt
  check_upgrade (some f) m = do
    require_semver env (str_of env (get_field "version" m))
    require_semver env f.version
    let order = compare_versions env.platform (str_of env (get_field "version" m)) f.version
    raise_if (is_below order) "Pod discovery manifest attempted a version downgrade"
    raise_if (is_same order && str_of env (get_field "sha256" m) != f.sha256)
        "Pod release reused a version with a different checksum"

  abbrev pub released_state : String → String → Artifact → State
  released_state url etag a = record {
    current = some (current_of a);
    manifest_url = url;
    etag = etag;
    last_checked_at = env.now_iso;
    checked_epoch = env.now;
    last_error = "";
  }

  -- The release of a verified manifest.
  unfoldable pub take_release :
      Network → String → Option Artifact → Fields × String → Cache → Try (Cache × Artifact)
  unfolding check_upgrade download_artifact
  take_release net url fallback (m, etag) c = do
    check_upgrade fallback m
    (c', a) ← download_artifact env net m c
    returns (record c' { state = released_state url etag a }, a)

  -- The state after a 304.
  abbrev pub unchanged_state : String → State → State
  unchanged_state url s = record (checked_state "" s) {
    manifest_url = url;
    checked_epoch = env.now;
  }

  -- What is done with a reply. Without a fallback a 304 is an error before this.
  unfoldable pub take_reply :
      Network
      → String
      → Option Artifact
      → State
      → Option (Fields × String)
      → Cache
      → Try (Cache × Artifact)
  unfolding take_release
  take_reply net url fallback s (some release) c = take_release net url fallback release c
  take_reply net url (some f) s none c = returns (record c { state = unchanged_state url s }, f)
  take_reply net url none s none c = error "no verified Pod runtime is available"

  -- The request to the repository.
  unfoldable pub poll : Network → String → Option Artifact → State → Cache → Try (Cache × Artifact)
  unfolding read_reply take_reply
  poll net url fallback s c = do
    reply ← read_reply (is_some fallback) (net.discover url (request_etag url s))
    take_reply net url fallback s reply c

  abbrev pub require_key_file : Try (Unit {0})
  require_key_file =
      raise_if (is_no_file env.trusted_key) "trusted Pod update public key is unavailable"

  -- The fallback while its check is fresh, else the repository's answer.
  unfoldable pub or_fallback :
      Network → Bool → String → Option Artifact → State → Cache → Try (Cache × Artifact)
  unfolding poll
  or_fallback net force url none s c = poll net url none s c
  or_fallback net force url (some f) s c =
      if is_fresh force (some f) s then returns (c, f) else poll net url (some f) s c

  -- The body of the `try`; `s` is the state in memory.
  unfoldable pub refresh : Network → Bool → Option Artifact → State → Cache → Try (Cache × Artifact)
  unfolding pod_discovery_url or_fallback
  refresh net force fallback s c = do
    url ← pod_discovery_url env (env.platform.strip env.perimetr_pod_repository_url)
    require_key_file
    or_fallback net force url fallback s c

  -- The state that the `except` writes.
  abbrev pub failed_state : String → State → State
  failed_state t s = record (checked_state t s) { checked_epoch = env.now }

  -- The `except`: the fallback with the error, or the error.
  unfoldable pub recover : Option Artifact → State → String → Cache → Cache × Try Artifact
  recover (some f) s t c =
      (record c { state = failed_state t s }, returns (record f { refresh_error = t }))
  recover none s t c = (record c { state = failed_state t s }, error t)

  unfoldable pub settle :
      Option Artifact → State → Cache → Try (Cache × Artifact) → Cache × Try Artifact
  unfolding recover
  settle fallback s c (returns (c', a)) = (c', returns a)
  settle fallback s c (error t) = recover fallback s t c
  settle fallback s c (crash t) = recover fallback s t c

  -- Without a repository the fallback is all there is.
  unfoldable pub without_repository : Option Artifact → Cache → Cache × Try Artifact
  unfolding with_current
  without_repository none c = (c, error "no verified Pod runtime is available")
  without_repository (some f) c =
      if is_some c.state.current
      then (c, returns f)
      else (record c { state = checked_state "" (with_current (some f) c.state) }, returns f)

  unfoldable pub with_fallback : Network → Bool → Option Artifact → Cache → Cache × Try Artifact
  unfolding without_repository settle refresh with_current
  with_fallback net force fallback c =
      if env.platform.strip env.perimetr_pod_repository_url == ""
      then without_repository fallback c
      else settle fallback (with_current fallback c.state) c
          (refresh net force fallback (with_current fallback c.state) c)

  -- `ensure_latest_pod_artifact`, at what is found first. A failure there is outside of its `try`.
  unfoldable pub ensure_from :
      Network → Bool → Cache → Try (Cache × Option Artifact) → Cache × Try Artifact
  unfolding with_fallback
  ensure_from net force c (returns (c', fallback)) = with_fallback net force fallback c'
  ensure_from net force c (error t) = (c, error t)
  ensure_from net force c (crash t) = (c, crash t)

  unfoldable pub ensure_latest_pod_artifact : Network → Bool → Cache → Cache × Try Artifact
  unfolding state_fallback ensure_from
  ensure_latest_pod_artifact net force c = ensure_from net force c (state_fallback env c)
