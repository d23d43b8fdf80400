-- ===== src/Artifacts/Stored.antt =====
-- The cache of app/pod_artifacts.py: `_hash_executable`, `_load_artifact`, `_store_local_artifact`,
-- `_factory_artifact` and `_state_fallback`.
use perimetr.Prelude.{
  ℕ, String, Bool, false, Option, none, some, ◌==◌, ◌!=◌, ◌&&◌, ltb, if◌then◌else◌, is_some,
  or_else,
}
use perimetr.Prelude.Text.{text_length, truncate}
use perimetr.Json.{Json, Fields, num, str, obj, pos, end, field, get_field, drop_field, is_true}
use perimetr.Artifacts.{
  Artifact, Try, returns, error, crash, ◌>>=◌, ◌>>◌, raise_if, Runtime, Slot, State, Cache,
}
use perimetr.Artifacts.Version.{semver, all_chars}
use perimetr.Artifacts.Manifest.{is_sha256, str_of, require_semver}

unfoldable pub put_slot : String → Slot → Cache → Cache
put_slot digest slot c = record c { slots = λ d. if digest == d then slot else c.slots d }

-- A file was read and has the digest, and its version is one.
abbrev pub has_digest : String → Bool → Try (String × ℕ) → Bool
has_digest digest is_version (returns (actual, size)) = actual == digest && is_version
has_digest digest is_version (error t) = false
has_digest digest is_version (crash t) = false

module _ (env : Runtime) where
  -- `_hash_executable`, at the bytes of the file, if it can be read.
  unfoldable pub hash_executable : Option String → Try (String × ℕ)
  hash_executable none = error "Pod executable cannot be read"
  hash_executable (some content) = do
    raise_if (ltb env.perimetr_pod_max_artifact_bytes (text_length content))
        "Pod executable exceeds the configured size limit"
    raise_if (truncate 2 content != "MZ") "Pod executable does not have a Windows PE header"
    returns (env.digest content, text_length content)

  -- `str(metadata.get(key) or fallback)`
  abbrev pub text_or : String → Option Json → String
  text_or fallback v = if is_true v then str_of env v else fallback

  abbrev pub signed_manifest : Fields → Fields
  signed_manifest metadata = elim (get_field "signed_manifest" metadata) [
    | some (obj m) ↦ m
    | _ ↦ drop_field "verified_at" (drop_field "cache_source" metadata)
  ]

  abbrev pub loaded : String → Fields → Artifact
  loaded digest metadata = record {
    version = text_or "" (get_field "version" metadata);
    sha256 = digest;
    source = text_or "verified-cache" (get_field "cache_source" metadata);
    manifest = signed_manifest metadata;
    refresh_error = "";
  }

  -- The slot has the file of the digest, and a version.
  unfoldable pub is_intact : String → Slot → Bool
  unfolding hash_executable get_field semver
  is_intact digest slot =
      has_digest digest
        (is_some (semver env.platform (text_or "" (get_field "version" slot.metadata))))
        (hash_executable slot.executable)

  -- `_load_artifact`.
  unfoldable pub load_artifact : Cache → String → Option Artifact
  unfolding is_intact get_field drop_field all_chars
  load_artifact c digest =
      let normalized = env.platform.lower digest in
      if is_sha256 normalized
      then if is_intact normalized (c.slots normalized)
        then some (loaded normalized (c.slots normalized).metadata)
        else none
      else none

  abbrev pub local_manifest : String → String → String → ℕ → Fields
  local_manifest version source digest size = field "schema_version" (num (pos 2)) (
      field "product" (str "pod") (
        field "version" (str version) (
          field "channel" (str "stable") (
            field "sha256" (str digest) (
              field "size" (num (pos size))
                (field "cache_source" (str source) (field "verified_at" (str env.now_iso) end)))))))

  -- A `pod.exe` that is there stays.
  abbrev pub local_slot : String → String → String → ℕ → Slot → Slot
  local_slot content version digest size old = record {
    executable = some (or_else old.executable content);
    metadata = local_manifest version "factory" digest size;
  }

  abbrev pub local_artifact : String → String → ℕ → Artifact
  local_artifact version digest size = record {
    version = version;
    sha256 = digest;
    source = "factory";
    manifest = local_manifest version "factory" digest size;
    refresh_error = "";
  }

  -- `_store_local_artifact`, at the bytes of `source`; its one caller gives the source `factory`. The
  -- copy is checked against the digest of the bytes that it was made of.
  unfoldable pub store_local_artifact : String → String → Cache → Try (Cache × Artifact)
  unfolding require_semver hash_executable put_slot
  store_local_artifact content version c = do
    require_semver env version
    (digest, size) ← hash_executable (some content)
    returns (
      put_slot digest (local_slot content version digest size (c.slots digest)) c,
      local_artifact version digest size,
    )

  -- `_factory_artifact`, at the executable of the bundle.
  unfoldable pub bundled : Option String → Cache → Try (Cache × Option Artifact)
  unfolding store_local_artifact
  bundled none c = returns (c, none)
  bundled (some content) c = do
    (c', a) ← store_local_artifact content env.perimetr_pod_version c
    returns (c', some a)

  unfoldable pub factory_artifact : Cache → Try (Cache × Option Artifact)
  unfolding bundled
  factory_artifact c = bundled env.bundle c

  abbrev pub current_digest : State → String
  current_digest s = elim s.current [ none ↦ "" | some k ↦ k.sha256 ]

  -- `_state_fallback`, at what is loaded for the current release.
  unfoldable pub or_factory : Option Artifact → Cache → Try (Cache × Option Artifact)
  unfolding factory_artifact
  or_factory (some a) c = returns (c, some (record a { source = "last-known-good" }))
  or_factory none c = factory_artifact c

  unfoldable pub state_fallback : Cache → Try (Cache × Option Artifact)
  unfolding load_artifact or_factory
  state_fallback c = or_factory (load_artifact c (current_digest c.state)) c
