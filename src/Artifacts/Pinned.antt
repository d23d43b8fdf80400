-- ===== src/Artifacts/Pinned.antt =====
-- `resolve_pinned_pod_artifact` of app/pod_artifacts.py.
use perimetr.Prelude.{String, not, Option, none, some, ◌!=◌}
use perimetr.Json.{Json, Fields, obj, field, get_field}
use perimetr.Artifacts.{
  Artifact, Try, returns, error, ◌>>=◌, ◌>>◌, raise_if, Runtime, Network, Cache,
}
use perimetr.Artifacts.Manifest.{str_of, is_text, verify_manifest}
use perimetr.Artifacts.Stored.{load_artifact}
use perimetr.Artifacts.Download.{download_artifact}

module _ (env : Runtime) where
  -- The executable is downloaded again, for the manifest that was stored with the record.
  unfoldable pub redownload : Network → String → String → Fields → Cache → Try (Cache × Artifact)
  unfolding verify_manifest get_field download_artifact
  redownload net digest version m c = do
    verified ← verify_manifest env m
    raise_if (str_of env (get_field "sha256" verified) != digest)
        "the stored Pod manifest does not match the pinned checksum"
    raise_if (not (is_text env version (get_field "version" verified)))
        "the stored Pod manifest does not match the pinned version"
    (c', a) ← download_artifact env net verified c
    returns (c', record a { source = "pinned-redownload" })

  unfoldable pub from_manifest :
      Network → String → String → Option Json → Cache → Try (Cache × Artifact)
  unfolding redownload
  from_manifest net digest version (some (obj (field k v fs))) c =
      redownload net digest version (field k v fs) c
  from_manifest net digest version _ c =
      error "the Pod runtime pinned to this provisioning record is unavailable"

  -- The artifact that was loaded, or that of the stored manifest, if it is a `dict` that is not empty.
  unfoldable pub find_pinned :
      Network → String → String → Option Json → Option Artifact → Cache → Try (Cache × Artifact)
  unfolding from_manifest
  find_pinned net digest version m (some a) c = returns (c, record a { source = "pinned-cache" })
  find_pinned net digest version m none c = from_manifest net digest version m c

  -- `resolve_pinned_pod_artifact`.
  unfoldable pub resolve_pinned_pod_artifact :
      Network → String → String → Option Json → Cache → Try (Cache × Artifact)
  unfolding load_artifact find_pinned
  resolve_pinned_pod_artifact net digest version m c = do
    let lowered = env.platform.lower digest
    (c', a) ← find_pinned net lowered version m (load_artifact env c lowered) c
    raise_if (a.version != version)
        "the pinned Pod runtime version does not match its verified artifact"
    returns (c', a)
