-- ===== src/Artifacts/Download.antt =====
-- `_download_artifact` and `_read_manifest_response` of app/pod_artifacts.py.
use perimetr.Prelude.{
  ℕ, ◌+◌, ◌*◌, String, Bool, true, false, not, Option, none, some, ◌==◌, ◌!=◌, ltb, nat_eq,
  if◌then◌else◌,
}
use perimetr.Prelude.Text.{text_length, truncate}
use perimetr.Json.{Json, Fields, null, num, str, obj, pos, end, field, get_field}
use perimetr.Pods.Credentials.{◌+++◌}
use perimetr.Artifacts.{
  Artifact, Try, returns, error, crash, ◌>>=◌, ◌>>◌, raise_if, Runtime, Slot, Cache, Stream,
  finished, broken, chunk, ContentLength, absent, not_number, bytes, Response, response,
  no_response, Network,
}
use perimetr.Artifacts.Manifest.{str_of, is_text}
use perimetr.Artifacts.Stored.{put_slot, load_artifact}

abbrev pub max_manifest_bytes : ℕ
max_manifest_bytes = 256 * 1024

-- `_read_manifest_response`, at the size of the body and its JSON value.
abbrev pub read_manifest_response : ℕ → Option Json → Try Fields
read_manifest_response size body =
    if ltb max_manifest_bytes size then error "Pod update manifest is too large" else elim body [
      | none ↦ error "Pod update manifest is not valid UTF-8 JSON"
      | some (obj m) ↦ returns m
      | some v ↦ error "Pod update manifest must be a JSON object"
    ]

-- The loop over the chunks: the prefix that was kept, the bytes so far, and their number.
unfoldable pub read_chunks : ℕ → String → ℕ → String → Stream → Try (String × String)
read_chunks limit prefix total content finished = returns (prefix, content)
read_chunks limit prefix total content (broken text) = crash text
read_chunks limit prefix total content (chunk c rest) =
    let next =
      read_chunks limit (if prefix == "" then truncate 2 c else prefix) (total + text_length c)
        (content +++ c) rest in
    if c == ""
    then returns (prefix, content)
    else if ltb limit (total + text_length c)
    then error "Pod executable exceeds the configured size limit"
    else next

-- `except (OSError, ValueError)`
abbrev pub as_download_error : {A : Type 0} → Try A → Try A
as_download_error (returns a) = returns a
as_download_error (error t) = error t
as_download_error (crash t) = error ("Pod artifact download failed: " +++ t)

module _ (env : Runtime) where
  abbrev pub check_length : ContentLength → Try (Unit {0})
  check_length absent = returns tt
  check_length not_number = crash "ValueError"
  check_length (bytes n) =
      raise_if (ltb env.perimetr_pod_max_artifact_bytes n)
        "Pod executable exceeds the configured size limit"

  -- The bytes of a response that the request gave.
  abbrev pub receive : Response → Try (String × String)
  receive (no_response t) = crash t
  receive (response len body) =
      check_length len >> read_chunks env.perimetr_pod_max_artifact_bytes "" 0 "" body

  -- `expected_size is not None and total != expected_size`, where the size is an `int` or missing.
  abbrev pub is_expected : Option Json → ℕ → Bool
  is_expected none total = true
  is_expected (some null) total = true
  is_expected (some (num (pos n))) total = nat_eq n total
  is_expected (some v) total = false

  -- The checks of the prefix and the bytes that were read.
  unfoldable pub check_fetched : Fields → String × String → Try String
  unfolding get_field
  check_fetched m (prefix, content) = do
    raise_if (prefix != "MZ") "downloaded Pod artifact is not a Windows executable"
    raise_if (env.digest content != str_of env (get_field "sha256" m))
        "downloaded Pod artifact checksum mismatch"
    raise_if (not (is_expected (get_field "size" m) (text_length content)))
        "downloaded Pod artifact size mismatch"
    returns content

  -- The bytes that are downloaded for a manifest.
  unfoldable pub fetch_executable : Network → Fields → Try String
  unfolding get_field read_chunks check_fetched
  fetch_executable net m = receive (net.fetch (str_of env (get_field "url" m))) >>= check_fetched m

  abbrev pub cache_metadata : Fields → ℕ → Fields
  cache_metadata m size = field "version" (str (str_of env (get_field "version" m))) (
      field "sha256" (str (str_of env (get_field "sha256" m))) (
        field "size" (num (pos size)) (
          field "signed_manifest" (obj m)
            (field "cache_source" (str "remote") (field "verified_at" (str env.now_iso) end)))))

  abbrev pub remote : Fields → Artifact
  remote m = record {
    version = str_of env (get_field "version" m);
    sha256 = str_of env (get_field "sha256" m);
    source = "remote";
    manifest = m;
    refresh_error = "";
  }

  -- The executable is put in place of what is there.
  abbrev pub fetched_slot : Fields → String → Slot
  fetched_slot m content = record {
    executable = some content;
    metadata = cache_metadata m (text_length content);
  }

  unfoldable pub download_new : Network → Fields → Cache → Try (Cache × Artifact)
  unfolding fetch_executable put_slot get_field
  download_new net m c = do
    content ← as_download_error (fetch_executable net m)
    returns (put_slot (str_of env (get_field "sha256" m)) (fetched_slot m content) c, remote m)

  -- `_download_artifact`, at what is loaded for the digest of the manifest.
  unfoldable pub reuse_or_download :
      Network → Fields → Option Artifact → Cache → Try (Cache × Artifact)
  unfolding get_field download_new
  reuse_or_download net m none c = download_new net m c
  reuse_or_download net m (some cached) c = do
    raise_if (not (is_text env cached.version (get_field "version" m)))
        "cached Pod artifact version does not match its digest metadata"
    returns (c, record cached { source = "verified-cache"; manifest = m })

  unfoldable pub download_artifact : Network → Fields → Cache → Try (Cache × Artifact)
  unfolding load_artifact get_field reuse_or_download
  download_artifact net m c =
      reuse_or_download net m (load_artifact env c (str_of env (get_field "sha256" m))) c
