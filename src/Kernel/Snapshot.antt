-- ===== src/Kernel/Snapshot.antt =====
-- `_verify_snapshot`, `_read_cache`, `_write_cache` and `load_snapshot` of app/kernel_register.py.
pub mod Verified
use perimetr.Prelude.{
  ℕ, ◌*◌, String, Bool, true, false, not, Option, none, some, ◌==◌, ◌&&◌, ◌||◌, ltb, nat_eq,
  if◌then◌else◌, is_some,
}
use perimetr.Json.{Json, Fields, null, bool, num, str, arr, obj, end, get_field}
use perimetr.Artifacts.{
  Try, returns, error, crash, ◌>>=◌, ◌>>◌, raise_if, Reply, replied, http_error, failed,
}
use perimetr.Kernel.{Register}
use perimetr.Kernel.References.{is_revision}
use perimetr.Pods.Config.{rstrip_slash}
use perimetr.Pods.Credentials.{◌+++◌}

abbrev pub is_str : String → Option Json → Bool
is_str t (some (str s)) = s == t
is_str t _ = false

abbrev pub is_revision_value : Option Json → Bool
is_revision_value (some (str s)) = is_revision s
is_revision_value _ = false

-- `isinstance(value, dict)`
abbrev pub as_object : Option Json → Option Fields
as_object (some (obj fs)) = some fs
as_object _ = none

abbrev pub is_checked : Register → Fields → Option Fields → Bool
is_checked k s none = false
is_checked k s (some values) = is_str (k.checksum values) (get_field "checksum" s)

module _ (k : Register) where
  -- `_verify_snapshot`
  unfoldable pub verify_snapshot : Fields → Try Fields
  unfolding get_field is_revision
  verify_snapshot s = do
    raise_if (not (is_str "exocortex.register.snapshot.v1" (get_field "schema" s)))
        "unsupported Kernel Register schema"
    raise_if (not (is_revision_value (get_field "revision" s))) "invalid Kernel Register revision"
    raise_if (not (is_some (as_object (get_field "values" s))))
        "Kernel Register values must be an object"
    raise_if (not (is_checked k s (as_object (get_field "values" s))))
        "Kernel Register checksum mismatch"
    returns s

  -- `_verify_snapshot(json.loads(…))`: a value that is no object has no `get`.
  unfoldable pub verify_value : Json → Try Fields
  unfolding verify_snapshot
  verify_value (obj s) = verify_snapshot s
  verify_value null = crash "AttributeError"
  verify_value (bool b) = crash "AttributeError"
  verify_value (num n) = crash "AttributeError"
  verify_value (str s) = crash "AttributeError"
  verify_value (arr vs) = crash "AttributeError"

  -- `_read_cache`, at the value of the file; `none`: there is none, or it is no JSON.
  unfoldable pub read_cache : Option Json → Try Fields
  unfolding verify_value
  read_cache none = error "no valid Kernel Register last-known-good cache"
  read_cache (some v) = verify_value v

  -- `cached`, where its own exception is no snapshot.
  abbrev pub last_known_good : Try Fields → Try (Option Fields)
  last_known_good (returns s) = returns (some s)
  last_known_good (error t) = returns none
  last_known_good (crash t) = crash t

  abbrev pub max_snapshot_bytes : ℕ
  max_snapshot_bytes = 3 * (1024 * 1024)

  -- The body of a reply.
  abbrev pub read_body : ℕ → Option Json → Try Fields
  read_body size body =
      if ltb max_snapshot_bytes size
      then error "Kernel Register response is too large"
      else elim body [
        | none ↦ error "Kernel unavailable and no valid Register last-known-good cache exists"
        | some v ↦ verify_value v
      ]

  -- What is given where the Kernel gave nothing.
  abbrev pub fall_back : Bool → Option Fields → Try Fields
  fall_back require_fresh (some s) =
      if require_fresh
      then error "Kernel unavailable and no valid Register last-known-good cache exists"
      else returns s
  fall_back require_fresh none =
      error "Kernel unavailable and no valid Register last-known-good cache exists"

  -- The new file and the result; `_write_cache` reads back what it wrote, which was verified.
  abbrev pub take_snapshot :
      Bool → Bool → Option Json → Option Fields → Try Fields → Option Json × Try Fields
  take_snapshot fresh persist file cached (returns s) =
      (if persist then some (obj s) else file, returns s)
  take_snapshot fresh persist file cached (error t) = (file, fall_back fresh cached)
  take_snapshot fresh persist file cached (crash t) = (file, crash t)

  -- The reply to the request.
  unfoldable pub receive :
      Bool → Bool → Option Json → Option Fields → Reply → Option Json × Try Fields
  unfolding verify_value
  receive fresh persist file cached (replied size body etag) =
      take_snapshot fresh persist file cached (read_body size body)
  receive fresh persist file (some s) (http_error code t) =
      if nat_eq code 304 then (file, returns s) else (file, fall_back fresh (some s))
  receive fresh persist file none (http_error code t) = (file, fall_back fresh none)
  receive fresh persist file cached (failed t) = (file, fall_back fresh cached)

  -- The address and the `If-None-Match` of the request.
  abbrev pub revision_tag : Option Fields → String
  revision_tag none = ""
  revision_tag (some s) = elim (get_field "revision" s) [
    | some (str r) ↦ "\"" +++ (r +++ "\"")
    | _ ↦ ""
  ]

  unfoldable pub request_snapshot :
      (String → String → Reply)
      → String
      → Bool
      → Bool
      → Option Json
      → Try (Option Fields)
      → Option Json × Try Fields
  unfolding receive rstrip_slash get_field
  request_snapshot net url fresh persist file (returns cached) =
      receive fresh persist file cached
        (net (rstrip_slash url +++ "/api/v1/register/snapshot") (revision_tag cached))
  request_snapshot net url fresh persist file (error t) = (file, error t)
  request_snapshot net url fresh persist file (crash t) = (file, crash t)

  -- `load_snapshot`: the file after it, and the snapshot. Without a Kernel it is the empty one.
  unfoldable pub load_snapshot :
      (String → String → Reply)
      → String
      → String
      → Bool
      → Bool
      → Option Json
      → Option Json × Try Fields
  unfolding read_cache request_snapshot
  load_snapshot net url token fresh persist file =
      if url == "" && token == ""
      then (file, returns end)
      else if url == "" || token == ""
      then (file, error "KERNEL_URL and KERNEL_SERVICE_TOKEN must be configured together")
      else request_snapshot net url fresh persist file (last_known_good (read_cache file))
