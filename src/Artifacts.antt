-- ===== src/Artifacts.antt =====
-- app/pod_artifacts.py: the releases of the Pod program, which are discovered, verified and cached.
-- The network, the bundle of the installation, the trusted key and the digest are parameters.
pub mod Version
pub mod Manifest
pub mod Stored
pub mod Download
pub mod Latest
pub mod Pinned
pub mod Ready
mod Tests
use perimetr.Prelude.{ℕ, String, Bool, Option, List, ◌≡◌, refl}
use perimetr.Json.{Json, Fields}
use perimetr.Platform.{Platform}

-- `PodArtifact`, without the path of the file: `pod.exe` of the cache's slot of `sha256`.
pub record Artifact : Type 0 where
  pub version : String
  pub sha256 : String
  pub source : String
  pub manifest : Fields
  pub refresh_error : String

-- A result, the text of the module's own exception (`PodArtifactError`; in app/kernel_register.py
-- `KernelRegisterError`), or the text of another one.
pub data Try {ℓ} (A : Type ℓ) : Type ℓ where
  returns : A → Try A
  error crash : String → Try A

infixl 5 ◌>>=◌ ◌>>◌
abbrev pub ◌>>=◌ : {A B : Type 0} → Try A → (A → Try B) → Try B
error text >>= next = error text
crash text >>= next = crash text
returns a >>= next = next a

-- The same where the first result is not needed.
abbrev pub ◌>>◌ : {B : Type 0} → Try (Unit {0}) → Try B → Try B
attempt >> rest = attempt >>= λ u. rest

-- `if test: raise PodArtifactError(text)`
abbrev pub raise_if : Bool → String → Try (Unit {0})
raise_if Bool.true text = error text
raise_if Bool.false text = returns tt

-- Both parts of a sequence that returns do so.
pub >>=-eq-returns :
    {A B : Type 0} (attempt : Try A) (next : A → Try B) {r : B}
    → (attempt >>= next) ≡ returns r
    → (x : A) × (attempt ≡ returns x) × (next x ≡ returns r)
>>=-eq-returns (error text) next h = cc
>>=-eq-returns (crash text) next h = cc
>>=-eq-returns (returns x) next h = (x, refl, h)

pub returns-injective : {A : Type 0} {a b : A} → returns a ≡ returns b → a ≡ b
returns-injective h = cc

pub raise_if-returns :
    (b : Bool) (text : String) {u : Unit {0}} → raise_if b text ≡ returns u → b ≡ Bool.false
raise_if-returns Bool.true text h = cc
raise_if-returns Bool.false text h = refl

pub raise_if->>-returns :
    {A : Type 0} (b : Bool) (text : String) (k : Try A) {a : A}
    → (raise_if b text >> k) ≡ returns a
    → (b ≡ Bool.false) × (k ≡ returns a)
raise_if->>-returns Bool.true text k h = cc
raise_if->>-returns Bool.false text k h = (refl, h)

-- What the program reads of `urlparse(text)`.
pub record Address : Type 0 where
  pub scheme : String
  pub hostname : Option String
  pub path : String
  pub query : String
  pub fragment : String

-- The file of `perimetr_pod_update_public_key_path`: none, not a public key, a key that is not an
-- ECDSA P-256 key, or one that is.
pub data TrustedKey : Type 0 where
  no_file unreadable not_p256 : TrustedKey
  p256 : String → TrustedKey

-- The settings that are read, and what is taken from Python's library and the installation.
pub record Runtime : Type 0 where
  pub platform : Platform
  -- `str(value)` of a value that is not a text
  pub show : Json → String
  -- whether the float of a literal is equal to a number
  pub float_is : String → ℕ → Bool
  -- `none`: a `ValueError`
  pub urlparse : String → Option Address
  -- `hashlib.sha256(content).hexdigest()`; the characters of a content are its bytes
  pub digest : String → String
  -- `public_key.verify(b64decode(signature), _canonical_json(unsigned), …)`; false is any of the
  -- exceptions that are handled there
  pub verify : String → Fields → String → Bool
  pub trusted_key : TrustedKey
  -- the `pod.exe` of `perimetr_pod_bundle_source`, or of its folder `dist`
  pub bundle : Option String
  -- `time.time()` and `_now_iso()`
  pub now : ℕ
  pub now_iso : String
  pub perimetr_version : String
  pub perimetr_pod_version : String
  pub perimetr_pod_repository_url : String
  pub perimetr_pod_refresh_sec : ℕ
  pub perimetr_pod_max_artifact_bytes : ℕ

-- The bytes of a response, read in chunks, and a connection that breaks.
pub data Stream : Type 0 where
  finished : Stream
  broken : String → Stream
  chunk : String → Stream → Stream

-- The `Content-Length` of a response. A negative one is as good as none.
pub data ContentLength : Type 0 where
  absent not_number : ContentLength
  bytes : ℕ → ContentLength

-- What `opener` gives for the request of a manifest: the body's size and its JSON value (`none`: not
-- JSON) with the `ETag`, an `HTTPError`, or another failure.
pub data Reply : Type 0 where
  replied : ℕ → Option Json → String → Reply
  http_error : ℕ → String → Reply
  failed : String → Reply

-- What it gives for the request of an executable.
pub data Response : Type 0 where
  response : ContentLength → Stream → Response
  no_response : String → Response

-- `opener`, at the address and the `If-None-Match` of a request.
pub record Network : Type 0 where
  pub discover : String → String → Reply
  pub fetch : String → Response

-- The folder of a digest: `pod.exe` and `manifest.json`.
pub record Slot : Type 0 where
  pub executable : Option String
  pub metadata : Fields

-- `state.json`, as the program writes it.
pub record Current : Type 0 where
  pub version : String
  pub sha256 : String
  pub source : String

pub record State : Type 0 where
  pub current : Option Current
  pub manifest_url : String
  pub etag : String
  pub last_checked_at : String
  pub checked_epoch : ℕ
  pub last_error : String

-- The files under `perimetr_pod_cache_dir`.
pub record Cache : Type 0 where
  pub slots : String → Slot
  pub state : State
