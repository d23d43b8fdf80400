-- ===== src/Kernel/Connection.antt =====
-- app/kernel_connection.py: the routes that check and change the origin and the token of the Kernel.
pub mod Rotation
use Prim.Native.Char.{Char, code}
use perimetr.Prelude.{
  ℕ, String, Bool, true, false, not, Option, none, some, ◌==◌, ◌!=◌, ◌&&◌, ◌||◌, ltb, or_else,
  if◌then◌else◌,
}
use perimetr.Json.{Json, Fields, str, obj, end, field, get_field}
use perimetr.Http.{Outcome, done, deny, ◌>>=◌, ◌>>◌, refuse_if}
use perimetr.Platform.{Origin}
use perimetr.Settings.{Env}
use perimetr.Database.{Database}
use perimetr.Audit.{Report, audit}
use perimetr.RateLimiter.{LoginRateLimiter, check, fail, success}
use perimetr.Security.{verify_password}
use perimetr.Pods.Config.{rstrip_slash, is_empty_text}
use perimetr.Pods.Credentials.{◌+++◌}
use perimetr.Artifacts.{Try, returns, error, crash, Reply}
use perimetr.Artifacts.Version.{all_chars}
use perimetr.Kernel.{Register, RegisterSettings}
use perimetr.Kernel.Snapshot.{load_snapshot}
use perimetr.Kernel.Apply.{apply_register}

-- The row `perimetr.kernel` of the settings table.
pub record OriginRow : Type 0 where
  pub url : String
  pub helper_sync_required : Bool

-- What the routes change: the row, the file of the token, the limiter, and the tables.
pub record Link : Type 0 where
  pub origin : Option OriginRow
  pub token : String
  pub limiter : LoginRateLimiter
  pub db : Database

-- The settings, the cached snapshot, and the replies of a Kernel to a snapshot request (at the token,
-- the address and the `If-None-Match`) and to a resolution (at the address and the token).
pub record Surroundings : Type 0 where
  pub register : Register
  pub current : RegisterSettings
  pub kernel_url : String
  pub is_development : Bool
  pub kernel_register_stale : Bool
  pub file : Option Json
  pub snapshot : String → String → String → Reply
  pub resolution : String → String → Reply

-- `https`, or a local `http` address in development.
abbrev pub is_allowed_scheme : Bool → Origin → Bool
is_allowed_scheme development o =
    o.scheme == "https"
    || development
      && o.scheme == "http"
      && (or_else o.hostname "" == "localhost" || or_else o.hostname "" == "127.0.0.1")

abbrev pub is_kernel_origin : Bool → Origin → Bool
is_kernel_origin development o =
    not (is_empty_text o.hostname)
    && is_empty_text o.username
    && is_empty_text o.password
    && o.query == ""
    && o.fragment == ""
    && (o.path == "" || o.path == "/")
    && is_allowed_scheme development o

-- What `read` shows.
pub record Shown : Type 0 where
  pub url : String
  pub token_configured : Bool
  pub register_stale : Bool
  pub helper_sync_required : Bool

module _ (env : Env) (w : Surroundings) where
  -- `valid_url`
  unfoldable pub valid_url : Link → Json → Outcome Link String
  unfolding rstrip_slash
  valid_url l (str s) = elim (env.platform.urlsplit s) [
    | none ↦ deny l 422 "Invalid Kernel origin"
    | some o ↦
        refuse_if (not (is_kernel_origin w.is_development o)) l 422
          "Kernel URL must be an HTTPS origin without credentials"
        >> done (rstrip_slash s)
  ]
  valid_url l v = deny l 422 "Supply a Kernel origin"

  abbrev pub invalid_register : String
  invalid_register =
      "Kernel authentication or Register validation failed; previous configuration retained"

  -- Only a `KernelRegisterError` is handled.
  abbrev pub probed : {A : Type 0} → Link → Try A → Outcome Link A
  probed l (returns a) = done a
  probed l (error t) = deny l 502 invalid_register
  probed l (crash t) = deny l 500 t

  -- `probe`: the revision of a fresh snapshot, which is not stored, after it was applied to a copy of
  -- the settings.
  unfoldable pub probe : Link → String → String → Outcome Link (Option Json)
  unfolding load_snapshot apply_register get_field
  probe l url token = do
    refuse_if (token == "") l 409 "Configure the Kernel service token first"
    snapshot ← probed l (load_snapshot w.register (w.snapshot token) url token true false w.file).1
    _ ← probed l (apply_register w.register (w.resolution url token) snapshot w.current)
    done (get_field "revision" snapshot)

  unfoldable pub read : Link → Shown
  read l = record {
    url = elim l.origin [ some r ↦ r.url | none ↦ w.kernel_url ];
    token_configured = l.token != "";
    register_stale = w.kernel_register_stale;
    helper_sync_required = elim l.origin [ some r ↦ r.helper_sync_required | none ↦ false ];
  }

  -- `check`: the revision that the Kernel has.
  unfoldable pub check_connection : Link → Outcome Link (Option Json)
  unfolding probe
  check_connection l = probe l w.kernel_url l.token

  abbrev pub changed_report : String → String → Report
  changed_report action id = record {
    actor_type = "operator";
    actor_id = "core";
    action = action;
    target_type = "settings";
    target_id = id;
    payload = obj end;
    result = obj (field "outcome" (str "success") end);
  }

  -- The body of a change of the origin has one key.
  abbrev pub origin_payload : Fields → Option Json
  origin_payload (field k v end) = if k == "url" then some v else none
  origin_payload _ = none

  -- `save`
  unfoldable pub save : Fields → Link → Outcome Link (Link × Shown)
  unfolding valid_url probe read
  save payload l = do
    value ← elim (origin_payload payload) [
      | some v ↦ done v
      | none ↦ deny l 422 "Only the Kernel origin belongs to this setting"
    ]
    url ← valid_url l value
    _ ← probe l url l.token
    let saved = record l {
      origin = some (record { url = url; helper_sync_required = true });
      db = audit env 0 (changed_report "kernel.origin.changed" "kernel") l.db;
    }
    done (saved, read saved)

  -- The body of a change of the token: two texts.
  abbrev pub token_payload : Fields → Option (String × String)
  token_payload (field k (str v) (field j (str u) end)) =
      if k == "current_key" && j == "token"
      then some (v, u)
      else if k == "token" && j == "current_key"
      then some (u, v)
      else none
  token_payload _ = none

  -- Printable ASCII without the space.
  abbrev pub is_token_char : Char → Bool
  is_token_char c = not (ltb (code c) 33) && not (ltb 126 (code c))

  -- The check of the Access Key behind the limiter, whose state outlives a refusal.
  unfoldable pub check_key : ℕ → String → String → Link → Outcome Link Link
  unfolding check fail success verify_password
  check_key clock identity key l = do
    let (decision, limiter) = check l.limiter identity clock
    let checked : Link = record l { limiter = limiter }
    refuse_if (not decision.allowed) checked 429 "Too many unsuccessful key checks"
    refuse_if (not (verify_password env.platform key l.db.access_key_hash))
        (record l { limiter = fail limiter identity clock }) 403 "Current Access Key is incorrect"
    done (record l { limiter = success limiter identity })

  abbrev pub required_payload : Link → Option (String × String) → Outcome Link (String × String)
  required_payload l (some p) = done p
  required_payload l none = deny l 422 "Supply the current Access Key and replacement machine token"

  abbrev pub origin_of : Link → String
  origin_of l = elim l.origin [ some r ↦ r.url | none ↦ w.kernel_url ]

  -- `rotate`, at the clock of the limiter and the address of the client.
  unfoldable pub rotate : ℕ → String → Fields → Link → Outcome Link Link
  unfolding check_key probe all_chars
  rotate clock client payload l = do
    (key, token) ← elim (token_payload payload) [
      | some p ↦ done p
      | none ↦ deny l 422 "Supply the current Access Key and replacement machine token"
    ]
    known ← check_key clock ("kernel-rotation:" +++ client) key l
    refuse_if (token == "" || not (all_chars is_token_char token)) known 422
        "Invalid machine token transport encoding"
    _ ← probe known w.kernel_url token
    done (record known {
      origin = some (record { url = origin_of known; helper_sync_required = true });
      token = token;
      db = audit env 0 (changed_report "kernel.credential.changed" "kernel") known.db;
    })

-- `main` with the argument `synced`: the helper has the new origin and token.
unfoldable pub synced : Link → Link
synced l = elim l.origin [
  | none ↦ l
  | some r ↦ record l { origin = some (record r { helper_sync_required = false }) }
]
