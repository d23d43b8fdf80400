-- ===== src/Security/Startup.antt =====
-- `validate_runtime_settings` of app/security.py: what production does not start with.
use perimetr.Prelude.{
  ℕ, ◌*◌, String, Bool, true, false, not, List, [], ◌∷◌, ◌++◌, ◌==◌, ◌!=◌, ◌&&◌, ◌||◌, ltb, leb,
  is_some, any, if◌then◌else◌,
}
use perimetr.Prelude.Text.{text_length}
use Prim.Native.String.{◌∷◌ as cons, [] as nil}
use perimetr.Platform.{Platform}
use perimetr.Kernel.References.{after_exact}

pub record StartSettings : Type 0 where
  pub perimetr_env : String
  pub perimetr_pod_signing_secret : String
  pub kernel_service_token : String
  pub updater_control_token : String
  pub perimetr_database_url : String
  pub perimetr_cookie_secure : Bool
  pub perimetr_public_url : String
  pub kernel_url : String
  -- the file of `perimetr_pod_update_public_key_path` is a P-256 key
  pub has_update_key : Bool
  pub perimetr_pod_refresh_sec : ℕ
  -- in milliseconds
  pub perimetr_pod_download_timeout : ℕ
  pub perimetr_pod_max_artifact_bytes : ℕ

-- `marker in text`
unfoldable pub has_marker : String → String → Bool
unfolding after_exact
has_marker marker nil = is_some (after_exact marker "")
has_marker marker (cons c s) = is_some (after_exact marker (cons c s)) || has_marker marker s

-- `PLACEHOLDER_MARKERS`
abbrev pub markers : List String
markers = "change-this" ∷ ("replace-with" ∷ ("example-password" ∷ ("perimetr-entry-password" ∷ [])))

abbrev pub starts_with : String → String → Bool
starts_with prefix s = is_some (after_exact prefix s)

-- `if test: issues.append(text)`
abbrev pub issue : Bool → String → List String
issue true text = text ∷ []
issue false text = []

module _ (p : Platform) where
  -- `_is_placeholder`
  unfoldable pub is_placeholder : String → Bool
  unfolding has_marker
  is_placeholder value =
      let lowered = p.lower (p.strip value) in
      lowered == "" || any (λ m. has_marker m lowered) markers

  -- A secret that is too short, or a placeholder.
  abbrev pub is_weak : ℕ → String → Bool
  is_weak n secret = ltb (text_length secret) n || is_placeholder secret

  -- The issues, in the order of the checks.
  unfoldable pub issues : StartSettings → List String
  unfolding is_placeholder after_exact
  issues s =
      issue (is_weak 32 s.perimetr_pod_signing_secret)
        "PERIMETR_POD_SIGNING_SECRET must contain at least 32 non-placeholder characters"
      ++ issue (is_weak 24 s.kernel_service_token)
          "KERNEL_SERVICE_TOKEN must contain at least 24 non-placeholder characters"
      ++ issue (is_weak 32 s.updater_control_token)
          "UPDATER_CONTROL_TOKEN must contain at least 32 non-placeholder characters"
      ++ issue
          (not (
            starts_with "postgresql://" s.perimetr_database_url
            || starts_with "postgresql+psycopg://" s.perimetr_database_url))
          "PERIMETR_DATABASE_URL must use PostgreSQL in production"
      ++ issue (is_placeholder s.perimetr_database_url)
          "PERIMETR_DATABASE_URL contains a placeholder credential"
      ++ issue (not s.perimetr_cookie_secure) "PERIMETR_COOKIE_SECURE must be true in production"
      ++ issue (not (starts_with "https://" s.perimetr_public_url))
          "Perimetr public URL resolved from Kernel Register must use HTTPS in production"
      ++ issue (not (starts_with "https://" s.kernel_url)) "KERNEL_URL must use HTTPS in production"
      ++ issue (not s.has_update_key)
          "PERIMETR_POD_UPDATE_PUBLIC_KEY_PATH must reference the trusted Pod ECDSA public key"
      ++ issue (not (leb 60 s.perimetr_pod_refresh_sec && leb s.perimetr_pod_refresh_sec 86400))
          "PERIMETR_POD_REFRESH_SEC must be between 60 and 86400"
      ++ issue
          (not (
            leb 10000 s.perimetr_pod_download_timeout
            && leb s.perimetr_pod_download_timeout 900000))
          "PERIMETR_POD_DOWNLOAD_TIMEOUT_SEC must be between 10 and 900"
      ++ issue
          (not (
            leb (10 * (1024 * 1024)) s.perimetr_pod_max_artifact_bytes
            && leb s.perimetr_pod_max_artifact_bytes (1024 * (1024 * 1024))))
          "PERIMETR_POD_MAX_ARTIFACT_BYTES must be between 10 MiB and 1 GiB"

  -- `validate_runtime_settings`: the issues that its `RuntimeError` names; none is a start.
  unfoldable pub validate_runtime_settings : StartSettings → List String
  unfolding issues
  validate_runtime_settings s =
      if p.lower (p.strip s.perimetr_env) != "production" then [] else issues s
