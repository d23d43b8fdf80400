-- ===== src/RequestPolicy.antt =====
-- app/request_policy.py: `validate_browser_origin` and `validate_csrf`, and `csrf_token` of
-- app/security.py.
pub mod Client
pub mod Boundary
use perimetr.Prelude.{
  ℕ, String, Bool, true, false, not, Option, none, some, ◌==◌, ◌!=◌, ◌&&◌, ◌||◌, nat_eq,
  if◌then◌else◌, or_else,
}
use perimetr.Http.{Outcome, done, ◌>>◌, refuse_if}
use perimetr.Platform.{Origin}
use perimetr.Settings.{Env}
use perimetr.Pods.Config.{is_empty_text}

-- The parts of `starlette.requests.Request` that the policy reads; an absent header is `none`.
pub record Request : Type 0 where
  pub method : String
  pub origin : Option String
  pub sec_fetch_site : Option String
  pub x_csrf_token : Option String

abbrev pub is_safe_method : String → Bool
is_safe_method m = m == "GET" || m == "HEAD" || m == "OPTIONS"

abbrev pub same_text : Option String → Option String → Bool
same_text none none = true
same_text (some a) (some b) = a == b
same_text _ _ = false

-- `value.port or (443 if value.scheme == "https" else 80)`
abbrev pub default_port : Origin → ℕ
default_port o = if o.scheme == "https" then 443 else 80

abbrev pub effective_port : Origin → ℕ
effective_port o = if nat_eq (or_else o.port 0) 0 then default_port o else or_else o.port 0

module _ (env : Env) where
  unfoldable pub same_origin : Origin → Origin → Bool
  same_origin a b =
      env.platform.lower a.scheme == env.platform.lower b.scheme
      && same_text a.hostname b.hostname
      && nat_eq (effective_port a) (effective_port b)

  -- The observed address names an origin and nothing else.
  unfoldable pub is_bare : Origin → Bool
  is_bare o =
      is_empty_text o.username
      && is_empty_text o.password
      && o.query == ""
      && o.fragment == ""
      && (o.path == "" || o.path == "/")

  unfoldable pub valid_origin : Option Origin → Option Origin → Bool
  unfolding same_origin is_bare
  valid_origin (some observed) (some expected) = same_origin observed expected && is_bare observed
  valid_origin _ _ = false

  -- `validate_browser_origin`. The public address is one that `urlsplit` accepts.
  unfoldable pub validate_browser_origin : {S : Type 0} → S → Request → Outcome S (Unit {0})
  unfolding valid_origin
  validate_browser_origin db r = if is_safe_method r.method then done tt else do
    refuse_if (or_else r.sec_fetch_site "" == "cross-site") db 403 "Cross-site request denied"
    refuse_if
        (not (is_empty_text r.origin)
          && not (
              valid_origin (env.platform.urlsplit (or_else r.origin ""))
                (env.platform.urlsplit env.settings.perimetr_public_url)))
        db 403 "Cross-site request denied"

  unfoldable pub csrf_token : String → String
  csrf_token session_key_hash = env.platform.hmac_hex session_key_hash "perimetr.csrf.v1"

  -- `validate_csrf`.
  unfoldable pub validate_csrf : {S : Type 0} → S → Request → String → Outcome S (Unit {0})
  unfolding validate_browser_origin csrf_token
  validate_csrf db r session_key_hash = do
    validate_browser_origin db r
    refuse_if
        (not (is_safe_method r.method) && or_else r.x_csrf_token "" != csrf_token session_key_hash)
        db 403 "Refresh the session before submitting this action"
