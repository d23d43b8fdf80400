-- ===== src/Pods/Config.antt =====
-- app/pod_service.py: the connection that a Subject is given, and the configuration that is sent to
-- a Pod, in full or for the decoy login.
pub mod Decoy
use Prim.Native.Char.{Char, code}
use Prim.Native.String
use Prim.Native.String.{String, [], ◌∷◌}
use perimetr.Prelude.{
  ℕ, ◌+◌, Bool, true, false, not, Option, none, some, ◌==◌, ◌!=◌, ◌&&◌, ◌||◌, ltb, leb, nat_eq,
  if◌then◌else◌, List, or_else, is_some, any,
}
use mathlib.Core.List
use perimetr.Json.{Json, Fields, Number, str, end, field, set_field, set_default}
use perimetr.Http.{Outcome, done, deny, ◌>>=◌, ◌>>◌, refuse_if}
use perimetr.Platform.{Platform, Url}
use perimetr.Settings.{Settings, Env}
use perimetr.Database.{Subject, SystemTab, Database}
use perimetr.Pods.Credentials.{decrypt_secret, ◌+++◌}

-- `not value` for an optional text or port.
abbrev pub is_empty_text : Option String → Bool
is_empty_text none = true
is_empty_text (some s) = s == ""

abbrev pub is_empty_port : Option ℕ → Bool
is_empty_port none = true
is_empty_port (some n) = nat_eq n 0

abbrev pub is_vless_security : String → Bool
is_vless_security s = s == "none" || s == "tls" || s == "reality"

abbrev pub is_vless_transport : String → Bool
is_vless_transport s =
    s == "tcp" || s == "ws" || s == "grpc" || s == "http" || s == "httpupgrade" || s == "xhttp"

-- `text.rstrip("/")`.
unfoldable pub rstrip_slash : String → String
rstrip_slash [] = []
rstrip_slash (c ∷ s) =
    let rest = rstrip_slash s in if nat_eq (code c) b'/' && rest == "" then [] else c ∷ rest

module _ (env : Env) where
  -- `validate_vless_uri`.
  unfoldable pub validate_vless_uri : {S : Type 0} → S → String → Outcome S String
  validate_vless_uri db value = do
    let candidate = env.platform.strip value
    let parsed = env.platform.urlparse candidate
    refuse_if
        (env.platform.lower parsed.scheme != "vless"
          || is_empty_text parsed.username
          || is_empty_text parsed.hostname
          || is_empty_port parsed.port)
        db 400 "invalid_vless_connection"
    refuse_if (not (env.platform.is_vless_identity (or_else parsed.username ""))) db 400
        "invalid_vless_identity"
    let security = env.platform.lower (or_else (parsed.query "security") "none")
    let transport = env.platform.lower (or_else (parsed.query "type") "tcp")
    refuse_if (not (is_vless_security security)) db 400 ("unsupported_vless_security:" +++ security)
    refuse_if (not (is_vless_transport transport)) db 400
        ("unsupported_vless_transport:" +++ transport)
    done candidate

  -- `validate_subject_pod_config`.
  unfoldable pub validate_subject_pod_config : {S : Type 0} → S → Subject → Outcome S (Unit {0})
  validate_subject_pod_config db subject = do
    uri ← decrypt_secret env db subject.vless_uri_encrypted
    _ ← validate_vless_uri db uri
    refuse_if (env.settings.perimetr_public_url == "") db 400 "perimetr_endpoint_not_configured"
    refuse_if (subject.update_channel == "") db 400 "update_channel_not_configured"

-- `sorted(tabs, key=position)`: insertion, which keeps the order of equal positions.
abbrev pub number_lt : Number → Number → Bool
number_lt (Number.pos a) (Number.pos b) = ltb a b
number_lt (Number.pos a) (Number.negsuc b) = false
number_lt (Number.negsuc a) (Number.pos b) = true
number_lt (Number.negsuc a) (Number.negsuc b) = ltb b a
number_lt _ _ = false

unfoldable pub insert_tab : SystemTab → List SystemTab → List SystemTab
insert_tab t List.[] = List.◌∷◌ t List.[]
insert_tab t (List.◌∷◌ u us) =
    let rest = insert_tab t us in
    if number_lt u.position t.position then List.◌∷◌ u rest else List.◌∷◌ t (List.◌∷◌ u us)

unfoldable pub sort_tabs : List SystemTab → List SystemTab
unfolding insert_tab
sort_tabs List.[] = List.[]
sort_tabs (List.◌∷◌ t ts) = insert_tab t (sort_tabs ts)

-- The dict that `subject_pod_config` builds.
pub record PodConfig : Type 0 where
  pub subject_id : String
  pub subject_name : String
  pub perimetr_endpoint : String
  pub vless_connection : String
  pub network_profile_version : ℕ
  pub system_tabs : List SystemTab
  pub system_tabs_profile_version : ℕ
  pub update_channel : String
  pub ui_policy : Fields
  pub security_policy : Fields
  pub minimum_pod_version : String
  pub default_navigation_url : String

-- The release key and address override what the Subject's policy says; the other two are defaults.
unfoldable pub default_if_set : String → String → Fields → Fields
unfolding set_default
default_if_set key value policy = if value != "" then set_default key (str value) policy else policy

unfoldable pub pin_updates : Settings → Fields → Fields
unfolding set_field
pin_updates s policy =
    if s.perimetr_pod_update_manifest_url != "" && s.pod_update_public_key != ""
    then set_field "update_public_key_pem" (str s.pod_update_public_key)
        (set_field "update_manifest_url" (str s.perimetr_pod_update_manifest_url) policy)
    else policy

unfoldable pub security_policy_for : Settings → Fields → Fields
unfolding pin_updates default_if_set
security_policy_for s policy =
    default_if_set "proxy_verification_url" s.perimetr_proxy_verification_url
      (default_if_set "xray_dns_url" s.perimetr_xray_dns_url (pin_updates s policy))

-- `subject_pod_config`.
unfoldable pub subject_pod_config : {S : Type 0} → Env → S → Subject → Outcome S PodConfig
unfolding security_policy_for rstrip_slash sort_tabs
subject_pod_config env db subject = do
  uri ← decrypt_secret env db subject.vless_uri_encrypted
  done (record {
    subject_id = subject.entity_id;
    subject_name = subject.name;
    perimetr_endpoint = rstrip_slash env.settings.perimetr_public_url;
    vless_connection = uri;
    network_profile_version = subject.network_profile_version;
    system_tabs = sort_tabs subject.system_tabs;
    system_tabs_profile_version = subject.system_tabs_profile_version;
    update_channel = subject.update_channel;
    ui_policy = subject.ui_policy;
    security_policy = security_policy_for env.settings subject.security_policy;
    minimum_pod_version = env.settings.perimetr_pod_version;
    default_navigation_url = env.settings.perimetr_default_pod_url;
  })

abbrev pub decoy_config : PodConfig → PodConfig
decoy_config config = record config {
  subject_id = "";
  subject_name = "Pod";
  system_tabs = List.[];
  system_tabs_profile_version = 0;
  ui_policy = end;
  default_navigation_url = "https://www.google.com/";
}

-- `pod_config_for_access`.
unfoldable pub pod_config_for_access :
    {S : Type 0} → Env → S → Subject → String → Outcome S PodConfig
pod_config_for_access env db subject mode = do
  config ← subject_pod_config env db subject
  done (if mode != "decoy" then config else decoy_config config)
