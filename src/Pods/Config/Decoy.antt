-- ===== src/Pods/Config/Decoy.antt =====
-- What a decoy login is told of the Subject, and what no Subject can change in a configuration.
use perimetr.Prelude.{
  String, ◌≡◌, refl, Bool, false, Option, some, ◌==◌, if◌then◌else◌, arith, ◌∙◌, inl, inr,
  Option-cases,
}
use perimetr.Json.{Json, Fields, str, get_field, set_field, set_default}
use perimetr.Json.Laws.{get_field-set_field}
use perimetr.Http.{done, >>=-eq-done}
use perimetr.Settings.{Settings, Env}
use perimetr.Database.{Subject}
use perimetr.Pods.Config.{
  PodConfig, subject_pod_config, pod_config_for_access, security_policy_for, default_if_set,
  pin_updates,
}

-- Two Subjects that differ at most in their name, identity, tabs and interface policy.
pub record LookAlike (a b : Subject) : Type 0 where
  pub same_connection : a.vless_uri_encrypted ≡ b.vless_uri_encrypted
  pub same_network_version : a.network_profile_version ≡ b.network_profile_version
  pub same_channel : a.update_channel ≡ b.update_channel
  pub same_security : a.security_policy ≡ b.security_policy

-- The decoy configuration does not depend on who the Subject is: two Subjects with the same
-- connection, network version, update channel and security policy get the same decoy configuration,
-- whatever their names, identifiers, tabs and interface policies.
pub decoy_config-LookAlike :
    {S : Type 0} (env : Env) (db : S) (a b : Subject)
    → LookAlike a b
    → pod_config_for_access env db a "decoy" ≡ pod_config_for_access env db b "decoy"
unfolding pod_config_for_access subject_pod_config
decoy_config-LookAlike env db a b same =
    rw (same.same_connection, same.same_network_version, same.same_channel, same.same_security)
      (ground arith)

get_field-set_default :
    (k j : String) (v : Json) (fs : Fields)
    → (k == j) ≡ false
    → get_field j (set_default k v fs) ≡ get_field j fs
unfolding set_default
get_field-set_default k j v fs h = elim (Option-cases (get_field k fs)) [
  | inl e ↦ rw (e, set_default) (get_field-set_field k j v fs ∙ if_false _ _ h)
  | inr (w, e) ↦ rw (e, set_default)
]
  where
    if_false : {b : Bool} (x y : Option Json) → b ≡ false → (if b then x else y) ≡ y
    if_false x y e = rw e

get_field-default_if_set :
    (k j value : String) (fs : Fields)
    → (k == j) ≡ false
    → get_field j (default_if_set k value fs) ≡ get_field j fs
unfolding default_if_set
get_field-default_if_set k j value fs h = ground (arith, get_field-set_default k j (str value) fs h)

module _ (s : Settings) (policy : Fields) (url : (s.perimetr_pod_update_manifest_url == "") ≡ false)
    (key : (s.pod_update_public_key == "") ≡ false) where
  pinned :
      (get_field "update_manifest_url" (pin_updates s policy)
        ≡ some (str s.perimetr_pod_update_manifest_url))
      × (get_field "update_public_key_pem" (pin_updates s policy)
          ≡ some (str s.pod_update_public_key))
  unfolding pin_updates
  pinned =
      let first = set_field "update_manifest_url" (str s.perimetr_pod_update_manifest_url) policy in
      ground (
        arith,
        get_field-set_field "update_public_key_pem" "update_manifest_url"
            (str s.pod_update_public_key) first,
        get_field-set_field "update_public_key_pem" "update_public_key_pem"
            (str s.pod_update_public_key) first,
        get_field-set_field "update_manifest_url" "update_manifest_url"
            (str s.perimetr_pod_update_manifest_url) policy,
      )

  security_policy-pinned :
      (get_field "update_manifest_url" (security_policy_for s policy)
        ≡ some (str s.perimetr_pod_update_manifest_url))
      × (get_field "update_public_key_pem" (security_policy_for s policy)
          ≡ some (str s.pod_update_public_key))
  unfolding security_policy_for
  security_policy-pinned =
      let p = pin_updates s policy in
      let q = default_if_set "xray_dns_url" s.perimetr_xray_dns_url p in
      (
        get_field-default_if_set "proxy_verification_url" "update_manifest_url"
              s.perimetr_proxy_verification_url q refl
            ∙ get_field-default_if_set "xray_dns_url" "update_manifest_url" s.perimetr_xray_dns_url
                p refl
            ∙ pinned.0,
        get_field-default_if_set "proxy_verification_url" "update_public_key_pem"
              s.perimetr_proxy_verification_url q refl
            ∙ get_field-default_if_set "xray_dns_url" "update_public_key_pem"
                s.perimetr_xray_dns_url p refl
            ∙ pinned.1,
      )

subject_pod_config-policy :
    {S : Type 0} (env : Env) (db : S) (s : Subject) (config : PodConfig)
    → subject_pod_config env db s ≡ done config
    → config.security_policy ≡ security_policy_for env.settings s.security_policy
unfolding subject_pod_config
subject_pod_config-policy env db s config h = ground arith

-- The policy is the same in both modes.
pod_config-policy :
    {S : Type 0} (env : Env) (db : S) (s : Subject) (mode : String) (config : PodConfig)
    → pod_config_for_access env db s mode ≡ done config
    → config.security_policy ≡ security_policy_for env.settings s.security_policy
unfolding pod_config_for_access
pod_config-policy env db s mode config h =
    let (made, e, h') = >>=-eq-done (subject_pod_config env db s) _ h in
    let policy = subject_pod_config-policy env db s made e in ground arith

-- Where the release address and key are both known, every configuration that a Pod is sent, in full
-- or for the decoy login, carries exactly these two in its security policy, whatever the Subject's
-- own policy says.
pub pod_config-IsPinned :
    {S : Type 0} (env : Env) (db : S) (s : Subject) (mode : String) (config : PodConfig)
    → (env.settings.perimetr_pod_update_manifest_url == "") ≡ false
    → (env.settings.pod_update_public_key == "") ≡ false
    → pod_config_for_access env db s mode ≡ done config
    → (get_field "update_manifest_url" config.security_policy
        ≡ some (str env.settings.perimetr_pod_update_manifest_url))
      × (get_field "update_public_key_pem" config.security_policy
          ≡ some (str env.settings.pod_update_public_key))
pod_config-IsPinned env db s mode config url key h =
    rw (pod_config-policy env db s mode config h)
      (security_policy-pinned env.settings s.security_policy url key)
