-- ===== src/Artifacts/Manifest/Signed.antt =====
-- What a manifest has that passes `_verify_manifest`.
use perimetr.Prelude.{
  String, ◌≡◌, refl, sym, true, false, not, Option, none, some, ◌!=◌, ◌||◌, is_some, eq_of_test,
  not-false,
}
use perimetr.Prelude.Text.{cut}
use perimetr.Json.{Json, Fields, str, get_field, set_field, drop_field}
use perimetr.Pods.Config.{is_empty_text}
use perimetr.Artifacts.{
  returns, >>=-eq-returns, raise_if-returns, raise_if->>-returns, returns-injective, Runtime,
  TrustedKey, no_file, unreadable, not_p256, p256,
}
use perimetr.Artifacts.Version.{semver}
use perimetr.Artifacts.Manifest.{
  is_sha256, str_of, is_text, check_product, check_channel, check_version, address, check_file,
  trusted_key, key_of, verify_manifest, require_semver,
}

is_some-none {ℓ} : {A : Type ℓ} {o : Option A} → is_some o ≡ false → o ≡ none
is_some-none {o = none} h = refl
is_some-none {o = some a} h = cc

module _ (env : Runtime) where
  pub require_semver-returns :
      (v : String) {u : Unit {0}}
      → require_semver env v ≡ returns u
      → is_some (semver env.platform v) ≡ true
  unfolding require_semver
  require_semver-returns v h =
      not-false (raise_if-returns (not (is_some (semver env.platform v))) _ h)

  pub is_text-eq : (o : Option Json) (t : String) → is_text env t o ≡ true → o ≡ some (str t)
  is_text-eq (some (str u)) t h = rw (eq_of_test u t h) refl
  is_text-eq o t h = cc

module _ (env : Runtime) (m : Fields) where
  check_channel-stable :
      {u : Unit {0}} → check_channel env m ≡ returns u → get_field "channel" m ≡ some (str "stable")
  unfolding check_channel
  check_channel-stable h =
      is_text-eq env (get_field "channel" m) "stable"
        (not-false (raise_if-returns (not (is_text env "stable" (get_field "channel" m))) _ h))

  check_version-release :
      {u : Unit {0}}
      → check_version env m ≡ returns u
      → (is_some (semver env.platform (str_of env (get_field "version" m))) ≡ true)
        × (cut b'-' (str_of env (get_field "version" m)) ≡ none)
  unfolding check_version
  check_version-release h =
      let (_, e, h1) =
        >>=-eq-returns (require_semver env (str_of env (get_field "version" m))) _ h in
      let (p, _) =
        raise_if->>-returns (is_some (cut b'-' (str_of env (get_field "version" m)))) _ _ h1 in
      (require_semver-returns env (str_of env (get_field "version" m)) e, is_some-none p)

  check_file-digest :
      {u : Unit {0}}
      → check_file env m ≡ returns u
      → is_sha256 (env.platform.lower (str_of env (get_field "sha256" m))) ≡ true
  unfolding check_file
  check_file-digest h =
      let (a, _, h1) = >>=-eq-returns (address env (str_of env (get_field "url" m))) _ h in
      let (_, h2) = raise_if->>-returns (a.scheme != "https" || is_empty_text a.hostname) _ _ h1 in
      let (p, _) =
        raise_if->>-returns
          (not (is_sha256 (env.platform.lower (str_of env (get_field "sha256" m))))) _ _ h2 in
      not-false p

  key-eq : (k : TrustedKey) {key : String} → key_of k ≡ returns key → k ≡ p256 key
  key-eq no_file h = cc
  key-eq unreadable h = cc
  key-eq not_p256 h = cc
  key-eq (p256 key) h = cc

  trusted_key-eq : {key : String} → trusted_key env ≡ returns key → env.trusted_key ≡ p256 key
  unfolding trusted_key
  trusted_key-eq h = key-eq env.trusted_key h

  -- A manifest that passes `_verify_manifest` has a signature of the rest of it that the trusted key
  -- accepts, is of the stable channel, and has a version without a suffix; what is returned names the
  -- digest in lower case, in the shape of a SHA-256.
  pub verify_manifest-signed :
      (m' : Fields)
      → verify_manifest env m ≡ returns m'
      → (key : String) × (env.trusted_key ≡ p256 key)
        × (env.verify key (drop_field "signature" m) (str_of env (get_field "signature" m)) ≡ true)
        × (get_field "channel" m ≡ some (str "stable"))
        × (is_some (semver env.platform (str_of env (get_field "version" m))) ≡ true)
        × (cut b'-' (str_of env (get_field "version" m)) ≡ none)
        × (is_sha256 (env.platform.lower (str_of env (get_field "sha256" m))) ≡ true)
        × (m' ≡ set_field "sha256" (str (env.platform.lower (str_of env (get_field "sha256" m)))) m)
  unfolding verify_manifest
  verify_manifest-signed m' h =
      let (_, _, h1) = >>=-eq-returns (check_product env m) _ h in
      let (_, c, h2) = >>=-eq-returns (check_channel env m) _ h1 in
      let (_, v, h3) = >>=-eq-returns (check_version env m) _ h2 in
      let (_, f, h4) = >>=-eq-returns (check_file env m) _ h3 in
      let (key, k, h5) = >>=-eq-returns (trusted_key env) _ h4 in
      let (s, h6) =
        raise_if->>-returns
          (not (env.verify key (drop_field "signature" m) (str_of env (get_field "signature" m)))) _
          _ h5 in
      let (release, plain) = check_version-release v in
      (
        key,
        trusted_key-eq k,
        not-false s,
        check_channel-stable c,
        release,
        plain,
        check_file-digest f,
        sym (returns-injective h6),
      )
