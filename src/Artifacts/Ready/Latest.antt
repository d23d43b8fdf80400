-- ===== src/Artifacts/Ready/Latest.antt =====
-- What `ensure_latest_pod_artifact` gives and leaves in the cache.
use Prim.Native.Nat.{lt}
use mathlib.Core.Bool.{true≢false}
use perimetr.Prelude.{
  String, ◌≡◌, ◌≢◌, refl, sym, ◌∙◌, subst, ap, Bool, true, false, not, Option, none, some, ◌&&◌,
  is_some, if◌then◌else◌, nat_eq,
}
use perimetr.Json.{Fields, str, get_field}
use perimetr.Json.Laws.{get_field-set_field}
use perimetr.Artifacts.{
  Artifact, returns, crash, >>=-eq-returns, raise_if->>-returns, returns-injective, Runtime, State,
  Cache, Reply, replied, http_error, failed, Network,
}
use perimetr.Artifacts.Version.{compare_versions}
use perimetr.Artifacts.Version.Order.{compare_versions_self}
use perimetr.Artifacts.Manifest.{str_of, is_text, verify_manifest, require_semver}
use perimetr.Prelude.{not-false}
use perimetr.Artifacts.Manifest.Signed.{verify_manifest-signed, is_text-eq}
use perimetr.Artifacts.Stored.{load_artifact}
use perimetr.Artifacts.Download.{
  read_manifest_response, fetch_executable, as_download_error, download_new, reuse_or_download,
  download_artifact,
}
use perimetr.Artifacts.Latest.{
  request_etag, read_reply, check_upgrade, is_below, take_release, take_reply, poll, released_state,
  unchanged_state,
}
use perimetr.Artifacts.Ready.{IsSound, IsLeft, IsReady}
use perimetr.Artifacts.Ready.Fallback.{IsFound}
use perimetr.Artifacts.Ready.Fetched.{IsRelease, download_artifact-IsLeft}

module _ (env : Runtime) where
  pub state-IsLeft :
      (c : Cache) (a : Artifact) (s : State)
      → IsLeft env (c, a)
      → IsLeft env (record c { state = s }, a)
  unfolding IsLeft IsSound
  state-IsLeft c a s (sound, r) =
      (sound, record { shape = r.shape; intact = r.intact; version = r.version })

  pub verify_manifest-IsRelease :
      (m : Fields) {m' : Fields} → verify_manifest env m ≡ returns m' → IsRelease env m'
  unfolding get_field
  verify_manifest-IsRelease m {m'} h =
      let (_, _, _, _, release, _, shape, e) = verify_manifest-signed env m m' h in
      let d = str (env.platform.lower (str_of env (get_field "sha256" m))) in
      rw e (record {
        shape = rw (get_field-set_field "sha256" "sha256" d m) shape;
        version = rw (get_field-set_field "sha256" "version" d m) release;
      })

  -- The version of a downloaded artifact is that of its manifest.
  download_new-version :
      (net : Network) (m : Fields) (c : Cache) {r : Cache × Artifact}
      → download_new env net m c ≡ returns r
      → r.1.version ≡ str_of env (get_field "version" m)
  unfolding download_new
  download_new-version net m c h =
      let (_, _, h') = >>=-eq-returns (as_download_error (fetch_executable env net m)) _ h in
      sym (ap (λ r. Artifact.version r.1) (returns-injective h'))

  reuse-version :
      (net : Network) (m : Fields) (o : Option Artifact) (c : Cache) {r : Cache × Artifact}
      → reuse_or_download env net m o c ≡ returns r
      → r.1.version ≡ str_of env (get_field "version" m)
  unfolding reuse_or_download
  reuse-version net m none c h = download_new-version net m c h
  reuse-version net m (some a) c h =
      let (p, h') =
        raise_if->>-returns (not (is_text env a.version (get_field "version" m))) _ _ h in
      sym (ap (λ r. Artifact.version r.1) (returns-injective h'))
      ∙ sym (ap (str_of env) (is_text-eq env (get_field "version" m) a.version (not-false p)))

  pub download_artifact-version :
      (net : Network) (m : Fields) (c : Cache) {r : Cache × Artifact}
      → download_artifact env net m c ≡ returns r
      → r.1.version ≡ str_of env (get_field "version" m)
  unfolding download_artifact
  download_artifact-version net m c h =
      reuse-version net m (load_artifact env c (str_of env (get_field "sha256" m))) c h

  -- The artifact is not older than the one that was found before.
  unfoldable pub IsUpgrade : Option Artifact → Artifact → Type 0
  IsUpgrade none a = Unit
  IsUpgrade (some f) a = compare_versions env.platform a.version f.version ≢ some lt

  check_upgrade-IsUpgrade :
      (fallback : Option Artifact) (m : Fields) (a : Artifact) {u : Unit {0}}
      → check_upgrade env fallback m ≡ returns u
      → a.version ≡ str_of env (get_field "version" m)
      → IsUpgrade fallback a
  unfolding check_upgrade IsUpgrade
  check_upgrade-IsUpgrade none m a h e = tt
  check_upgrade-IsUpgrade (some f) m a h e =
      let version = str_of env (get_field "version" m) in
      let (_, _, h1) = >>=-eq-returns (require_semver env version) _ h in
      let (_, _, h2) = >>=-eq-returns (require_semver env f.version) _ h1 in
      let (p, _) =
        raise_if->>-returns (is_below (compare_versions env.platform version f.version)) _ _ h2 in
      let below = λ (v : String). is_below (compare_versions env.platform v f.version) in
      λ q. true≢false (sym (ap below (sym e) ∙ ap is_below q) ∙ p)

  -- What is given: an artifact that is ready in the cache, and no older than the one before.
  unfoldable pub IsGiven : Option Artifact → Cache × Artifact → Type 0
  IsGiven fallback r = IsLeft env r × IsUpgrade fallback r.1

  IsUpgrade-self : (f : Artifact) (a : Artifact) → a.version ≡ f.version → IsUpgrade (some f) a
  unfolding IsUpgrade
  IsUpgrade-self f a e =
      subst (λ v. compare_versions env.platform v f.version ≢ some lt) (sym e)
        (compare_versions_self env.platform f.version)

  IsReleased : Option (Fields × String) → Type 0
  IsReleased none = Unit
  IsReleased (some (m, etag)) = IsRelease env m

  not_modified-IsReleased :
      (b : Bool) (t : String) {o : Option (Fields × String)}
      → (if b then returns none else crash t) ≡ returns o
      → IsReleased o
  unfolding IsReleased
  not_modified-IsReleased true t h = subst IsReleased (returns-injective h) tt
  not_modified-IsReleased false t h = cc

  read_reply-IsReleased :
      (b : Bool) (p : Reply) {o : Option (Fields × String)}
      → read_reply env b p ≡ returns o
      → IsReleased o
  unfolding read_reply IsReleased
  read_reply-IsReleased b (replied size body etag) h =
      let (m, _, h1) = >>=-eq-returns (read_manifest_response size body) _ h in
      let (v, e, h2) = >>=-eq-returns (verify_manifest env m) _ h1 in
      subst IsReleased (returns-injective h2) (verify_manifest-IsRelease m e)
  read_reply-IsReleased b (http_error code t) h = not_modified-IsReleased (nat_eq code 304 && b) t h
  read_reply-IsReleased b (failed t) h = cc

  -- The artifact that was found before is given unchanged but for its error, with any state.
  pub kept-IsGiven :
      (c : Cache) (sound : IsSound env c) (f : Artifact) (s : State) (text : String)
      → IsReady env c f.sha256 f.version
      → IsGiven (some f) (record c { state = s }, record f { refresh_error = text })
  unfolding IsGiven IsLeft
  kept-IsGiven c sound f s text ready = (
    state-IsLeft c (record f { refresh_error = text }) s (sound, ready),
    IsUpgrade-self f (record f { refresh_error = text }) refl,
  )

  module _ (net : Network) (url : String) (c : Cache) (sound : IsSound env c)
      {r : Cache × Artifact} where
    take_release-IsGiven :
        (fallback : Option Artifact) (m : Fields) (etag : String)
        → IsRelease env m
        → take_release env net url fallback (m, etag) c ≡ returns r
        → IsGiven fallback r
    unfolding take_release IsGiven
    take_release-IsGiven fallback m etag v h =
        let (_, u, h1) = >>=-eq-returns (check_upgrade env fallback m) _ h in
        let ((c', a), d, h2) = >>=-eq-returns (download_artifact env net m c) _ h1 in
        subst (IsGiven fallback) (returns-injective h2) (
          state-IsLeft c' a (released_state env url etag a)
              (download_artifact-IsLeft env net m v c sound d),
          check_upgrade-IsUpgrade fallback m a u (download_artifact-version net m c d),
        )

    take_reply-IsGiven :
        (fallback : Option Artifact) (s : State) (o : Option (Fields × String))
        → IsFound env (c, fallback)
        → IsReleased o
        → take_reply env net url fallback s o c ≡ returns r
        → IsGiven fallback r
    unfolding take_reply IsFound IsLeft IsReleased
    take_reply-IsGiven fallback s (some (m, etag)) f v h = take_release-IsGiven fallback m etag v h
    take_reply-IsGiven (some f) s none (_, ready) v h =
        subst (IsGiven (some f)) (returns-injective h)
          (kept-IsGiven c sound f (unchanged_state env url s) f.refresh_error ready)
    take_reply-IsGiven none s none f v h = cc

    pub poll-IsGiven :
        (fallback : Option Artifact) (s : State)
        → IsFound env (c, fallback)
        → poll env net url fallback s c ≡ returns r
        → IsGiven fallback r
    unfolding poll
    poll-IsGiven fallback s f h =
        let p = net.discover url (request_etag env url s) in
        let (o, e, h') = >>=-eq-returns (read_reply env (is_some fallback) p) _ h in
        take_reply-IsGiven fallback s o f (read_reply-IsReleased (is_some fallback) p e) h'
