-- ===== src/Artifacts/Ready/Pinned.antt =====
-- The theorems on `resolve_pinned_pod_artifact`.
use perimetr.Prelude.{
  String, ◌≡◌, refl, sym, ◌∙◌, subst, ap, Bool, true, not, Option, none, some, ◌!=◌, eq_of_test,
  eq_self,
}
use perimetr.Json.{Json, Fields, null, bool, num, str, arr, obj, end, field, get_field}
use perimetr.Artifacts.{
  Artifact, returns, >>=-eq-returns, raise_if->>-returns, returns-injective, Runtime, Cache,
  Network,
}
use perimetr.Artifacts.Manifest.{is_sha256, str_of, is_text, verify_manifest}
use perimetr.Prelude.{not-false}
use perimetr.Artifacts.Stored.{load_artifact, loaded}
use perimetr.Artifacts.Download.{
  fetch_executable, as_download_error, download_new, reuse_or_download, download_artifact,
}
use perimetr.Artifacts.Latest.{ensure_latest_pod_artifact}
use perimetr.Artifacts.Pinned.{redownload, find_pinned, from_manifest, resolve_pinned_pod_artifact}
use perimetr.Artifacts.Ready.{
  IsSound, IsLeft, IsReady, is_intact-returns, load_artifact-some, load_artifact-IsReady,
}
use perimetr.Artifacts.Ready.Fetched.{download_artifact-IsReady}
use perimetr.Artifacts.Ready.Latest.{verify_manifest-IsRelease}
use perimetr.Artifacts.Ready.Ensure.{ensure-IsLeft}

module _ (env : Runtime)
    (idempotent : (t : String) → env.platform.lower (env.platform.lower t) ≡ env.platform.lower t)
    (net : Network) (digest : String) (c : Cache) where
  lowered : String
  lowered = env.platform.lower digest

  reuse-sha256 :
      (m : Fields) (o : Option Artifact) {r : Cache × Artifact}
      → str_of env (get_field "sha256" m) ≡ lowered
      → load_artifact env c (str_of env (get_field "sha256" m)) ≡ o
      → reuse_or_download env net m o c ≡ returns r
      → r.1.sha256 ≡ lowered
  unfolding reuse_or_download download_new lowered
  reuse-sha256 m none q e h =
      let (_, _, h') = >>=-eq-returns (as_download_error (fetch_executable env net m)) _ h in
      sym (ap (λ r. Artifact.sha256 r.1) (returns-injective h')) ∙ q
  reuse-sha256 m (some a) q e h =
      let (_, l) = load_artifact-some env c (str_of env (get_field "sha256" m)) e in
      let (_, h') =
        raise_if->>-returns (not (is_text env a.version (get_field "version" m))) _ _ h in
      sym (ap (λ r. Artifact.sha256 r.1) (returns-injective h'))
      ∙ ap Artifact.sha256 l
      ∙ ap env.platform.lower q
      ∙ idempotent digest

  -- What is found: an artifact of the digest, which is in the cache.
  IsPinned : Cache × Artifact → Type 0
  IsPinned (c', a) = IsReady env c' a.sha256 a.version × (a.sha256 ≡ lowered)

  module _ (version : String) {r : Cache × Artifact} where
    redownload-IsPinned :
        (m : Fields) → redownload env net lowered version m c ≡ returns r → IsPinned r
    unfolding redownload IsPinned download_artifact
    redownload-IsPinned m h =
        let (v, e, h1) = >>=-eq-returns (verify_manifest env m) _ h in
        let (p, h2) = raise_if->>-returns (str_of env (get_field "sha256" v) != lowered) _ _ h1 in
        let (_, h3) =
          raise_if->>-returns (not (is_text env version (get_field "version" v))) _ _ h2 in
        let ((c', a), d, h4) = >>=-eq-returns (download_artifact env net v c) _ h3 in
        let q = eq_of_test (str_of env (get_field "sha256" v)) lowered (not-false p) in
        subst IsPinned (returns-injective h4) (
          download_artifact-IsReady env net v (verify_manifest-IsRelease env m e) c d,
          reuse-sha256 v _ q refl d,
        )

    from_manifest-IsPinned :
        (m : Option Json) → from_manifest env net lowered version m c ≡ returns r → IsPinned r
    unfolding from_manifest
    from_manifest-IsPinned (some (obj (field k v fs))) h = redownload-IsPinned (field k v fs) h
    from_manifest-IsPinned (some (obj end)) h = cc
    from_manifest-IsPinned (some null) h = cc
    from_manifest-IsPinned (some (bool b)) h = cc
    from_manifest-IsPinned (some (num n)) h = cc
    from_manifest-IsPinned (some (str s)) h = cc
    from_manifest-IsPinned (some (arr vs)) h = cc
    from_manifest-IsPinned none h = cc

    find_pinned-IsPinned :
        (m : Option Json) (o : Option Artifact)
        → load_artifact env c lowered ≡ o
        → find_pinned env net lowered version m o c ≡ returns r
        → IsPinned r
    unfolding find_pinned IsPinned lowered
    find_pinned-IsPinned m none e h = from_manifest-IsPinned m h
    find_pinned-IsPinned m (some a) e h =
        let (ready, l) = load_artifact-some env c lowered e in
        subst IsPinned (returns-injective h) (
          subst (λ d. IsReady env c d a.version) (sym (ap Artifact.sha256 l)) ready,
          ap Artifact.sha256 l ∙ idempotent digest,
        )

  -- What is resolved for a pinned digest and version has both, and its executable is in the cache with
  -- that digest, whatever was in the cache before, damaged files included. Putting a text in lower
  -- case twice is the same as once.
  pub resolve_pinned_pod_artifact-exact :
      (version : String) (m : Option Json) (c' : Cache) (a : Artifact)
      → resolve_pinned_pod_artifact env net digest version m c ≡ returns (c', a)
      → (a.version ≡ version)
        × (a.sha256 ≡ env.platform.lower digest)
        × (content : String) × ((c'.slots a.sha256).executable ≡ some content)
        × (env.digest content ≡ a.sha256)
  unfolding resolve_pinned_pod_artifact IsPinned lowered
  resolve_pinned_pod_artifact-exact version m c' a h =
      let ((d, b), e, h1) =
        >>=-eq-returns (find_pinned env net lowered version m (load_artifact env c lowered) c) _
          h in
      let (p, h2) = raise_if->>-returns (b.version != version) _ _ h1 in
      let ((ready, q), v) =
        subst (λ r. IsPinned r × (Artifact.version r.1 ≡ version)) (returns-injective h2)
          (
            find_pinned-IsPinned version m (load_artifact env c lowered) refl e,
            eq_of_test b.version version (not-false p),
          ) in
      let (content, f, _, g, _) = is_intact-returns env a.sha256 (c'.slots a.sha256) ready.intact in
      (v, q, content, f, g)

module _ (env : Runtime) (shape : (content : String) → is_sha256 (env.digest content) ≡ true)
    (stable : (t : String) → is_sha256 t ≡ true → env.platform.lower t ≡ t) where
  load-left :
      (c : Cache) (d v : String)
      → IsReady env c d v
      → load_artifact env c d ≡ some (loaded env d (c.slots d).metadata)
  load-left c d v ready =
      let l = stable d ready.shape in
      subst (λ k. load_artifact env c d ≡ some (loaded env k (c.slots k).metadata)) l
        (load_artifact-IsReady env c d v (subst (λ k. IsReady env c k v) (sym l) ready))

  -- If every executable of the cache stood under its digest, with the size and the header of an
  -- executable, the digest and the version of an artifact that `ensure_latest_pod_artifact` gave
  -- resolve to an artifact of the same digest and version, from the cache that it left and without a
  -- change of it, whatever the network answers and whatever manifest was stored. A digest has the
  -- shape of one, and a text of that shape is in lower case.
  pub resolve_pinned-ensure_latest :
      (net net' : Network) (force : Bool) (m : Option Json) (c c' : Cache) (a : Artifact)
      → IsSound env c
      → ensure_latest_pod_artifact env net force c ≡ (c', returns a)
      → (b : Artifact) × (resolve_pinned_pod_artifact env net' a.sha256 a.version m c'
          ≡ returns (c', b))
        × (b.version ≡ a.version)
        × (b.sha256 ≡ a.sha256)
        × (b.source ≡ "pinned-cache")
  unfolding resolve_pinned_pod_artifact find_pinned IsLeft
  resolve_pinned-ensure_latest net net' force m c c' a sound given =
      let (_, ready) = ensure-IsLeft env shape net force c sound c' a given in
      let l = stable a.sha256 ready.shape in
      let b : Artifact = record (loaded env a.sha256 (c'.slots a.sha256).metadata) {
        source = "pinned-cache";
      } in
      (
        b,
        rw (l, load-left c' a.sha256 a.version ready, ready.version, eq_self a.version) refl,
        ready.version,
        refl,
        refl,
      )
