-- ===== src/Artifacts/Ready/Ensure.antt =====
-- The theorems on `ensure_latest_pod_artifact`.
use perimetr.Prelude.{
  ◌≤◌, String, ◌≡◌, refl, subst, Bool, true, false, Option, none, some, ◌==◌, is_some,
  if◌then◌else◌,
}
use perimetr.Prelude.Text.{text_length, truncate}
use perimetr.Artifacts.{
  Artifact, Try, returns, error, crash, >>=-eq-returns, raise_if->>-returns, returns-injective,
  Runtime, State, Cache, Network,
}
use perimetr.Artifacts.Manifest.{is_sha256, pod_discovery_url}
use perimetr.Artifacts.Stored.{state_fallback}
use perimetr.Artifacts.Latest.{
  with_current, is_fresh, poll, is_no_file, checked_state, failed_state, refresh, recover, settle,
  without_repository, with_fallback, ensure_latest_pod_artifact, or_fallback, ensure_from,
}
use perimetr.Artifacts.Ready.{IsSound, IsLeft, IsReady, is_intact-returns}
use perimetr.Artifacts.Ready.Fallback.{IsFound, state_fallback-IsFound}
use perimetr.Artifacts.Ready.Latest.{IsGiven, kept-IsGiven, poll-IsGiven}

module _ (env : Runtime) where
  -- How a call ends: with an artifact that is given, or with an error and a sound cache.
  unfoldable pub IsEnd : Option Artifact → Cache × Try Artifact → Type 0
  IsEnd fallback (c, returns a) = IsGiven env fallback (c, a)
  IsEnd fallback (c, error t) = IsSound env c
  IsEnd fallback (c, crash t) = IsSound env c

  module _ (net : Network) (force : Bool) (c : Cache) (sound : IsSound env c) where
    fresh-IsGiven :
        (f : Artifact) (url : String) (s : State) (b : Bool) {r : Cache × Artifact}
        → IsReady env c f.sha256 f.version
        → (if b then returns (c, f) else poll env net url (some f) s c) ≡ returns r
        → IsGiven env (some f) r
    unfolding IsFound IsLeft
    fresh-IsGiven f url s true ready h =
        subst (IsGiven env (some f)) (returns-injective h)
          (kept-IsGiven env c sound f c.state f.refresh_error ready)
    fresh-IsGiven f url s false ready h =
        poll-IsGiven env net url c sound (some f) s (sound, ready) h

    refresh-IsGiven :
        (fallback : Option Artifact) (s : State) {r : Cache × Artifact}
        → IsFound env (c, fallback)
        → refresh env net force fallback s c ≡ returns r
        → IsGiven env fallback r
    unfolding refresh or_fallback IsFound IsLeft
    refresh-IsGiven fallback s {r} f h =
        let (url, _, h1) =
          >>=-eq-returns
            (pod_discovery_url env (env.platform.strip env.perimetr_pod_repository_url)) _ h in
        let (_, h2) = raise_if->>-returns (is_no_file env.trusted_key) _ _ h1 in
        after url fallback f h2
      where
        after :
            (url : String) (o : Option Artifact)
            → IsFound env (c, o)
            → or_fallback env net force url o s c ≡ returns r
            → IsGiven env o r
        after url none found h = poll-IsGiven env net url c sound none s found h
        after url (some a) (_, ready) h =
            fresh-IsGiven a url s (is_fresh env force (some a) s) ready h

    recover-IsEnd :
        (fallback : Option Artifact) (s : State) (text : String)
        → IsFound env (c, fallback)
        → IsEnd fallback (recover env fallback s text c)
    unfolding recover IsEnd IsFound IsLeft IsSound
    recover-IsEnd none s text f = f
    recover-IsEnd (some a) s text (_, ready) =
        kept-IsGiven env c sound a (failed_state env text s) text ready

    settle-IsEnd :
        (fallback : Option Artifact) (s : State) (m : Try (Cache × Artifact))
        → IsFound env (c, fallback)
        → ((r : Cache × Artifact) → m ≡ returns r → IsGiven env fallback r)
        → IsEnd fallback (settle env fallback s c m)
    unfolding settle IsEnd
    settle-IsEnd fallback s (returns (c', a)) f h = h (c', a) refl
    settle-IsEnd fallback s (error t) f h = recover-IsEnd fallback s t f
    settle-IsEnd fallback s (crash t) f h = recover-IsEnd fallback s t f

    without_repository-IsEnd :
        (fallback : Option Artifact)
        → IsFound env (c, fallback)
        → IsEnd fallback (without_repository env fallback c)
    unfolding without_repository IsEnd IsFound IsLeft
    without_repository-IsEnd none f = f
    without_repository-IsEnd (some a) (_, ready) = chosen (is_some c.state.current)
      where
        given : (s : State) → IsGiven env (some a) (record c { state = s }, a)
        given s = kept-IsGiven env c sound a s a.refresh_error ready

        chosen :
            (b : Bool)
            → IsEnd (some a) (
                if b then (c, returns a) else (
                  record c { state = checked_state env "" (with_current (some a) c.state) },
                  returns a,
                ))
        chosen true = given c.state
        chosen false = given (checked_state env "" (with_current (some a) c.state))

    pub with_fallback-IsEnd :
        (fallback : Option Artifact)
        → IsFound env (c, fallback)
        → IsEnd fallback (with_fallback env net force fallback c)
    unfolding with_fallback
    with_fallback-IsEnd fallback f =
        chosen (env.platform.strip env.perimetr_pod_repository_url == "")
      where
        s : State
        s = with_current fallback c.state

        chosen :
            (b : Bool)
            → IsEnd fallback (
                if b
                then without_repository env fallback c
                else settle env fallback s c (refresh env net force fallback s c))
        chosen true = without_repository-IsEnd fallback f
        chosen false =
            settle-IsEnd fallback s (refresh env net force fallback s c) f
              (λ r h. refresh-IsGiven fallback s f h)

  -- Soundness of the cache, whatever the call ends with.
  IsEnd-IsSound :
      (fallback : Option Artifact) (r : Cache × Try Artifact) → IsEnd fallback r → IsSound env r.0
  unfolding IsEnd IsGiven IsLeft
  IsEnd-IsSound fallback (c, returns a) ((s, _), _) = s
  IsEnd-IsSound fallback (c, error t) s = s
  IsEnd-IsSound fallback (c, crash t) s = s

  pub IsFound-IsSound : (c : Cache) (o : Option Artifact) → IsFound env (c, o) → IsSound env c
  unfolding IsFound IsLeft
  IsFound-IsSound c none s = s
  IsFound-IsSound c (some a) (s, _) = s

module _ (env : Runtime) (shape : (content : String) → is_sha256 (env.digest content) ≡ true)
    (net : Network) (force : Bool) (c : Cache) (sound : IsSound env c) where
  ensure_from-IsEnd :
      (m : Try (Cache × Option Artifact))
      → state_fallback env c ≡ m
      → (fallback : Option Artifact) × IsEnd env fallback (ensure_from env net force c m)
  unfolding ensure_from IsEnd
  ensure_from-IsEnd (returns (c', o)) e =
      let f = state_fallback-IsFound env shape c sound e in
      (o, with_fallback-IsEnd env net force c' (IsFound-IsSound env c' o f) o f)
  ensure_from-IsEnd (error t) e = (none, sound)
  ensure_from-IsEnd (crash t) e = (none, sound)

  -- If every executable of the cache stands under its digest and has the size and the header of an
  -- executable, this is so after a call, whatever the repository answers and however the call ends.
  pub ensure_latest_pod_artifact-IsSound :
      IsSound env (ensure_latest_pod_artifact env net force c).0
  unfolding ensure_latest_pod_artifact
  ensure_latest_pod_artifact-IsSound =
      let (o, e) = ensure_from-IsEnd (state_fallback env c) refl in IsEnd-IsSound env o _ e

  module _ (c' : Cache) (a : Artifact)
      (given : ensure_latest_pod_artifact env net force c ≡ (c', returns a)) where
    pub ensure-IsLeft : IsLeft env (c', a)
    unfolding ensure_latest_pod_artifact IsEnd IsGiven
    ensure-IsLeft =
        let (o, e) = ensure_from-IsEnd (state_fallback env c) refl in
        (subst (IsEnd env o) given e).0

    -- If every executable of the cache stood under its digest, with the size and the header of an
    -- executable, and a digest has the shape of one, the artifact that is given has its executable in
    -- the cache, in the slot of its digest: the bytes have that digest, the header of an executable,
    -- and no more than the configured size.
    pub ensure_latest_pod_artifact-IsCached :
        (content : String) × ((c'.slots a.sha256).executable ≡ some content)
        × (env.digest content ≡ a.sha256)
        × (truncate 2 content ≡ "MZ")
        × (text_length content ≤ env.perimetr_pod_max_artifact_bytes)
    unfolding IsLeft
    ensure_latest_pod_artifact-IsCached =
        let (_, ready) = ensure-IsLeft in
        let (content, e, x, q, _) =
          is_intact-returns env a.sha256 (c'.slots a.sha256) ready.intact in
        (content, e, q, x.header, x.small)
