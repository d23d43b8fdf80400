-- ===== src/Artifacts/Ready/Available.antt =====
-- A refresh gives an artifact wherever there is one already.
use Prim.Native.Nat.{lt}
use perimetr.Prelude.{
  String, ◌≡◌, ◌≢◌, refl, ◌∙◌, subst, ap, Bool, true, false, some, ◌==◌, is_some, if◌then◌else◌,
}
use perimetr.Artifacts.{Artifact, Try, returns, error, crash, Runtime, State, Cache, Network}
use perimetr.Artifacts.Version.{compare_versions}
use perimetr.Artifacts.Manifest.{is_sha256}
use perimetr.Artifacts.Stored.{state_fallback}
use perimetr.Artifacts.Latest.{
  with_current, checked_state, failed_state, refresh, recover, settle, without_repository,
  with_fallback, ensure_latest_pod_artifact, ensure_from,
}
use perimetr.Artifacts.Ready.{IsSound}
use perimetr.Artifacts.Ready.Fallback.{state_fallback-IsFound}
use perimetr.Artifacts.Ready.Latest.{IsGiven, IsUpgrade}
use perimetr.Artifacts.Ready.Ensure.{IsEnd, with_fallback-IsEnd, IsFound-IsSound}

-- A call ends with an artifact.
IsOk : Cache × Try Artifact → Type 0
IsOk r = (c : Cache) × (a : Artifact) × (r ≡ (c, returns a))

module _ (env : Runtime) (net : Network) (force : Bool) (f : Artifact) where
  settle-IsOk :
      (s : State) (c : Cache) (m : Try (Cache × Artifact)) → IsOk (settle env (some f) s c m)
  unfolding IsOk settle recover
  settle-IsOk s c (returns (c', a)) = (c', a, refl)
  settle-IsOk s c (error t) =
      (record c { state = failed_state env t s }, record f { refresh_error = t }, refl)
  settle-IsOk s c (crash t) =
      (record c { state = failed_state env t s }, record f { refresh_error = t }, refl)

  with_fallback-IsOk : (c : Cache) → IsOk (with_fallback env net force (some f) c)
  unfolding with_fallback without_repository IsOk
  with_fallback-IsOk c =
      chosen (env.platform.strip env.perimetr_pod_repository_url == "") (is_some c.state.current)
    where
      s : State
      s = with_current (some f) c.state

      chosen :
          (b d : Bool)
          → IsOk (
              if b
              then (if d
                  then (c, returns f)
                  else (record c { state = checked_state env "" s }, returns f))
              else settle env (some f) s c (refresh env net force (some f) s c))
      chosen true true = (c, f, refl)
      chosen true false = (record c { state = checked_state env "" s }, f, refl)
      chosen false d = settle-IsOk s c (refresh env net force (some f) s c)

  -- Where the cache or the bundle has an artifact, a call gives one, whatever the repository answers,
  -- and its version is not before the one that was there. The cache is sound and a digest has the
  -- shape of one.
  pub ensure_latest_pod_artifact-available :
      (c found : Cache)
      → ((content : String) → is_sha256 (env.digest content) ≡ true)
      → IsSound env c
      → state_fallback env c ≡ returns (found, some f)
      → (c' : Cache) × (a : Artifact) × (ensure_latest_pod_artifact env net force c
          ≡ (c', returns a))
        × (compare_versions env.platform a.version f.version ≢ some lt)
  unfolding ensure_latest_pod_artifact ensure_from IsEnd IsGiven IsUpgrade IsOk
  ensure_latest_pod_artifact-available c found shape sound e =
      let here = state_fallback-IsFound env shape c sound e in
      let (c', a, q) = with_fallback-IsOk found in
      let end =
        with_fallback-IsEnd env net force found (IsFound-IsSound env found (some f) here) (some f)
          here in
      (c', a, ap (ensure_from env net force c) e ∙ q, (subst (IsEnd env (some f)) q end).1)
