-- ===== src/Artifacts/Ready/Fallback.antt =====
-- What `_store_local_artifact`, `_factory_artifact` and `_state_fallback` leave in the cache.
use perimetr.Prelude.{
  ℕ, String, ◌≡◌, refl, sym, ◌∙◌, subst, ap, true, Option, none, some, is_some, or_else, arith,
  eq_iff, inl, inr, ◌⊎◌,
}
use perimetr.Prelude.Text.{text_length}
use perimetr.Json.{str, get_field}
use perimetr.Artifacts.{Artifact, returns, >>=-eq-returns, returns-injective, Runtime, Cache}
use perimetr.Artifacts.Version.{semver}
use perimetr.Artifacts.Manifest.{is_sha256, require_semver}
use perimetr.Artifacts.Manifest.Signed.{require_semver-returns}
use perimetr.Artifacts.Stored.{
  put_slot, hash_executable, text_or, load_artifact, store_local_artifact, bundled, or_factory,
  factory_artifact, state_fallback, current_digest, local_slot, local_artifact,
}
use perimetr.Artifacts.Ready.{
  IsExecutable, IsSound, IsLeft, IsReady, hash_executable-returns, is_intact-eq, load_artifact-some,
  put_slot-IsSound, put_slot-IsReady,
}

module _ (env : Runtime) where
  pub text_or-str : (v : String) → text_or env "" (some (str v)) ≡ v
  text_or-str v = ground (arith, eq_iff v "")

  -- Either the file that stands there, or the new one.
  or_else-cases :
      (o : Option String) (x y : String) → some (or_else o x) ≡ some y → (o ≡ some y) ⊎ (x ≡ y)
  or_else-cases none x y h = inr (ground (arith, h))
  or_else-cases (some z) x y h = inl h

  local-IsLeft :
      (content v : String) (c : Cache)
      → is_sha256 (env.digest content) ≡ true
      → is_some (semver env.platform v) ≡ true
      → IsExecutable env content
      → IsSound env c
      → (n : ℕ)
      → IsLeft env (
        put_slot
            (env.digest content)
            (local_slot env content v (env.digest content) n (c.slots (env.digest content)))
            c,
        local_artifact env v (env.digest content) n,
      )
  unfolding IsLeft get_field IsSound
  local-IsLeft content v c shape valid x s n =
      let kept : (y : String)
          → some (or_else (c.slots (env.digest content)).executable content) ≡ some y
          → IsExecutable env y × (env.digest y ≡ env.digest content) =
        λ y q. elim (or_else-cases (c.slots (env.digest content)).executable content y q) [
          | inl e ↦ s (env.digest content) y e
          | inr e ↦
              subst (λ z. IsExecutable env z × (env.digest z ≡ env.digest content)) e (x, refl)
        ] in
      let file = or_else (c.slots (env.digest content)).executable content in
      let (small, same) = kept file refl in
      (
        put_slot-IsSound env c (env.digest content) _ s kept,
        put_slot-IsReady env c (env.digest content) v _ shape
            (is_intact-eq env (env.digest content) file _ refl small same
              (rw (text_or-str v) valid))
            (text_or-str v),
      )

  pub store_local_artifact-IsLeft :
      (content v : String) (c : Cache) {r : Cache × Artifact}
      → ((s : String) → is_sha256 (env.digest s) ≡ true)
      → IsSound env c
      → store_local_artifact env content v c ≡ returns r
      → IsLeft env r
  unfolding store_local_artifact
  store_local_artifact-IsLeft content v c shape s h =
      let (_, e, h') = >>=-eq-returns (require_semver env v) _ h in
      let (r, e', h'') = >>=-eq-returns (hash_executable env (some content)) _ h' in
      let (x, q) = hash_executable-returns env content e' in
      subst (IsLeft env)
        (ap
            (λ (d, n).
              (put_slot d (local_slot env content v d n (c.slots d)) c, local_artifact env v d n))
            (sym q)
          ∙ returns-injective h'')
        (local-IsLeft content v c (shape content) (require_semver-returns env v e) x s
          (text_length content))

  -- What is found before the repository is asked: no artifact, or one that is left in the cache.
  unfoldable pub IsFound : Cache × Option Artifact → Type 0
  IsFound (c, none) = IsSound env c
  IsFound (c, some a) = IsLeft env (c, a)

  module _ (shape : (s : String) → is_sha256 (env.digest s) ≡ true) (c : Cache) (s : IsSound env c)
      {r : Cache × Option Artifact} where
    bundled-IsFound : (o : Option String) → bundled env o c ≡ returns r → IsFound r
    unfolding bundled IsFound
    bundled-IsFound none h = subst IsFound (returns-injective h) s
    bundled-IsFound (some content) h =
        let (p, e, h') =
          >>=-eq-returns (store_local_artifact env content env.perimetr_pod_version c) _ h in
        subst IsFound (returns-injective h')
          (store_local_artifact-IsLeft content env.perimetr_pod_version c shape s e)

    or_factory-IsFound :
        (o : Option Artifact)
        → load_artifact env c (current_digest env c.state) ≡ o
        → or_factory env o c ≡ returns r
        → IsFound r
    unfolding or_factory factory_artifact IsFound IsLeft
    or_factory-IsFound none e h = bundled-IsFound env.bundle h
    or_factory-IsFound (some a) e h =
        let (ready, q) = load_artifact-some env c (current_digest env c.state) e in
        subst IsFound (returns-injective h)
          (s, subst (λ d. IsReady env c d a.version) (sym (ap Artifact.sha256 q)) ready)

    pub state_fallback-IsFound : state_fallback env c ≡ returns r → IsFound r
    unfolding state_fallback
    state_fallback-IsFound h =
        or_factory-IsFound (load_artifact env c (current_digest env c.state)) refl h
