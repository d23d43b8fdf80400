-- ===== src/Artifacts/Ready.antt =====
-- An executable in the cache with its digest and a version: what `_load_artifact` gives, and what the
-- functions that fill the cache leave behind.
pub mod Fallback
pub mod Chunks
pub mod Fetched
pub mod Latest
pub mod Ensure
pub mod Available
pub mod Pinned
use perimetr.Prelude.{
  ℕ, ◌≤◌, String, ◌≡◌, refl, sym, ◌∙◌, subst, ap, Bool, true, false, not, Option, none, some, ◌==◌,
  ◌!=◌, ltb, if◌then◌else◌, is_some, or_else, arith, eq_iff, inl, inr, Bool-cases, Option-cases,
  eq_of_test, eq_self, leb-false→lt,
}
use perimetr.Prelude.Text.{text_length, truncate}
use perimetr.Json.{Json, Fields, str, get_field}
use perimetr.Artifacts.{
  Artifact, Try, returns, error, crash, ◌>>=◌, ◌>>◌, raise_if, >>=-eq-returns, raise_if-returns,
  Runtime, Slot, Cache,
}
use perimetr.Artifacts.Version.{semver}
use perimetr.Artifacts.Manifest.{is_sha256, require_semver}
use perimetr.Artifacts.Stored.{
  put_slot, hash_executable, text_or, loaded, has_digest, is_intact, load_artifact,
  store_local_artifact, factory_artifact, state_fallback, current_digest, local_manifest,
}

-- A file that `_hash_executable` accepts.
pub record IsExecutable (env : Runtime) (content : String) : Type 0 where
  pub small : text_length content ≤ env.perimetr_pod_max_artifact_bytes
  pub header : truncate 2 content ≡ "MZ"

-- Every file of the cache is accepted, and stands under its digest.
unfoldable pub IsSound : Runtime → Cache → Type 0
IsSound env c =
    (d content : String)
    → (c.slots d).executable ≡ some content
    → IsExecutable env content × (env.digest content ≡ d)

-- The slot of `d` has its executable and the version `v`.
pub record IsReady (env : Runtime) (c : Cache) (d v : String) : Type 0 where
  pub shape : is_sha256 d ≡ true
  pub intact : is_intact env d (c.slots d) ≡ true
  pub version : text_or env "" (get_field "version" (c.slots d).metadata) ≡ v

-- What a function that gives an artifact leaves behind.
unfoldable pub IsLeft : Runtime → Cache × Artifact → Type 0
IsLeft env (c, a) = IsSound env c × IsReady env c a.sha256 a.version

module _ (env : Runtime) where
  pub hash_executable-eq :
      (content : String)
      → IsExecutable env content
      → hash_executable env (some content) ≡ returns (env.digest content, text_length content)
  unfolding hash_executable
  hash_executable-eq content e = ground (arith, e.small, e.header, eq_iff (truncate 2 content) "MZ")

  pub hash_executable-returns :
      (content : String) {r : String × ℕ}
      → hash_executable env (some content) ≡ returns r
      → IsExecutable env content × (r ≡ (env.digest content, text_length content))
  unfolding hash_executable
  hash_executable-returns content h = ground (arith, eq_iff (truncate 2 content) "MZ")

  hash_executable-none : {r : String × ℕ} → hash_executable env none ≡ returns r → ⊥
  unfolding hash_executable
  hash_executable-none h = cc

  pub is_intact-eq :
      (d content : String) (slot : Slot)
      → slot.executable ≡ some content
      → IsExecutable env content
      → env.digest content ≡ d
      → is_some (semver env.platform (text_or env "" (get_field "version" slot.metadata))) ≡ true
      → is_intact env d slot ≡ true
  unfolding is_intact
  is_intact-eq d content slot e x q v =
      rw (ap (hash_executable env) e ∙ hash_executable-eq content x, v)
        (ground (arith, eq_iff (env.digest content) d))

  has_digest-returns :
      (d : String) (v : Bool) (r : Try (String × ℕ))
      → has_digest d v r ≡ true
      → (a : String × ℕ) × (r ≡ returns a) × (a.0 ≡ d) × (v ≡ true)
  has_digest-returns d v (returns (a, n)) h =
      ((a, n), refl, ground (arith, eq_iff a d), ground (arith, eq_iff a d))
  has_digest-returns d v (error t) h = cc
  has_digest-returns d v (crash t) h = cc

  pub is_intact-returns :
      (d : String) (slot : Slot)
      → is_intact env d slot ≡ true
      → (content : String) × (slot.executable ≡ some content)
        × IsExecutable env content
        × (env.digest content ≡ d)
        × (is_some (semver env.platform (text_or env "" (get_field "version" slot.metadata)))
            ≡ true)
  unfolding is_intact
  is_intact-returns d slot h =
      let (a, e, q, v) = has_digest-returns d _ (hash_executable env slot.executable) h in
      elim (Option-cases slot.executable) [
        | inl n ↦ absurd (hash_executable-none (sym (ap (hash_executable env) n) ∙ e))
        | inr (content, s) ↦
            let (x, r) = hash_executable-returns content (sym (ap (hash_executable env) s) ∙ e) in
            (content, s, x, sym (ap (λ p. p.0) r) ∙ q, v)
      ]

  tested-twice {ℓ} :
      {A : Type ℓ} (p q : Bool) (x : A) {y : A}
      → (if p then if q then some x else none else none) ≡ some y
      → (p ≡ true) × (q ≡ true) × (y ≡ x)
  tested-twice p q x h = (ground arith, ground arith, ground arith)

  -- What `_load_artifact` gives.
  pub load_artifact-some :
      (c : Cache) (digest : String) {a : Artifact}
      → load_artifact env c digest ≡ some a
      → IsReady env c (env.platform.lower digest) a.version
        × (a
            ≡ loaded env (env.platform.lower digest) (c.slots (env.platform.lower digest)).metadata)
  unfolding load_artifact
  load_artifact-some c digest {a} h =
      let d = env.platform.lower digest in
      let (p, q, e) = tested-twice (is_sha256 d) (is_intact env d (c.slots d)) _ h in
      (record { shape = p; intact = q; version = ap Artifact.version (sym e) }, e)

  pub load_artifact-IsReady :
      (c : Cache) (digest v : String)
      → IsReady env c (env.platform.lower digest) v
      → load_artifact env c digest
        ≡ some
            (loaded env (env.platform.lower digest) (c.slots (env.platform.lower digest)).metadata)
  unfolding load_artifact
  load_artifact-IsReady c digest v r = rw (r.shape, r.intact) refl

  -- Filling a slot.
  pub put_slot-IsSound :
      (c : Cache) (d : String) (slot : Slot)
      → IsSound env c
      → ((content : String)
          → slot.executable ≡ some content
          → IsExecutable env content × (env.digest content ≡ d))
      → IsSound env (put_slot d slot c)
  unfolding IsSound put_slot
  put_slot-IsSound c d slot s h e content q = chosen (d == e) refl q
    where
      chosen :
          (b : Bool)
          → (d == e) ≡ b
          → (if b then slot else c.slots e).executable ≡ some content
          → IsExecutable env content × (env.digest content ≡ e)
      chosen true t q' = let (x, r) = h content q' in (x, r ∙ eq_of_test d e t)
      chosen false t q' = s e content q'

  pub put_slot-IsReady :
      (c : Cache) (d v : String) (slot : Slot)
      → is_sha256 d ≡ true
      → is_intact env d slot ≡ true
      → text_or env "" (get_field "version" slot.metadata) ≡ v
      → IsReady env (put_slot d slot c) d v
  unfolding put_slot
  put_slot-IsReady c d v slot p q e = record {
    shape = p;
    intact = rw (eq_self d) q;
    version = rw (eq_self d) e;
  }
