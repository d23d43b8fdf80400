-- ===== src/Artifacts/Ready/Fetched.antt =====
-- What `_download_artifact` leaves in the cache, for a manifest that was verified.
use perimetr.Prelude.{
  String, ◌≡◌, refl, sym, subst, ap, true, not, Option, none, some, ◌!=◌, is_some, inl, arith,
  eq_iff, or_else,
}
use perimetr.Prelude.Text.{text_length}
use perimetr.Json.{Fields, get_field}
use perimetr.Artifacts.{
  Artifact, Try, returns, error, crash, >>=-eq-returns, raise_if->>-returns, returns-injective,
  Runtime, Cache, Response, response, no_response, Network,
}
use perimetr.Artifacts.Version.{semver}
use perimetr.Artifacts.Manifest.{is_sha256, str_of, is_text}
use perimetr.Artifacts.Stored.{load_artifact}
use perimetr.Artifacts.Download.{
  receive, check_length, fetched_slot, reuse_or_download, check_fetched, fetch_executable,
  download_new, download_artifact, as_download_error, is_expected,
}
use perimetr.Artifacts.Ready.{
  IsExecutable, IsSound, IsLeft, IsReady, is_intact-eq, load_artifact-some, put_slot-IsSound,
  put_slot-IsReady,
}
use perimetr.Artifacts.Ready.Chunks.{Reads, Reads-header, read_chunks-Reads}
use perimetr.Artifacts.Ready.Fallback.{text_or-str}

as_download_error-returns :
    {A : Type 0} (m : Try A) {a : A} → as_download_error m ≡ returns a → m ≡ returns a
as_download_error-returns (returns a) h = h
as_download_error-returns (error t) h = cc
as_download_error-returns (crash t) h = cc

-- The bytes that were fetched are an executable, with the digest of the manifest.
module _ (env : Runtime) (net : Network) (m : Fields) where
  receive-Reads :
      (p : Response) {r : String × String}
      → receive env p ≡ returns r
      → Reads env.perimetr_pod_max_artifact_bytes r.0 r.1
  unfolding Reads
  receive-Reads (no_response t) h = cc
  receive-Reads (response len body) h =
      let (_, _, h') = >>=-eq-returns (check_length env len) _ h in
      read_chunks-Reads env.perimetr_pod_max_artifact_bytes "" 0 "" body refl
        (omega arith, inl (refl, refl)) h'

  check_fetched-IsExecutable :
      (r : String × String) {content : String}
      → Reads env.perimetr_pod_max_artifact_bytes r.0 r.1
      → check_fetched env m r ≡ returns content
      → IsExecutable env content × (env.digest content ≡ str_of env (get_field "sha256" m))
  unfolding check_fetched Reads
  check_fetched-IsExecutable (prefix, content) i h =
      let (p, h1) = raise_if->>-returns (prefix != "MZ") _ _ h in
      let (q, h2) =
        raise_if->>-returns (env.digest content != str_of env (get_field "sha256" m)) _ _ h1 in
      let (_, h3) =
        raise_if->>-returns (not (is_expected env (get_field "size" m) (text_length content))) _ _
          h2 in
      let same : env.digest content ≡ str_of env (get_field "sha256" m) =
        ground (arith, eq_iff (env.digest content) (str_of env (get_field "sha256" m))) in
      subst (λ s. IsExecutable env s × (env.digest s ≡ str_of env (get_field "sha256" m)))
        (returns-injective h3)
        (
          record {
            small = i.0;
            header = Reads-header _ prefix content i (ground (arith, eq_iff prefix "MZ"));
          },
          same,
        )

  fetch_executable-IsExecutable :
      {content : String}
      → as_download_error (fetch_executable env net m) ≡ returns content
      → IsExecutable env content × (env.digest content ≡ str_of env (get_field "sha256" m))
  unfolding fetch_executable
  fetch_executable-IsExecutable h =
      let p = net.fetch (str_of env (get_field "url" m)) in
      let (r, e, h') = >>=-eq-returns (receive env p) _ (as_download_error-returns _ h) in
      check_fetched-IsExecutable r (receive-Reads p e) h'

-- A manifest as it is after `_verify_manifest`.
pub record IsRelease (env : Runtime) (m : Fields) : Type 0 where
  pub shape : is_sha256 (str_of env (get_field "sha256" m)) ≡ true
  pub version : is_some (semver env.platform (str_of env (get_field "version" m))) ≡ true

module _ (env : Runtime) (net : Network) (m : Fields) (v : IsRelease env m) (c : Cache)
    {r : Cache × Artifact} where
  -- What is given is in the cache with its digest and version, also where other slots are damaged.
  download_new-IsReady :
      download_new env net m c ≡ returns r → IsReady env r.0 r.1.sha256 r.1.version
  unfolding download_new get_field
  download_new-IsReady h =
      let (content, e, h') = >>=-eq-returns (as_download_error (fetch_executable env net m)) _ h in
      let (x, q) = fetch_executable-IsExecutable env net m e in
      let d = str_of env (get_field "sha256" m) in
      let version = str_of env (get_field "version" m) in
      subst (λ p. IsReady env p.0 (Artifact.sha256 p.1) (Artifact.version p.1))
        (returns-injective h')
        (put_slot-IsReady env c d version (fetched_slot env m content) v.shape
          (is_intact-eq env d content (fetched_slot env m content) refl x q
            (rw (text_or-str env version) v.version))
          (text_or-str env version))

  reuse-IsReady :
      (o : Option Artifact)
      → load_artifact env c (str_of env (get_field "sha256" m)) ≡ o
      → reuse_or_download env net m o c ≡ returns r
      → IsReady env r.0 r.1.sha256 r.1.version
  unfolding reuse_or_download
  reuse-IsReady none e h = download_new-IsReady h
  reuse-IsReady (some a) e h =
      let (ready, q) = load_artifact-some env c (str_of env (get_field "sha256" m)) e in
      let (_, h') =
        raise_if->>-returns (not (is_text env a.version (get_field "version" m))) _ _ h in
      subst (λ p. IsReady env p.0 (Artifact.sha256 p.1) (Artifact.version p.1))
        (returns-injective h')
        (subst (λ d. IsReady env c d a.version) (sym (ap Artifact.sha256 q)) ready)

  pub download_artifact-IsReady :
      download_artifact env net m c ≡ returns r → IsReady env r.0 r.1.sha256 r.1.version
  unfolding download_artifact
  download_artifact-IsReady h =
      reuse-IsReady (load_artifact env c (str_of env (get_field "sha256" m))) refl h

  module _ (s : IsSound env c) where
    download_new-IsSound : download_new env net m c ≡ returns r → IsSound env r.0
    unfolding download_new get_field
    download_new-IsSound h =
        let (content, e, h') =
          >>=-eq-returns (as_download_error (fetch_executable env net m)) _ h in
        let (x, q) = fetch_executable-IsExecutable env net m e in
        let d = str_of env (get_field "sha256" m) in
        subst (λ p. IsSound env p.0) (returns-injective h')
          (put_slot-IsSound env c d (fetched_slot env m content) s λ y e'.
            subst (λ z. IsExecutable env z × (env.digest z ≡ d)) (ap (λ o. or_else o y) e') (x, q))

    reuse-IsSound :
        (o : Option Artifact) → reuse_or_download env net m o c ≡ returns r → IsSound env r.0
    unfolding reuse_or_download
    reuse-IsSound none h = download_new-IsSound h
    reuse-IsSound (some a) h =
        let (_, h') =
          raise_if->>-returns (not (is_text env a.version (get_field "version" m))) _ _ h in
        subst (λ p. IsSound env p.0) (returns-injective h') s

    pub download_artifact-IsLeft : download_artifact env net m c ≡ returns r → IsLeft env r
    unfolding download_artifact IsLeft
    download_artifact-IsLeft h = (
      reuse-IsSound (load_artifact env c (str_of env (get_field "sha256" m))) h,
      download_artifact-IsReady h,
    )
