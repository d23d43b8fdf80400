-- ===== src/Kernel/Snapshot/Verified.antt =====
-- The theorem on `load_snapshot`.
use perimetr.Prelude.{
  ℕ, String, ◌≡◌, ◌≢◌, refl, sym, ◌∙◌, subst, ap, Bool, true, false, not, Option, none, some,
  nat_eq, ltb, if◌then◌else◌, is_some, ◌⊎◌, inl, inr, test_of_ne,
}
use perimetr.Json.{Json, Fields, null, bool, num, str, arr, obj, get_field}
use perimetr.Pods.Config.{rstrip_slash}
use perimetr.Pods.Credentials.{◌+++◌}
use perimetr.Artifacts.{
  Try, returns, error, crash, raise_if->>-returns, returns-injective, Reply, replied, http_error,
  failed,
}
use perimetr.Kernel.{Register}
use perimetr.Kernel.Snapshot.{
  verify_snapshot, verify_value, read_cache, last_known_good, read_body, fall_back, take_snapshot,
  receive, request_snapshot, load_snapshot, max_snapshot_bytes, revision_tag, is_str,
  is_revision_value, as_object, is_checked,
}

module _ (k : Register) where
  -- Verification gives back what it was given.
  verify_snapshot-same : (s : Fields) {t : Fields} → verify_snapshot k s ≡ returns t → t ≡ s
  unfolding verify_snapshot
  verify_snapshot-same s h =
      let (_, h1) =
        raise_if->>-returns (not (is_str "exocortex.register.snapshot.v1" (get_field "schema" s))) _
          _ h in
      let (_, h2) = raise_if->>-returns (not (is_revision_value (get_field "revision" s))) _ _ h1 in
      let (_, h3) = raise_if->>-returns (not (is_some (as_object (get_field "values" s)))) _ _ h2 in
      let (_, h4) =
        raise_if->>-returns (not (is_checked k s (as_object (get_field "values" s)))) _ _ h3 in
      sym (returns-injective h4)

  IsVerified : Fields → Type 0
  IsVerified s = verify_snapshot k s ≡ returns s

  verify_value-IsVerified : (v : Json) {s : Fields} → verify_value k v ≡ returns s → IsVerified s
  unfolding verify_value IsVerified
  verify_value-IsVerified (obj fs) h =
      rw (verify_snapshot-same fs h) (h ∙ ap returns (verify_snapshot-same fs h))
  verify_value-IsVerified null h = cc
  verify_value-IsVerified (bool b) h = cc
  verify_value-IsVerified (num n) h = cc
  verify_value-IsVerified (str s) h = cc
  verify_value-IsVerified (arr vs) h = cc

  -- The file is as before, or is the snapshot that is given.
  IsLoaded : Option Json → Option Json × Try Fields → Type 0
  IsLoaded file (file', returns s) = IsVerified s × ((file' ≡ file) ⊎ (file' ≡ some (obj s)))
  IsLoaded file (file', error t) = file' ≡ file
  IsLoaded file (file', crash t) = file' ≡ file

  module _ (fresh persist : Bool) (file : Option Json) where
    IsKnown : Option Fields → Type 0
    IsKnown none = Unit
    IsKnown (some s) = IsVerified s

    fall_back-IsLoaded :
        (cached : Option Fields) → IsKnown cached → IsLoaded file (file, fall_back k fresh cached)
    unfolding IsKnown IsLoaded
    fall_back-IsLoaded none v = refl
    fall_back-IsLoaded (some s) v =
        elim fresh as (λ b. IsLoaded file (file, fall_back k b (some s))) [
          | true ↦ refl
          | false ↦ (v, inl refl)
        ]

    take-IsLoaded :
        (cached : Option Fields) (m : Try Fields)
        → IsKnown cached
        → ((s : Fields) → m ≡ returns s → IsVerified s)
        → IsLoaded file (take_snapshot k fresh persist file cached m)
    unfolding IsLoaded
    take-IsLoaded cached (returns s) v f = (f s refl, written persist)
      where
        written :
            (b : Bool)
            → ((if b then some (obj s) else file) ≡ file)
              ⊎ ((if b then some (obj s) else file) ≡ some (obj s))
        written true = inr refl
        written false = inl refl
    take-IsLoaded cached (error t) v f = fall_back-IsLoaded cached v
    take-IsLoaded cached (crash t) v f = refl

    read_body-IsVerified :
        (size : ℕ) (body : Option Json) (s : Fields)
        → read_body k size body ≡ returns s
        → IsVerified s
    read_body-IsVerified size body s h = chosen (ltb (max_snapshot_bytes k) size) body h
      where
        chosen :
            (b : Bool) (o : Option Json)
            → (if b then error "Kernel Register response is too large" else elim o [
              | none ↦ error "Kernel unavailable and no valid Register last-known-good cache exists"
              | some v ↦ verify_value k v
            ])
              ≡ returns s
            → IsVerified s
        chosen true o h' = cc
        chosen false none h' = cc
        chosen false (some v) h' = verify_value-IsVerified v h'

    receive-IsLoaded :
        (cached : Option Fields) (p : Reply)
        → IsKnown cached
        → IsLoaded file (receive k fresh persist file cached p)
    unfolding receive IsKnown IsLoaded
    receive-IsLoaded cached (replied size body etag) v =
        take-IsLoaded cached (read_body k size body) v (read_body-IsVerified size body)
    receive-IsLoaded (some s) (http_error code t) v = chosen (nat_eq code 304)
      where
        chosen :
            (b : Bool)
            → IsLoaded file (if b then (file, returns s) else (file, fall_back k fresh (some s)))
        chosen true = (v, inl refl)
        chosen false = fall_back-IsLoaded (some s) v
    receive-IsLoaded none (http_error code t) v = fall_back-IsLoaded none v
    receive-IsLoaded cached (failed t) v = fall_back-IsLoaded cached v

    read_cache-IsVerified :
        (o : Option Json) {s : Fields} → read_cache k o ≡ returns s → IsVerified s
    unfolding read_cache
    read_cache-IsVerified none h = cc
    read_cache-IsVerified (some v) h = verify_value-IsVerified v h

    request-IsLoaded :
        (net : String → String → Reply) (url : String) (m : Try Fields)
        → ((s : Fields) → m ≡ returns s → IsVerified s)
        → IsLoaded file (request_snapshot k net url fresh persist file (last_known_good k m))
    unfolding request_snapshot IsLoaded IsKnown
    request-IsLoaded net url (returns s) f =
        receive-IsLoaded (some s)
          (net (rstrip_slash url +++ "/api/v1/register/snapshot") (revision_tag k (some s)))
          (f s refl)
    request-IsLoaded net url (error t) f =
        receive-IsLoaded none
          (net (rstrip_slash url +++ "/api/v1/register/snapshot") (revision_tag k none)) tt
    request-IsLoaded net url (crash t) f = refl

  -- With a Kernel configured, every snapshot that is given passes the verification, whatever the reply
  -- and the file hold, and the file of the last one is as it was or holds the one that is given.
  pub load_snapshot-IsVerified :
      (net : String → String → Reply) (url token : String) (fresh persist : Bool)
      (file file' : Option Json) (s : Fields)
      → url ≢ ""
      → token ≢ ""
      → load_snapshot k net url token fresh persist file ≡ (file', returns s)
      → (verify_snapshot k s ≡ returns s) × ((file' ≡ file) ⊎ (file' ≡ some (obj s)))
  unfolding load_snapshot IsLoaded IsVerified
  load_snapshot-IsVerified net url token fresh persist file file' s u t h =
      subst (IsLoaded file) (loaded ∙ h) (
        request-IsLoaded fresh persist file net url (read_cache k file)
          (λ s' e. read_cache-IsVerified fresh persist file file e))
    where
      loaded :
          request_snapshot k net url fresh persist file (last_known_good k (read_cache k file))
          ≡ load_snapshot k net url token fresh persist file
      loaded = rw (test_of_ne url "" u, test_of_ne token "" t) refl
