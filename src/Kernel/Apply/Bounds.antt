-- ===== src/Kernel/Apply/Bounds.antt =====
-- The theorem on `apply_register`.
use perimetr.Prelude.{
  ℕ, ◌≤◌, String, ◌≡◌, refl, sym, ◌∙◌, subst, ap, not, Option, none, some, ◌==◌, ◌||◌, ◌⊎◌, inl,
  inr, arith,
}
use perimetr.Json.{Json, Fields, Number, pos, negsuc, float, obj, field, get_field}
use perimetr.Pods.Config.{is_empty_text}
use perimetr.Pods.Credentials.{◌+++◌}
use perimetr.Artifacts.{returns, >>=-eq-returns, raise_if->>-returns, returns-injective, Reply}
use perimetr.Artifacts.Manifest.{address}
use perimetr.Kernel.{Register, RegisterSettings}
use perimetr.Kernel.Values.{
  parts, resolve, required_string, required_url, required_port, port_of, positive_int, within,
  to_int,
}
use perimetr.Kernel.Apply.{
  public_url, read_repositories, read_service, read_interval, read_settings, resolved_values,
  values_of, revision_of, apply_register, foreign,
}
use perimetr.Artifacts.Manifest.{pod_discovery_url}

module _ (k : Register) where
  port_of-bounds :
      (key : String) (o : Option Number) {n : ℕ}
      → port_of k key o ≡ returns n
      → (1 ≤ n) × (n ≤ 65535)
  port_of-bounds key none h = cc
  port_of-bounds key (some (pos m)) h = (ground arith, ground arith)
  port_of-bounds key (some (negsuc m)) h = cc
  port_of-bounds key (some (float s)) h = cc

  within-bounds :
      (low high : ℕ) (o : Option Number) {n : ℕ}
      → within low high o ≡ some n
      → (low ≤ n) × (n ≤ high)
  within-bounds low high none h = cc
  within-bounds low high (some (pos m)) h = (ground arith, ground arith)
  within-bounds low high (some (negsuc m)) h = cc
  within-bounds low high (some (float s)) h = cc

  -- A number that is read in bounds, or the one before.
  positive_int-bounds :
      (values : Fields) (key : String) (current low high : ℕ)
      → (positive_int k values key current low high ≡ current)
        ⊎ ((low ≤ positive_int k values key current low high)
            × (positive_int k values key current low high ≤ high))
  unfolding positive_int
  positive_int-bounds values key current low high =
      chosen (within low high (to_int k (resolve (parts key) (obj values)))) refl
    where
      chosen :
          (o : Option ℕ)
          → within low high (to_int k (resolve (parts key) (obj values))) ≡ o
          → (elim o [ some n ↦ n | none ↦ current ] ≡ current)
            ⊎ ((low ≤ elim o [ some n ↦ n | none ↦ current ])
                × (elim o [ some n ↦ n | none ↦ current ] ≤ high))
      chosen none e = inl refl
      chosen (some n) e = inr (within-bounds low high _ e)

  -- What `read_service` gives: the port in its bounds, the address that it makes, and the interval
  -- before.
  IsService : Fields → RegisterSettings → RegisterSettings → Type 0
  IsService values s t =
      (1 ≤ t.perimetr_service_port)
      × (t.perimetr_service_port ≤ 65535)
      × (t.perimetr_public_url ≡ public_url k t.perimetr_sni t.perimetr_service_port)
      × (required_string k values "services.perimetr.sni" ≡ returns t.perimetr_sni)
      × (t.kernel_refresh_sec ≡ s.kernel_refresh_sec)

  read_service-bounds :
      (values : Fields) (s : RegisterSettings) {t : RegisterSettings}
      → read_service k values s ≡ returns t
      → IsService values s t
  unfolding read_service required_port IsService
  read_service-bounds values s h =
      let (sni, e, h1) = >>=-eq-returns (required_string k values "services.perimetr.sni") _ h in
      let (port, p, h2) = >>=-eq-returns (required_port k values "services.perimetr.port") _ h1 in
      let (parsed, _, h3) = >>=-eq-returns (address k.runtime ("http://" +++ sni)) _ h2 in
      let (_, h4) =
        raise_if->>-returns
          (is_empty_text parsed.hostname || not (parsed.path == "" || parsed.path == "/")) _ _ h3 in
      let (value, _, h5) = >>=-eq-returns (required_string k values "services.perimetr.port") _ p in
      let (low, high) = port_of-bounds "services.perimetr.port" (k.parse_int value) h5 in
      subst (IsService values s) (returns-injective h4) (low, high, refl, e, refl)

  read_repositories-interval :
      (values : Fields) (s : RegisterSettings) {t : RegisterSettings}
      → read_repositories k values s ≡ returns t
      → t.kernel_refresh_sec ≡ s.kernel_refresh_sec
  unfolding read_repositories
  read_repositories-interval values s h =
      let (a, _, h1) = >>=-eq-returns (required_url k values "repositories.perimetr.url") _ h in
      let (b, _, h2) = >>=-eq-returns (required_url k values "repositories.pod.url") _ h1 in
      let (c, _, h3) = >>=-eq-returns (foreign (pod_discovery_url k.runtime b)) _ h2 in
      sym (ap RegisterSettings.kernel_refresh_sec (returns-injective h3))

  -- The settings that are read from the values of a Register.
  IsRegistered : String → RegisterSettings → RegisterSettings → Type 0
  IsRegistered revision s t =
      (1 ≤ t.perimetr_service_port)
      × (t.perimetr_service_port ≤ 65535)
      × (t.perimetr_public_url ≡ public_url k t.perimetr_sni t.perimetr_service_port)
      × ((t.kernel_refresh_sec ≡ s.kernel_refresh_sec)
          ⊎ ((5 ≤ t.kernel_refresh_sec) × (t.kernel_refresh_sec ≤ 3600)))
      × (t.kernel_register_revision ≡ revision)

  read_settings-IsRegistered :
      (values : Fields) (revision : String) (s : RegisterSettings) {t : RegisterSettings}
      → read_settings k values revision s ≡ returns t
      → IsRegistered revision s t
  unfolding read_settings read_interval IsService IsRegistered
  read_settings-IsRegistered values revision s h =
      let (a, e, h1) = >>=-eq-returns (read_repositories k values s) _ h in
      let (b, e', h2) = >>=-eq-returns (read_service k values a) _ h1 in
      let (low, high, url, _, same) = read_service-bounds values a e' in
      let before = same ∙ read_repositories-interval values s e in
      subst (IsRegistered revision s) (returns-injective h2) (
        low,
        high,
        url,
        subst
            (λ n.
              (positive_int k values "intervals.kernel.refresh_sec" b.kernel_refresh_sec 5 3600 ≡ n)
              ⊎ ((5
                    ≤ positive_int k values "intervals.kernel.refresh_sec" b.kernel_refresh_sec 5
                        3600)
                  × (positive_int k values "intervals.kernel.refresh_sec" b.kernel_refresh_sec 5
                        3600
                      ≤ 3600)))
            before
            (positive_int-bounds values "intervals.kernel.refresh_sec" b.kernel_refresh_sec 5 3600),
        refl,
      )

  -- A snapshot that is not empty and is applied gives a port from 1 to 65535, the public address of
  -- the name and the port, an interval from 5 to 3600 seconds or the one before, and the revision of
  -- the snapshot.
  pub apply_register-bounds :
      (reply : Reply) (name : String) (v : Json) (rest : Fields) (s t : RegisterSettings)
      → apply_register k reply (field name v rest) s ≡ returns t
      → (1 ≤ t.perimetr_service_port)
        × (t.perimetr_service_port ≤ 65535)
        × (t.perimetr_public_url ≡ public_url k t.perimetr_sni t.perimetr_service_port)
        × ((t.kernel_refresh_sec ≡ s.kernel_refresh_sec)
            ⊎ ((5 ≤ t.kernel_refresh_sec) × (t.kernel_refresh_sec ≤ 3600)))
        × (t.kernel_register_revision ≡ revision_of k (get_field "revision" (field name v rest)))
  unfolding apply_register IsRegistered
  apply_register-bounds reply name v rest s t h =
      let snapshot = field name v rest in
      let (stored, _, h1) = >>=-eq-returns (values_of k snapshot) _ h in
      let (values, _, h2) = >>=-eq-returns (resolved_values k reply stored) _ h1 in
      read_settings-IsRegistered values (revision_of k (get_field "revision" snapshot)) s h2
