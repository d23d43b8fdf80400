-- ===== src/RequestPolicy/Client.antt =====
-- `client_identity` of app/request_policy.py: the address that the login limiter counts by.
use perimetr.Prelude.{
  String, Bool, true, false, Option, none, some, List, [], ◌∷◌, ◌==◌, if◌then◌else◌, or_else,
}
use perimetr.Prelude.Text.{split}
use perimetr.Platform.{Platform}

-- What is called of `ipaddress`; `none` is a `ValueError`.
pub record Addresses : Type 0 where
  -- `str(ip_address(text))`
  pub ip_address : String → Option String
  -- `address in ip_network(text, strict=False)`
  pub in_network : String → String → Option Bool

module _ (p : Platform) (a : Addresses) where
  -- `any(…)`: it stops at the first network that holds the address, or at the first error before.
  unfoldable pub is_trusted : String → List String → Option Bool
  is_trusted address [] = some false
  is_trusted address (item ∷ items) =
      let rest = is_trusted address items in
      if p.strip item == "" then rest else elim (a.in_network address (p.strip item)) [
        | none ↦ none
        | some true ↦ some true
        | some false ↦ rest
      ]

  abbrev pub real_ip : String → Option String → String
  real_ip peer none = peer
  real_ip peer (some s) = if s == "" then peer else or_else (a.ip_address s) peer

  -- `client_identity`, at the address of the peer and the header `x-real-ip`.
  unfoldable pub client_identity : Option String → Option String → String → String
  unfolding split is_trusted
  client_identity client header trusted_proxies =
      let peer = or_else client "unknown" in
      elim (a.ip_address peer) [
        | none ↦ peer
        | some address ↦ elim (is_trusted address (split b',' trusted_proxies)) [
          | some true ↦ real_ip peer header
          | _ ↦ peer
        ]
      ]
