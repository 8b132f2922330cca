-- ===== src/Proxy.antt =====
-- backend/app/web/proxy_headers.py: X-Forwarded-* headers, from trusted reverse proxies alone.
--
-- `Ip` holds what the code asks of Python's `ipaddress`. A header is its name and its value, read as
-- Latin-1; a client is a host and a port.
pub mod Addresses
pub mod Headers
use open_sec_dash.Prelude.{
  ◌≡◌, refl, ℕ, ◌≤◌, Bool, true, false, not, ◌&&◌, ◌||◌, Option, none, some, List, [], ◌∷◌, ◌++◌,
  ◌==◌, nat_eq, contains, is_some, any, select, map, leb, if◌then◌else◌,
}
use open_sec_dash.Prelude.Text.{Text, text_eq, codes, strip, lower, split, before}

pub record Ip (Address Network : Type 0) : Type 0 where
  pub ip_address : Text → Option Address
  pub ip_network : Text → Option Network
  pub to_text : Address → Text
  pub ipv4_mapped : Address → Option Address
  pub is_in : Address → Network → Bool

-- DEFAULT_TRUSTED_NETWORKS
abbrev pub default_trusted_networks : List Text
default_trusted_networks =
    codes "127.0.0.0/8"
    ∷ codes "::1/128"
    ∷ codes "10.0.0.0/8"
    ∷ codes "172.16.0.0/12"
    ∷ codes "192.168.0.0/16"
    ∷ codes "fc00::/7"
    ∷ []

abbrev pub Header : Type 0
Header = Text × Text

-- What the middleware leaves in the request's state.
pub record ProxyState : Type 0 where
  pub explicitly_trusted : Bool
  pub client_address : Option Text
  pub peer_address : Option Text
  pub forwarded_proto : Option Text
  pub forwarded_host : Option Text
  pub forwarded_port : Option Text

pub record Scope : Type 0 where
  pub kind : Text
  pub headers : List Header
  pub client : Option (Text × ℕ)
  pub scheme : Text

-- `ProxyHeadersMiddleware`; without a list of networks every peer is trusted.
pub record ProxyHeaders (Network : Type 0) : Type 0 where
  pub trusted_proxies : Option (List Network)
  pub explicit_trust : Bool

abbrev pub no_proxy : Option Text → ProxyState
no_proxy peer = record {
  explicitly_trusted = false;
  client_address = none;
  peer_address = peer;
  forwarded_proto = none;
  forwarded_host = none;
  forwarded_port = none;
}

unfoldable pub peer_address : Option (Text × ℕ) → Option Text
peer_address none = none
peer_address (some (host, port)) = some host

unfoldable pub first_forwarded_header : List Header → Text → Option Text
first_forwarded_header [] name = none
first_forwarded_header ((header_name, value) ∷ headers) name =
    if lower header_name == name then some value else first_forwarded_header headers name

abbrev pub forwarded_headers : List Text
forwarded_headers =
    codes "x-forwarded-for"
    ∷ codes "x-forwarded-proto"
    ∷ codes "x-forwarded-host"
    ∷ codes "x-forwarded-port"
    ∷ []

abbrev pub is_forwarded : Header → Bool
is_forwarded (name, value) = contains (lower name) forwarded_headers

abbrev pub is_host : Header → Bool
is_host (name, value) = lower name == codes "host"

-- `str.isdigit` on Latin-1
digits : Text → Bool
digits [] = true
digits (c ∷ s) = ((leb b'0' c && leb c b'9') || c == 0xb2 || c == 0xb3 || c == 0xb9) && digits s

unfoldable pub is_digit : Text → Bool
unfolding digits
is_digit [] = false
is_digit (c ∷ s) = digits (c ∷ s)

-- "https, http" names the proxies from the client on; the first counts.
abbrev pub first_of : Text → Text
first_of value = strip (before b',' value)

-- The scheme and the state's protocol
unfoldable pub apply_proto : Scope → ProxyState → Option Text → Scope × ProxyState
apply_proto scope state none = (scope, state)
apply_proto scope state (some value) =
    let proto = lower (first_of value) in
    let secure = if proto == codes "https" then codes "wss" else codes "ws" in
    let scheme = if scope.kind == codes "websocket" then secure else proto in
    if contains proto (codes "http" ∷ codes "https" ∷ [])
    then (record scope { scheme = scheme }, record state { forwarded_proto = some proto })
    else (scope, state)

unfoldable pub apply_host : List Header → Scope → ProxyState → Option Text → Scope × ProxyState
apply_host headers scope state none = (scope, state)
apply_host headers scope state (some value) =
    let host = first_of value in
    if host == [] then (scope, state) else (
      record scope {
        headers = select (λ h. not (is_host h)) headers ++ ((codes "host", host) ∷ []);
      },
      record state { forwarded_host = some host },
    )

unfoldable pub apply_port : ProxyState → Option Text → ProxyState
apply_port state none = state
apply_port state (some value) =
    let port = first_of value in
    if is_digit port then record state { forwarded_port = some port } else state

abbrev pub or_else {ℓ} : {A : Type ℓ} → Option A → Option A → Option A
or_else none b = b
or_else (some a) b = some a

module _ {Address Network : Type 0} (ip : Ip Address Network) where
  networks : List Text → List Network
  networks [] = []
  networks (value ∷ values) = network_or (ip.ip_network (strip value)) (networks values)
    where
      network_or : Option Network → List Network → List Network
      network_or none rest = rest
      network_or (some network) rest = network ∷ rest

  -- `none` trusts every peer.
  unfoldable pub parse_trusted_proxies : Option Text → Option (List Network)
  unfolding networks
  parse_trusted_proxies none = some (networks default_trusted_networks)
  parse_trusted_proxies (some raw) =
      if strip raw == []
      then some []
      else if strip raw == codes "*"
      then none
      else some (networks (split b',' raw))

  -- The middleware that reads OSD_TRUSTED_PROXIES
  unfoldable pub from_environment : Option Text → ProxyHeaders Network
  from_environment none = record {
    trusted_proxies = parse_trusted_proxies none;
    explicit_trust = false;
  }
  from_environment (some raw) = record {
    trusted_proxies = parse_trusted_proxies (some raw);
    explicit_trust = not (strip raw == [] || strip raw == codes "*");
  }

  abbrev is_in_some : List Network → Address → Bool
  is_in_some trusted address = any (λ network. ip.is_in address network) trusted

  mapped_in_some : List Network → Option Address → Bool
  mapped_in_some trusted none = false
  mapped_in_some trusted (some mapped) = is_in_some trusted mapped

  address_is_trusted : List Network → Option Address → Bool
  unfolding mapped_in_some
  address_is_trusted trusted none = false
  address_is_trusted trusted (some address) =
      is_in_some trusted address || mapped_in_some trusted (ip.ipv4_mapped address)

  unfoldable pub is_trusted_address : Text → Option (List Network) → Bool
  unfolding address_is_trusted
  is_trusted_address host none = true
  is_trusted_address host (some trusted) = address_is_trusted trusted (ip.ip_address host)

  unfoldable pub throttle_client_address : Option (Text × ℕ) → Option (List Network) → Option Text
  throttle_client_address none trusted = none
  throttle_client_address (some (host, port)) trusted =
      if is_trusted_address host trusted then none else some host

  with_address : Option Address → Option (List Address) → Option (List Address)
  with_address none addresses = none
  with_address (some address) none = none
  with_address (some address) (some addresses) = some (address ∷ addresses)

  -- [ip_address(entry) for entry in entries], `none` at a ValueError
  unfoldable pub ip_addresses : List Text → Option (List Address)
  unfolding with_address
  ip_addresses [] = some []
  ip_addresses (entry ∷ entries) = with_address (ip.ip_address (strip entry)) (ip_addresses entries)

  -- The last address that is not trusted
  unfoldable pub last_untrusted : Option (List Network) → List Address → Option Text
  last_untrusted trusted [] = none
  last_untrusted trusted (address ∷ addresses) =
      let host = ip.to_text address in
      or_else (last_untrusted trusted addresses)
        (if is_trusted_address host trusted then none else some host)

  unfoldable pub client_from_addresses : Option (List Network) → Option (List Address) → Option Text
  client_from_addresses trusted none = none
  client_from_addresses trusted (some []) = none
  client_from_addresses trusted (some (address ∷ addresses)) =
      or_else (last_untrusted trusted (address ∷ addresses)) (some (ip.to_text address))

  unfoldable pub client_from_x_forwarded_for : Text → Option (List Network) → Option Text
  client_from_x_forwarded_for value trusted =
      client_from_addresses trusted (ip_addresses (split b',' value))

  unfoldable pub client_is_trusted : Option (Text × ℕ) → Option (List Network) → Bool
  client_is_trusted none trusted = false
  client_is_trusted (some (host, port)) trusted = is_trusted_address host trusted

  unfoldable pub with_client : Scope → Option Text → Scope
  with_client scope none = scope
  with_client scope (some host) = record scope { client = some (host, 0) }

  unfoldable pub forwarded_client : Option (List Network) → Option Text → Option Text
  forwarded_client trusted none = none
  forwarded_client trusted (some value) = client_from_x_forwarded_for value trusted

  -- The scope and the state once the forwarded headers of a trusted peer are applied
  unfoldable pub forwarded : ProxyHeaders Network → Scope → Scope × ProxyState
  unfolding with_client forwarded_client
  forwarded middleware scope =
      let header = first_forwarded_header scope.headers in
      let client = forwarded_client middleware.trusted_proxies (header (codes "x-forwarded-for")) in
      let initial = record (no_proxy (peer_address scope.client)) {
        explicitly_trusted = middleware.explicit_trust;
      } in
      let (scope', state) =
        apply_proto (with_client scope client) initial (header (codes "x-forwarded-proto")) in
      let (scope'', state') =
        apply_host scope.headers scope' state (header (codes "x-forwarded-host")) in
      (scope'', apply_port state' (header (codes "x-forwarded-port")))

  unfoldable pub untrusted_peer : ProxyHeaders Network → Scope → Scope × ProxyState
  untrusted_peer middleware scope = (
    record scope { headers = select (λ h. not (is_forwarded h)) scope.headers },
    record (no_proxy (peer_address scope.client)) {
      client_address = throttle_client_address scope.client middleware.trusted_proxies;
    },
  )

  unfoldable pub trusted_peer : ProxyHeaders Network → Scope → Scope × ProxyState
  trusted_peer middleware scope =
      let (scope', state) = forwarded middleware scope in
      (
        scope',
        record state {
          client_address = throttle_client_address scope'.client middleware.trusted_proxies;
        },
      )

  abbrev with_state : Scope × ProxyState → Scope × Option ProxyState
  with_state (scope, state) = (scope, some state)

  -- `__call__`: what the next application is given. Other kinds of connections pass unchanged.
  unfoldable pub proxy_headers : ProxyHeaders Network → Scope → Scope × Option ProxyState
  unfolding client_is_trusted
  proxy_headers middleware scope =
      if not (contains scope.kind (codes "http" ∷ codes "websocket" ∷ []))
      then (scope, none)
      else with_state (
          if client_is_trusted scope.client middleware.trusted_proxies
          then trusted_peer middleware scope
          else untrusted_peer middleware scope)
