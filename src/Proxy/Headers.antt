-- ===== src/Proxy/Headers.antt =====
-- backend/app/web/proxy_headers.py, `ProxyHeadersMiddleware`: what the request's state says of its
-- peer and of its client.
use open_sec_dash.Prelude.{
  ◌≡◌, refl, ◌∙◌, subst, ℕ, inl, inr, true, false, not, Option, none, some, List, [], ◌∷◌, ◌==◌,
  contains, select, eq_of_beq, Bool-cases, arith,
}
use open_sec_dash.Prelude.Text.{Text, text_eq, codes, lower}
use open_sec_dash.Proxy.{
  Ip, Header, Scope, ProxyState, ProxyHeaders, is_trusted_address, throttle_client_address,
  first_forwarded_header, forwarded_headers, is_forwarded, proxy_headers, client_is_trusted,
  peer_address, forwarded, trusted_peer, untrusted_peer, first_of, apply_proto, apply_host,
  apply_port,
}

first_forwarded_header-select :
    (name : Text) (headers : List Header)
    → contains name forwarded_headers ≡ true
    → first_forwarded_header (select (λ h. not (is_forwarded h)) headers) name ≡ none
unfolding first_forwarded_header
first_forwarded_header-select name [] h = refl
first_forwarded_header-select name ((n, value) ∷ headers) h =
    elim (Bool-cases (contains (lower n) forwarded_headers)) [
      | inl e ↦ rw e (first_forwarded_header-select name headers h)
      | inr e ↦ elim (Bool-cases (lower n == name)) [
        | inl same ↦ absurd (
            ground (
              arith,
              subst (λ m. contains m forwarded_headers ≡ false) (eq_of_beq (lower n) name same) e,
            ))
        | inr other ↦ rw (e, other) (first_forwarded_header-select name headers h)
      ]
    ]

module _ {Address Network : Type 0} (ip : Ip Address Network) where
  throttle_client_address-some :
      (client : Option (Text × ℕ)) (trusted : Option (List Network)) (host : Text)
      → throttle_client_address ip client trusted ≡ some host
      → is_trusted_address ip host trusted ≡ false
  unfolding throttle_client_address
  throttle_client_address-some none trusted host e = absurd (ground arith)
  throttle_client_address-some (some (client, port)) trusted host e =
      let same : client ≡ host = ground arith in
      let refused : is_trusted_address ip client trusted ≡ false = ground arith in
      subst (λ h. is_trusted_address ip h trusted ≡ false) same refused

  apply_proto-peer_address :
      (scope : Scope) (state : ProxyState) (value : Option Text)
      → (apply_proto scope state value).1.peer_address ≡ state.peer_address
  unfolding apply_proto
  apply_proto-peer_address scope state none = refl
  apply_proto-peer_address scope state (some value) =
      elim (Bool-cases (contains (lower (first_of value)) (codes "http" ∷ codes "https" ∷ []))) [
        | inl e ↦ rw e refl
        | inr e ↦ rw e refl
      ]

  apply_host-peer_address :
      (headers : List Header) (scope : Scope) (state : ProxyState) (value : Option Text)
      → (apply_host headers scope state value).1.peer_address ≡ state.peer_address
  unfolding apply_host
  apply_host-peer_address headers scope state none = refl
  apply_host-peer_address headers scope state (some value) = ground arith

  apply_port-peer_address :
      (state : ProxyState) (value : Option Text)
      → (apply_port state value).peer_address ≡ state.peer_address
  unfolding apply_port
  apply_port-peer_address state none = refl
  apply_port-peer_address state (some value) = ground arith

  -- What the state of an accepted connection may name as addresses
  unfoldable pub IsThrottled : Option (List Network) → Scope → ProxyState → Type 0
  IsThrottled trusted scope state =
      (state.peer_address ≡ peer_address scope.client)
      × ((host : Text)
          → state.client_address ≡ some host
          → is_trusted_address ip host trusted ≡ false)

  forwarded-peer_address :
      (middleware : ProxyHeaders Network) (scope : Scope)
      → (forwarded ip middleware scope).1.peer_address ≡ peer_address scope.client
  unfolding forwarded
  forwarded-peer_address middleware scope =
      apply_port-peer_address _ _ ∙ apply_host-peer_address _ _ _ _ ∙ apply_proto-peer_address _ _ _

  trusted_peer-IsThrottled :
      (middleware : ProxyHeaders Network) (scope : Scope)
      → IsThrottled middleware.trusted_proxies scope (trusted_peer ip middleware scope).1
  unfolding trusted_peer IsThrottled
  trusted_peer-IsThrottled middleware scope = (
    forwarded-peer_address middleware scope,
    λ host e.
        throttle_client_address-some (forwarded ip middleware scope).0.client
          middleware.trusted_proxies host e,
  )

  untrusted_peer-IsThrottled :
      (middleware : ProxyHeaders Network) (scope : Scope)
      → IsThrottled middleware.trusted_proxies scope (untrusted_peer ip middleware scope).1
  unfolding untrusted_peer IsThrottled
  untrusted_peer-IsThrottled middleware scope =
      (refl, λ host e. throttle_client_address-some scope.client middleware.trusted_proxies host e)

  -- The state that the middleware leaves keeps the immediate peer's own address, which no header
  -- can change, and names a client for the throttle only when its address is not a trusted one.
  pub proxy_headers-IsThrottled :
      (middleware : ProxyHeaders Network) (scope : Scope) (state : ProxyState)
      → (proxy_headers ip middleware scope).1 ≡ some state
      → IsThrottled middleware.trusted_proxies scope state
  unfolding proxy_headers IsThrottled
  proxy_headers-IsThrottled middleware scope state e =
      let is_http = contains scope.kind (codes "http" ∷ codes "websocket" ∷ []) in
      let peer = client_is_trusted ip scope.client middleware.trusted_proxies in
      elim (Bool-cases is_http) [
        | inl a ↦ elim (Bool-cases peer) [
          | inl b ↦
              let same : (trusted_peer ip middleware scope).1 ≡ state = ground arith in
              subst (λ s. IsThrottled middleware.trusted_proxies scope s) same
                (trusted_peer-IsThrottled middleware scope)
          | inr b ↦
              let same : (untrusted_peer ip middleware scope).1 ≡ state = ground arith in
              subst (λ s. IsThrottled middleware.trusted_proxies scope s) same
                (untrusted_peer-IsThrottled middleware scope)
        ]
        | inr a ↦ absurd (ground arith)
      ]

  -- What the middleware makes of a connection whose peer's headers count for nothing
  unfoldable pub IsIgnored : Scope → Scope × Option ProxyState → Type 0
  IsIgnored scope (scope', result) =
      ((name : Text)
        → contains name forwarded_headers ≡ true
        → first_forwarded_header scope'.headers name ≡ none)
      × (scope'.client ≡ scope.client)
      × (scope'.scheme ≡ scope.scheme)
      × ((state : ProxyState) × (result ≡ some state)
          × (state.explicitly_trusted ≡ false)
          × (state.forwarded_proto ≡ none)
          × (state.forwarded_host ≡ none)
          × (state.forwarded_port ≡ none))

  -- From a peer that is not trusted, a request or a websocket keeps its client and its scheme, no
  -- X-Forwarded-* header is left for the application to read, and its state has no forwarded value
  -- and no trust.
  pub proxy_headers-IsIgnored :
      (middleware : ProxyHeaders Network) (scope : Scope)
      → contains scope.kind (codes "http" ∷ codes "websocket" ∷ []) ≡ true
      → client_is_trusted ip scope.client middleware.trusted_proxies ≡ false
      → IsIgnored scope (proxy_headers ip middleware scope)
  unfolding proxy_headers IsIgnored untrusted_peer
  proxy_headers-IsIgnored middleware scope a b =
      rw (a, b)
        (
          λ name h. first_forwarded_header-select name scope.headers h,
          refl,
          refl,
          ((untrusted_peer ip middleware scope).1, refl, refl, refl, refl, refl),
        )
