-- ===== src/Gate/Origins.antt =====
-- backend/app/web/auth.py: where a request comes from. The host names and the origins that its
-- headers name, the proxy that it came through, and the checks on them.
use open_sec_dash.Prelude.{
  ℕ, Bool, true, false, not, ◌&&◌, ◌||◌, Option, none, some, List, [], ◌∷◌, ◌==◌, ◌++◌, nat_eq,
  contains, any, length, is_some, ltb, leb, if◌then◌else◌, String,
}
use open_sec_dash.Prelude.Text.{Text, text_eq, codes, strip, lower, split}
use open_sec_dash.Proxy.{ProxyState}

-- What `urlparse` gives; `port` is `none` where reading it raises ValueError.
pub record Url : Type 0 where
  pub scheme : Text
  pub hostname : Option Text
  pub port : Option (Option ℕ)
  pub username : Option Text
  pub password : Option Text
  pub path : Text
  pub params : Text
  pub query : Text
  pub fragment : Text

pub record Wire : Type 0 where
  pub urlparse : Text → Url
  pub encode_idna : Text → Option Text
  pub is_ip_address : Text → Bool

-- (scheme, host name, port)
pub record Origin : Type 0 where
  pub scheme : Text
  pub hostname : Text
  pub port : ℕ

-- What the gate reads of a request; `none` for a header that is absent. `url_port` is `none` where
-- reading the port raises ValueError.
pub record Request : Type 0 where
  pub method : Text
  pub path : Text
  pub is_websocket : Bool
  pub wants_json : Bool
  pub url_scheme : Text
  pub url_hostname : Option Text
  pub url_port : Option (Option ℕ)
  pub proxy : ProxyState
  pub sec_fetch_site : Option Text
  pub origin : Option Text
  pub referer : Option Text
  pub session_cookie : Option String

abbrev pub is_text : Option Text → Text → Bool
is_text none t = false
is_text (some s) t = s == t

abbrev pub is_default_port : Option (Option ℕ) → Bool
is_default_port none = false
is_default_port (some none) = true
is_default_port (some (some port)) = port == 443

abbrev text_or_empty : Option Text → Text
text_or_empty none = []
text_or_empty (some s) = s

abbrev port_or : ℕ → Option ℕ → ℕ
port_or default none = default
port_or default (some port) = port

is_label_code : ℕ → Bool
is_label_code c = (leb b'a' c && leb c b'z') || (leb b'0' c && leb c b'9')

label_rest : Text → Bool
unfolding is_label_code
label_rest [] = false
label_rest (c ∷ []) = is_label_code c
label_rest (c ∷ d ∷ s) = (is_label_code c || c == b'-') && label_rest (d ∷ s)

-- _HOSTNAME_LABEL_PATTERN.fullmatch
unfoldable pub is_label : Text → Bool
unfolding is_label_code label_rest
is_label [] = false
is_label (c ∷ []) = is_label_code c
is_label (c ∷ d ∷ s) = is_label_code c && label_rest (d ∷ s) && leb (length (d ∷ s)) 62

ends_with_dot : Text → Bool
ends_with_dot [] = false
ends_with_dot (c ∷ []) = c == b'.'
ends_with_dot (c ∷ d ∷ s) = ends_with_dot (d ∷ s)

abbrev default_port : Text → Option ℕ
default_port scheme =
    if scheme == codes "http" then some 80 else if scheme == codes "https" then some 443 else none

origin_at : Text → Option Text → Option (Option ℕ) → Option ℕ → Option Origin
origin_at scheme none port default = none
origin_at scheme (some hostname) none default = none
origin_at scheme (some hostname) (some port) none = none
origin_at scheme (some hostname) (some port) (some default) =
    some (record { scheme = scheme; hostname = lower hostname; port = port_or default port })

module _ (wire : Wire) where
  ascii_hostname : Option Text → Option Text
  ascii_hostname none = none
  ascii_hostname (some normalized) =
      if wire.is_ip_address normalized
      then none
      else if ltb 253 (length normalized) || any (λ l. not (is_label l)) (split b'.' normalized)
      then none
      else some normalized

  unfoldable pub normalize_auth_hostname : Text → Option Text
  unfolding ascii_hostname ends_with_dot
  normalize_auth_hostname hostname =
      let value = lower (strip hostname) in
      if value == [] || ends_with_dot value then none else ascii_hostname (wire.encode_idna value)

  abbrev has_credentials : Url → Bool
  has_credentials url = is_some url.username || is_some url.password

  with_port : Option (Option ℕ) → Option Text → Option (Text × ℕ)
  with_port none hostname = none
  with_port (some port) none = none
  with_port (some port) (some hostname) = some (hostname, port_or 443 port)

  normalized_hostname : Option Text → Option Text
  normalized_hostname none = none
  normalized_hostname (some hostname) = normalize_auth_hostname hostname

  unfoldable pub forwarded_hostname : Text → Option (Text × ℕ)
  unfolding with_port normalized_hostname
  forwarded_hostname value =
      let url = wire.urlparse (codes "//" ++ strip value) in
      if has_credentials url
        || not (url.path == [])
        || not (url.query == [])
        || not (url.fragment == [])
      then none
      else with_port url.port (normalized_hostname url.hostname)

  abbrev has_more : Url → Bool
  has_more url =
      not (url.path == [] || url.path == codes "/")
      || not (url.params == [])
      || not (url.query == [])

  unfoldable pub header_origin : Bool → Text → Option Origin
  unfolding origin_at
  header_origin allow_path value =
      let url = wire.urlparse (strip value) in
      if has_credentials url || (not allow_path && has_more url) || not (url.fragment == [])
      then none
      else origin_at url.scheme url.hostname url.port (default_port url.scheme)

  forwarded : Option Text → Option (Text × ℕ)
  forwarded none = none
  forwarded (some value) = forwarded_hostname value

  host_error : Request → Text → Option (Text × ℕ) → Option String
  host_error request hostname none = some "hostname_mismatch"
  host_error request hostname (some (host, port)) =
      if not (port == 443)
      then some "https_port_required"
      else if not (host == hostname)
      then some "hostname_mismatch"
      else if not (is_some request.url_port)
      then some "hostname_mismatch"
      else if not
            (request.url_scheme == (if request.is_websocket then codes "wss" else codes "https"))
          || not (is_text (normalize_auth_hostname (text_or_empty request.url_hostname)) hostname)
          || not (is_default_port request.url_port)
      then some "hostname_mismatch"
      else none

  proxy_error : Request → Option Text → Option String
  proxy_error request none = some "invalid_hostname"
  proxy_error request (some hostname) =
      if not request.proxy.explicitly_trusted
      then some "proxy_not_configured"
      else if not (is_text request.proxy.forwarded_proto (codes "https"))
      then some "https_required"
      else if not (is_text request.proxy.forwarded_port (codes "443"))
      then some "https_port_required"
      else host_error request hostname (forwarded request.proxy.forwarded_host)

  unfoldable pub auth_proxy_error : Request → Text → Option String
  unfolding proxy_error host_error forwarded
  auth_proxy_error request hostname = proxy_error request (normalize_auth_hostname hostname)

  unfoldable pub request_origin : Request → Option Origin
  unfolding origin_at
  request_origin request =
      let scheme = lower request.url_scheme in
      origin_at scheme request.url_hostname request.url_port (default_port scheme)

  abbrev same_origin : Option Origin → Option Origin → Bool
  same_origin none none = true
  same_origin none (some b) = false
  same_origin (some a) none = false
  same_origin (some a) (some b) =
      a.scheme == b.scheme && a.hostname == b.hostname && a.port == b.port

  abbrev is_null : Text → Bool
  is_null value = lower (strip value) == codes "null"

  -- The referer decides, and without one the fetch metadata.
  referer_is_invalid : Request → Text → Option Text → Bool
  referer_is_invalid request fetch_site none = not (fetch_site == codes "same-origin")
  referer_is_invalid request fetch_site (some referer) =
      not (same_origin (header_origin true referer) (request_origin request))

  origin_is_invalid : Request → Text → Option Text → Bool
  origin_is_invalid request fetch_site none = referer_is_invalid request fetch_site request.referer
  origin_is_invalid request fetch_site (some origin) =
      if is_null origin
      then referer_is_invalid request fetch_site request.referer
      else not (same_origin (header_origin false origin) (request_origin request))

  abbrev pub unsafe_methods : List Text
  unsafe_methods = codes "POST" ∷ codes "PUT" ∷ codes "PATCH" ∷ codes "DELETE" ∷ []

  unfoldable pub unsafe_request_has_invalid_origin : Request → Bool
  unfolding origin_is_invalid referer_is_invalid
  unsafe_request_has_invalid_origin request =
      let fetch_site = lower (strip (text_or_empty request.sec_fetch_site)) in
      if not (contains request.method unsafe_methods)
      then false
      else if fetch_site == codes "cross-site"
      then true
      else origin_is_invalid request fetch_site request.origin

  abbrev equals_origin : Option Origin → Option Text → Bool
  equals_origin origin none = false
  equals_origin origin (some hostname) =
      same_origin origin (some (record { scheme = codes "https"; hostname = hostname; port = 443 }))

  websocket_origin : Option Text → Option Origin
  websocket_origin none = none
  websocket_origin (some origin) = header_origin false origin

  unfoldable pub websocket_origin_is_valid : Request → Text → Bool
  unfolding websocket_origin
  websocket_origin_is_valid request hostname =
      equals_origin (websocket_origin request.origin) (normalize_auth_hostname hostname)
