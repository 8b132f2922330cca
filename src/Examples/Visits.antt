-- ===== src/Examples/Visits.antt =====
-- Requests behind a proxy, and what the gate makes of them.
use open_sec_dash.Prelude.{
  String, ◌≡◌, refl, ◌⊎◌, true, false, Option, none, some, List, [], ◌∷◌, ◌==◌,
}
use open_sec_dash.Prelude.Text.{upper, Text, text_eq, codes, lower, strip, split, before}
use open_sec_dash.Database.{User, Database, get_setting_value, lookup_setting}
use open_sec_dash.Auth.{
  resolve_session_with_method, method_or_password, auth_enabled, auth_disabled_by_environment,
}
use open_sec_dash.Proxy.{
  Ip, Scope, ProxyHeaders, ProxyState, proxy_headers, client_from_x_forwarded_for, ip_addresses,
  client_from_addresses, last_untrusted, is_trusted_address, trusted_peer, forwarded,
  throttle_client_address, apply_port, apply_host, first_forwarded_header, apply_proto,
  peer_address, client_is_trusted,
}
use open_sec_dash.Proxy.Addresses.{
  IsLastUntrusted, IsFirst, all_trusted, client_from_x_forwarded_for-IsLastUntrusted,
}
use open_sec_dash.Proxy.Headers.{
  IsThrottled, IsIgnored, proxy_headers-IsThrottled, proxy_headers-IsIgnored,
}
use open_sec_dash.Gate.{
  passes, auth_gating_middleware, onboarding_state, gate_enabled, is_public_path, gate_session,
  gate_user, with_ranks, role_order,
}
use open_sec_dash.Gate.Origins.{
  Url, Wire, Request, unsafe_request_has_invalid_origin, header_origin, request_origin,
  auth_proxy_error, normalize_auth_hostname, is_label, forwarded_hostname,
}
use open_sec_dash.Gate.Passage.{IsOpen, IsAdmitted, auth_gating_middleware-IsAdmitted}
use open_sec_dash.Gate.Roles.{required_role-settings, auth_gating_middleware-IsAdmin}
use open_sec_dash.Gate.Permissions.{
  required_role, role_in, route_permissions, permissions, matches_segments, is_param, is_rest,
  has_line_break,
}
use open_sec_dash.Examples.{installation, platform, alice}

-- Addresses are their text, and a network holds one address.
read_address : Text → Option Text
read_address [] = none
read_address (c ∷ s) = some (c ∷ s)

abbrev ip : Ip Text Text
ip = record {
  ip_address = read_address;
  ip_network = read_address;
  to_text = λ a. a;
  ipv4_mapped = λ a. none;
  is_in = λ a network. a == network;
}

abbrev trusted : List Text
trusted = codes "10.0.0.1" ∷ codes "10.0.0.2" ∷ []

client_from_x_forwarded_for-IsLastUntrusted_example :
    (addresses : List Text) × (ip_addresses ip (split b',' (codes "7.7.7.7, 8.8.8.8, 10.0.0.2"))
      ≡ some addresses)
    × (IsLastUntrusted ip (some trusted) addresses (codes "8.8.8.8")
        ⊎ ((all_trusted ip (some trusted) addresses ≡ true)
            × IsFirst ip (some trusted) addresses (codes "8.8.8.8")))
unfolding client_from_x_forwarded_for client_from_addresses ip_addresses split read_address strip
    last_untrusted is_trusted_address
client_from_x_forwarded_for-IsLastUntrusted_example =
    client_from_x_forwarded_for-IsLastUntrusted ip (some trusted)
      (codes "7.7.7.7, 8.8.8.8, 10.0.0.2") (codes "8.8.8.8") refl

abbrev behind_proxy : Scope
behind_proxy = record {
  kind = codes "http";
  headers =
      (codes "X-Forwarded-For", codes "8.8.8.8") ∷ (codes "X-Forwarded-Proto", codes "https") ∷ [];
  client = some (codes "10.0.0.1", 5000);
  scheme = codes "http";
}

abbrev middleware : ProxyHeaders Text
middleware = record { trusted_proxies = some trusted; explicit_trust = true }

abbrev forwarded_state : ProxyState
forwarded_state = record {
  explicitly_trusted = true;
  client_address = some (codes "8.8.8.8");
  peer_address = some (codes "10.0.0.1");
  forwarded_proto = some (codes "https");
  forwarded_host = none;
  forwarded_port = none;
}

proxy_headers-IsThrottled_example : IsThrottled ip (some trusted) behind_proxy forwarded_state
unfolding proxy_headers is_trusted_address read_address trusted_peer forwarded
    throttle_client_address apply_port apply_host first_forwarded_header lower apply_proto strip
    before client_from_x_forwarded_for peer_address client_from_addresses ip_addresses split
    last_untrusted client_is_trusted
proxy_headers-IsThrottled_example =
    proxy_headers-IsThrottled ip middleware behind_proxy forwarded_state refl

abbrev spoofed : Scope
spoofed = record behind_proxy { client = some (codes "6.6.6.6", 5000) }

proxy_headers-IsIgnored_example : IsIgnored ip spoofed (proxy_headers ip middleware spoofed)
unfolding client_is_trusted is_trusted_address read_address
proxy_headers-IsIgnored_example = proxy_headers-IsIgnored ip middleware spoofed refl refl

abbrev no_url : Url
no_url = record {
  scheme = codes "https";
  hostname = some (codes "osd.example");
  port = some none;
  username = none;
  password = none;
  path = [];
  params = [];
  query = [];
  fragment = [];
}

abbrev wire : Wire
wire = record {
  urlparse = λ text. no_url;
  encode_idna = λ text. some text;
  is_ip_address = λ text. false;
}

-- Alice's request to create a user
abbrev create_request : Request
create_request = record {
  method = codes "POST";
  path = codes "/settings/users/create";
  is_websocket = false;
  wants_json = false;
  url_scheme = codes "https";
  url_hostname = some (codes "osd.example");
  url_port = some none;
  proxy = record forwarded_state {
    forwarded_host = some (codes "osd.example");
    forwarded_port = some (codes "443");
  };
  sec_fetch_site = some (codes "same-origin");
  origin = some (codes "https://osd.example");
  referer = none;
  session_cookie = some "t";
}

abbrev guarded : Database
guarded = record installation {
  sessions =
      record { token_hash = "t"; user_id = 1; expires_at = 100; auth_method = "password" } ∷ [];
  settings = ("auth.enabled", "true") ∷ ("auth.hostname", "osd.example") ∷ [];
}

required_role-settings_example : required_role (codes "post") (codes "/settings/anything") ≡ "admin"
unfolding upper split
required_role-settings_example =
    required_role-settings (codes "post") (codes "/settings/anything") (codes "anything" ∷ []) refl
      refl

create_request_passes :
    (auth_gating_middleware platform wire guarded [] 99 create_request).1
    ≡ passes (some (alice, "password"))
unfolding auth_gating_middleware auth_enabled auth_disabled_by_environment lower upper strip split
    get_setting_value lookup_setting unsafe_request_has_invalid_origin header_origin request_origin
    onboarding_state gate_enabled auth_proxy_error normalize_auth_hostname is_label
    forwarded_hostname is_public_path gate_session gate_user with_ranks role_order required_role
    role_in route_permissions permissions matches_segments is_param is_rest has_line_break
    resolve_session_with_method method_or_password
create_request_passes = refl

auth_gating_middleware-IsAdmin_example :
    (alice.role ≡ "admin") × IsAdmitted platform wire guarded 99 create_request alice "password"
unfolding auth_enabled auth_disabled_by_environment lower upper strip split get_setting_value
    lookup_setting
auth_gating_middleware-IsAdmin_example =
    auth_gating_middleware-IsAdmin platform wire guarded [] 99 create_request alice "password"
      (codes "users" ∷ codes "create" ∷ []) refl refl refl refl create_request_passes

auth_gating_middleware-IsAdmitted_example :
    (unsafe_request_has_invalid_origin wire create_request ≡ false)
    × (((◌≡◌ {A = Option (User × String)} (some (alice, "password")) none)
          × IsOpen platform wire guarded 99 create_request)
        ⊎ ((user : User) × (method : String) × (◌≡◌ {A = Option (User × String)}
              (some (alice, "password"))
              (some (user, method)))
            × IsAdmitted platform wire guarded 99 create_request user method))
unfolding auth_enabled auth_disabled_by_environment lower strip get_setting_value lookup_setting
auth_gating_middleware-IsAdmitted_example =
    auth_gating_middleware-IsAdmitted platform wire guarded 99 create_request []
      (some (alice, "password")) refl refl create_request_passes
