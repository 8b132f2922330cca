-- ===== src/Gate/Permissions.antt =====
-- backend/app/web/permissions.py: the role that each route requires.
--
-- `compile_path` of Starlette is matched segment by segment: `{name}` stands for one segment that is
-- not empty, and `{name:path}` at the end for any rest without a line break.
use open_sec_dash.Prelude.{
  ◌≡◌, refl, String, Bool, true, false, not, ◌&&◌, ◌||◌, List, [], ◌∷◌, ◌++◌, ◌==◌, nat_eq,
  contains, if◌then◌else◌,
}
use open_sec_dash.Prelude.Text.{Text, text_eq, codes, upper, split}

pub record RoutePermission : Type 0 where
  pub method : Text
  pub path : Text
  pub owner : String
  pub category : String
  pub role : String

unfoldable pub permissions :
    String → String → String → List (String × String) → List RoutePermission
permissions owner category role [] = []
permissions owner category role ((method, path) ∷ routes) =
    record {
      method = codes method;
      path = codes path;
      owner = owner;
      category = category;
      role = role;
    }
    ∷ permissions owner category role routes

-- The segments of a path, in order: "/a/b" has the segments "", "a" and "b".
abbrev pub segments : Text → List Text
segments = split b'/'

abbrev pub is_blank : Text → Bool
is_blank [] = true
is_blank (c ∷ s) = false

-- `{name}`, and `{name:path}`
unfoldable pub is_param : Text → Bool
is_param [] = false
is_param (c ∷ s) = c == b'{'

unfoldable pub is_rest : Text → Bool
is_rest [] = false
is_rest (c ∷ s) = c ∷ s == codes ":path}" || is_rest s

unfoldable pub has_line_break : List Text → Bool
has_line_break [] = false
has_line_break (s ∷ ss) = contains 10 s || has_line_break ss

unfoldable pub matches_segments : List Text → List Text → Bool
matches_segments [] [] = true
matches_segments [] (s ∷ ss) = false
matches_segments (t ∷ ts) [] = false
matches_segments (t ∷ ts) (s ∷ ss) =
    if is_param t && is_rest t
    then not (has_line_break (s ∷ ss))
    else (if is_param t then not (is_blank s) else t == s) && matches_segments ts ss

abbrev pub is_route : Text → List Text → RoutePermission → Bool
is_route method path permission =
    permission.method == method && matches_segments (segments permission.path) path

unfoldable pub route_permissions : List RoutePermission
unfolding permissions
route_permissions =
    permissions "core" "public" "public" (
      ("GET", "/login")
      ∷ ("POST", "/login")
      ∷ ("GET", "/auth/oidc/login")
      ∷ ("GET", "/auth/oidc/callback")
      ∷ ("GET", "/manifest.webmanifest")
      ∷ ("GET", "/sw.js")
      ∷ ("GET", "/health")
      ∷ ("GET", "/ready")
      ∷ [])
    ++ permissions "core" "read-only" "viewer" (
        ("GET", "/")
        ∷ ("GET", "/fragments/backlog-banner")
        ∷ ("GET", "/search")
        ∷ ("GET", "/rollups")
        ∷ ("GET", "/events")
        ∷ ("GET", "/insights/{insight_id}")
        ∷ ("GET", "/ip/{ip:path}")
        ∷ ("GET", "/assets")
        ∷ ("GET", "/assets/system/{system_id}")
        ∷ ("GET", "/assets/app/{asset_id}")
        ∷ ("GET", "/diagnostics")
        ∷ ("GET", "/notifications")
        ∷ ("GET", "/account")
        ∷ ("GET", "/api/events")
        ∷ ("GET", "/api/insights/export")
        ∷ ("GET", "/api/events/{event_id}")
        ∷ ("GET", "/api/actions")
        ∷ ("GET", "/api/actions/available")
        ∷ ("GET", "/api/assets")
        ∷ ("GET", "/instance/logo")
        ∷ ("GET", "/instance/favicon")
        ∷ ("GET", "/docs")
        ∷ ("GET", "/docs/oauth2-redirect")
        ∷ ("GET", "/openapi.json")
        ∷ ("GET", "/redoc")
        ∷ [])
    ++ permissions "core" "personal-preference" "viewer" (
        ("POST", "/views")
        ∷ ("POST", "/views/{view_id}/delete")
        ∷ ("POST", "/dashboard/layout")
        ∷ ("POST", "/dashboard/layout/reset")
        ∷ ("POST", "/events/columns")
        ∷ ("POST", "/account/preferences")
        ∷ ("POST", "/account/oidc/link")
        ∷ ("POST", "/account/oidc/unlink")
        ∷ ("POST", "/auth/password")
        ∷ ("POST", "/auth/logout")
        ∷ [])
    ++ permissions "core" "operational" "operator" (
        ("POST", "/api/actions")
        ∷ ("POST", "/actions/ip")
        ∷ ("POST", "/api/assets/refresh-updates")
        ∷ ("POST", "/notifications/test")
        ∷ ("POST", "/assets/{asset_id}/mqtt")
        ∷ ("POST", "/assets/refresh-updates")
        ∷ [])
    ++ permissions "core" "administration" "admin"
        (("GET", "/onboarding") ∷ ("POST", "/onboarding") ∷ [])
    ++ permissions "core" "administration" "admin" (
        ("POST", "/api/events")
        ∷ ("GET", "/api/settings")
        ∷ ("GET", "/api/settings/{key}")
        ∷ ("PUT", "/api/settings/{key}")
        ∷ ("GET", "/settings")
        ∷ ("GET", "/diagnostics/debug-report")
        ∷ ("POST", "/settings/core")
        ∷ ("POST", "/settings/notifications")
        ∷ ("POST", "/settings/asset-updates")
        ∷ ("POST", "/settings/plugins/{plugin_id}")
        ∷ ("POST", "/settings/plugins/{plugin_id}/secrets/{short_key}/delete")
        ∷ ("POST", "/settings/branding")
        ∷ ("POST", "/settings/branding/remove")
        ∷ ("POST", "/settings/auth/enable")
        ∷ ("POST", "/settings/auth/hostname")
        ∷ ("POST", "/settings/auth/oidc")
        ∷ ("POST", "/settings/auth/oidc/enable")
        ∷ ("POST", "/settings/auth/oidc/disable")
        ∷ ("POST", "/settings/auth/oidc/secret/delete")
        ∷ ("POST", "/settings/auth/oidc/jit")
        ∷ ("POST", "/settings/auth/password-login/enable")
        ∷ ("POST", "/settings/auth/password-login/disable")
        ∷ ("POST", "/settings/users/create")
        ∷ ("POST", "/settings/users/{user_id}/role")
        ∷ ("POST", "/settings/users/{user_id}/password")
        ∷ ("POST", "/settings/users/password")
        ∷ ("POST", "/settings/users/{user_id}/oidc/unlink")
        ∷ ("POST", "/settings/users/{user_id}/toggle")
        ∷ ("POST", "/settings/users/{user_id}/delete")
        ∷ ("POST", "/notifications/rules")
        ∷ ("POST", "/assets/{asset_id}/metadata")
        ∷ ("POST", "/assets/cleanup-inactive")
        ∷ [])
    ++ permissions "traefik_log" "read-only" "viewer" (("GET", "/access") ∷ [])
    ++ permissions "traefik_log" "personal-preference" "viewer" (("POST", "/access/columns") ∷ [])
    ++ permissions "crowdsec" "read-only" "viewer" (("GET", "/crowdsec") ∷ [])
    ++ permissions "crowdsec" "operational" "operator" (
        ("POST", "/crowdsec/decisions/refresh")
        ∷ ("POST", "/crowdsec/asn-bans/enable")
        ∷ ("POST", "/crowdsec/asn-bans/{policy_id}/disable")
        ∷ ("POST", "/crowdsec/asn-bans/{policy_id}/exceptions/{exception_id}/remove")
        ∷ ("POST", "/crowdsec/asn-bans/{policy_id}/provider-change/acknowledge")
        ∷ [])
    ++ permissions "proxmox_assets" "operational" "operator" (("POST", "/assets/proxmox-sync") ∷ [])
    ++ permissions "mqtt" "operational" "operator" (("POST", "/assets/mqtt-publish") ∷ [])
    ++ permissions "json_assets" "administration" "admin" (
        ("POST", "/assets/import-source")
        ∷ ("POST", "/api/assets/import")
        ∷ ("POST", "/api/assets/import-source")
        ∷ [])

abbrev pub is_reading : Text → Bool
is_reading method = method == codes "GET" || method == codes "HEAD" || method == codes "OPTIONS"

unfoldable pub role_in : List RoutePermission → Text → List Text → String
role_in [] method path = if is_reading method then "viewer" else "admin"
role_in (permission ∷ permissions) method path =
    if is_route method path permission then permission.role else role_in permissions method path

unfoldable pub required_role : Text → Text → String
required_role method path = role_in route_permissions (upper method) (segments path)

settings_route : required_role (codes "post") (codes "/settings/users/7/role") ≡ "admin"
unfolding required_role role_in route_permissions split upper matches_segments is_param is_rest
settings_route = refl
