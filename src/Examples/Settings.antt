-- ===== src/Examples/Settings.antt =====
-- Provider settings at the installation where password sign-in is off.
use open_sec_dash.Prelude.{◌≡◌, refl, none, some, List, [], ◌∷◌}
use open_sec_dash.Database.{Database, get_setting_value, lookup_setting}
use open_sec_dash.Oidc.{
  load_config, password_login_enabled, oidc_login_available, effective_password_login_enabled,
}
use open_sec_dash.Prelude.Text.{lower}
use open_sec_dash.Auth.{auth_disabled_by_environment}
use open_sec_dash.Oidc.Reachability.{CanSignIn, password_admin_count}
use open_sec_dash.OidcSettings.{Visit, found, failed, oidc_error, persist_oidc_configuration}
use open_sec_dash.OidcSettings.Sequences.{
  Request, save_configuration, enable, disable, disable_password, serve_settings,
  serve_settings-CanSignIn,
}
use open_sec_dash.Prelude.Sums.{sum_by}
use open_sec_dash.Auth.{auth_enabled, find_user_external_identity, active_oidc_admin_count}
use open_sec_dash.OidcSettings.{boundary_error, disable_password_login, disable_password_of}
use open_sec_dash.OidcSettings.Proof.{IsAnswered, disable_password_login-IsAnswered}
use open_sec_dash.OidcSettings.{
  oidc_notice, disable_oidc, enforce_login_methods, drop_sessions,
  revoke_all_sessions_during_recovery,
}
use open_sec_dash.Auth.{delete_sessions_by_auth_method}
use open_sec_dash.Database.{save_setting, write_setting}
use open_sec_dash.Examples.{bob}
use open_sec_dash.Prelude.{false, arith}
use open_sec_dash.Examples.{installation}
use open_sec_dash.Examples.Accounts.{installation-IsReachable}

abbrev visit : Visit
visit = record {
  proxy_error = λ hostname. none;
  environment = [];
  request_user = some 2;
  auth_method = some "oidc";
  now = "2026-01-01T00:00:00";
}

abbrev visits : List (Visit × Request)
visits =
    (visit, enable (failed "discovery_failed"))
    ∷ (visit, disable)
    ∷ (
      visit,
      save_configuration installation "https://new.example" "dash" "s"
          (found "https://new.example"),
    )
    ∷ (visit, disable_password)
    ∷ []

serve_settings-CanSignIn_example : CanSignIn (serve_settings [] installation visits)
unfolding auth_disabled_by_environment lower password_admin_count sum_by
serve_settings-CanSignIn_example =
    serve_settings-CanSignIn [] installation visits refl installation-IsReachable (omega arith)

-- Where the only administrator has no password, switching the provider off leaves nobody who can
-- sign in: the provider is unavailable and no password opens an administrator's account.
abbrev only_bob : Database
only_bob = record installation { users = bob ∷ []; settings = ("auth.oidc.enabled", "true") ∷ [] }

disable_oidc_locks_out :
    (password_admin_count (disable_oidc visit only_bob).0 ≡ 0)
    × (oidc_login_available (load_config (disable_oidc visit only_bob).0) ≡ false)
unfolding disable_oidc boundary_error auth_disabled_by_environment lower enforce_login_methods
    drop_sessions delete_sessions_by_auth_method revoke_all_sessions_during_recovery save_setting
    write_setting get_setting_value lookup_setting oidc_login_available load_config
    password_login_enabled password_admin_count sum_by
disable_oidc_locks_out = (refl, refl)

-- While the provider is the only way in, its configuration cannot be changed.
only_way_is_locked :
    persist_oidc_configuration visit installation "u" "c" "s" "https://new.example"
    ≡ (installation, oidc_error "password_login_locked")
unfolding persist_oidc_configuration effective_password_login_enabled password_login_enabled
    oidc_login_available load_config get_setting_value lookup_setting auth_disabled_by_environment
    lower
only_way_is_locked = refl

abbrev with_auth : Database
with_auth = record installation {
  settings =
      ("auth.enabled", "true")
      ∷ ("auth.oidc.enabled", "true")
      ∷ ("auth.oidc.discovery_url", "https://id.example/.well-known")
      ∷ ("auth.oidc.client_id", "dash")
      ∷ ("auth.oidc.client_secret", "secret")
      ∷ ("auth.oidc.issuer", "https://id.example")
      ∷ [];
}

-- Bob has signed in through the provider, and password sign-in is open until he switches it off.
disable_password_login-IsAnswered_example :
    IsAnswered visit with_auth (disable_password_login visit with_auth)
disable_password_login-IsAnswered_example = disable_password_login-IsAnswered visit with_auth

bob_switches_off :
    (disable_password_login visit with_auth).1 ≡ oidc_notice "password_login_disabled"
unfolding disable_password_login disable_password_of boundary_error auth_enabled
    auth_disabled_by_environment lower oidc_login_available load_config get_setting_value
    lookup_setting find_user_external_identity active_oidc_admin_count sum_by
bob_switches_off = refl
