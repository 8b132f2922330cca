-- ===== src/Examples/Accounts.antt =====
-- User management at an installation where one administrator is the last way in.
use open_sec_dash.Prelude.{◌≡◌, refl, some, none, List, [], ◌∷◌, arith}
use open_sec_dash.Prelude.Sums.{sum_by}
use open_sec_dash.Database.{Database, get_setting_value, lookup_setting}
use open_sec_dash.Auth.{
  unlink_external_identity, delete_user_sessions, active_admin_count, active_oidc_admin_count,
  find_user_external_identity,
}
use open_sec_dash.Auth.Admins.{IsKeyed}
use open_sec_dash.Oidc.{
  load_config, password_login_enabled, oidc_login_available, effective_password_login_enabled,
  admin_reachability_error,
}
use open_sec_dash.Oidc.Reachability.{password_admin_count, IsReachable, CanSignIn}
use open_sec_dash.Preferences.{Preferences, normalize_preferences}
use open_sec_dash.Preferences.Laws.{
  IsAllowed, as_values, normalize_preferences_fixed, effective_preferences-IsAllowed,
}
use open_sec_dash.Preferences.{effective_preferences}
use open_sec_dash.Users.{
  revoke_user_external_identity, change_user_role, update_user, toggle_user, auth_error,
}
use open_sec_dash.Users.Requests.{
  Request, toggle, change_role, revoke_link, handle, serve, serve-CanSignIn,
}
use open_sec_dash.Examples.{installation, platform}

installation-IsKeyed : IsKeyed installation
unfolding sum_by
installation-IsKeyed = record {
  user_ids = λ k. ground arith;
  user_links = λ k provider. ground arith;
}

pub installation-IsReachable : IsReachable installation
unfolding active_admin_count password_login_enabled get_setting_value oidc_login_available
    load_config active_oidc_admin_count sum_by lookup_setting
installation-IsReachable = record {
  some_admin = omega arith;
  some_way = λ off. (refl, omega arith);
}

abbrev requests : List Request
requests = toggle 2 ∷ toggle 1 ∷ change_role 2 "viewer" ∷ []

serve-CanSignIn_example : CanSignIn (serve platform installation requests)
unfolding effective_password_login_enabled password_login_enabled oidc_login_available load_config
    get_setting_value lookup_setting
serve-CanSignIn_example =
    serve-CanSignIn platform installation requests installation-IsKeyed installation-IsReachable
      λ on. absurd (ground arith)

-- The administrator who is the last one linked to the provider cannot be deactivated.
last_oidc_admin_stays : toggle_user installation 2 ≡ (installation, auth_error "last_oidc_admin")
unfolding toggle_user admin_reachability_error active_admin_count active_oidc_admin_count sum_by
    effective_password_login_enabled password_login_enabled oidc_login_available load_config
    get_setting_value lookup_setting find_user_external_identity
last_oidc_admin_stays = refl

-- While password sign-in is open the check asks for no password: when the link of Bob, who has none, is
-- revoked and Alice is no administrator any more, nobody can sign in and administrate.
abbrev open_installation : Database
open_installation = record installation { settings = [] }

abbrev locking_out : List Request
locking_out = revoke_link none 2 ∷ change_role 1 "viewer" ∷ []

serve_locks_out :
    (password_admin_count (serve platform open_installation locking_out) ≡ 0)
    × (active_oidc_admin_count
          (serve platform open_installation locking_out)
          "https://id.example"
          none
        ≡ 0)
unfolding serve handle revoke_user_external_identity change_user_role admin_reachability_error
    active_admin_count active_oidc_admin_count sum_by effective_password_login_enabled
    password_login_enabled oidc_login_available load_config get_setting_value lookup_setting
    find_user_external_identity unlink_external_identity delete_user_sessions update_user
    password_admin_count
serve_locks_out = (refl, refl)

abbrev german : Preferences
german = record {
  language = "de";
  live_default = "false";
  theme = "dark";
  accent_color = "red";
  live_page_refresh = "true";
}

german-IsAllowed : IsAllowed german
german-IsAllowed = record {
  language = refl;
  live_default = refl;
  theme = refl;
  accent_color = refl;
  live_page_refresh = refl;
}

normalize_preferences_fixed_example : normalize_preferences (as_values german) ≡ german
normalize_preferences_fixed_example = normalize_preferences_fixed german german-IsAllowed

effective_preferences-IsAllowed_example : IsAllowed (effective_preferences installation (some 1))
effective_preferences-IsAllowed_example = effective_preferences-IsAllowed installation (some 1)
