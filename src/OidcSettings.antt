-- ===== src/OidcSettings.antt =====
-- backend/app/api/oidc_settings.py: the administrator's requests that change the OIDC provider and
-- the password sign-in switch. A handler returns the committed database and where it redirects.
--
-- `Visit` holds what a handler reads of its request and surroundings. The answer of the provider
-- is an argument; a handler is one step, also around the await of that answer. The save of a
-- configuration reads the database again after the await, and is split there.
pub mod Reachability
pub mod Requests
pub mod Proof
pub mod Accounts
pub mod Sequences
use open_sec_dash.Prelude.{
  ℕ, String, Bool, true, false, not, ◌&&◌, ◌||◌, Option, none, some, [], ◌==◌, string_eq, nat_eq,
  if◌then◌else◌,
}
use open_sec_dash.Prelude.Text.{Text}
use open_sec_dash.Prelude.Sums.{find}
use open_sec_dash.Database.{User, Database, get_setting_value, save_setting}
use open_sec_dash.Auth.{
  auth_disabled_by_environment, auth_enabled, delete_sessions_by_auth_method, has_issuer,
  find_user_external_identity, active_oidc_admin_count,
}
use open_sec_dash.Oidc.{
  OidcConfig, nonempty, complete, load_config, password_login_enabled, oidc_login_available,
  effective_password_login_enabled,
}

-- `RedirectResponse` to /settings?oidc_error=…, ?oidc_notice=… or ?auth_error=….
pub data Outcome : Type 0 where
  oidc_error : String → Outcome
  oidc_notice : String → Outcome
  boundary_refused : String → Outcome

abbrev pub Done : Type 0
Done = Database × Outcome

pub record Visit : Type 0 where
  -- `auth_proxy_error(request, hostname)`
  pub proxy_error : String → Option String
  -- the value of OSD_AUTH_DISABLED
  pub environment : Text
  pub request_user : Option ℕ
  pub auth_method : Option String
  -- `utc_now().replace(microsecond=0).isoformat()`
  pub now : String

-- What `check_provider` returns or raises.
pub data ProviderCheck : Type 0 where
  found : String → ProviderCheck
  failed : String → ProviderCheck

unfoldable pub boundary_error : Visit → Database → Option String
boundary_error visit db =
    if auth_disabled_by_environment visit.environment
    then none
    else visit.proxy_error (get_setting_value db "auth.hostname" "")

-- The body of a handler runs where the boundary has no error.
abbrev pub within : Option String → Database → Done → Done
within (some error) db done = (db, boundary_refused error)
within none db done = done

unfoldable pub enforce_login_methods : Database → Database
enforce_login_methods db =
    if not (oidc_login_available (load_config db)) && not (password_login_enabled db)
    then save_setting db "auth.password_login_enabled" "true"
    else db

unfoldable pub revoke_all_sessions_during_recovery : Visit → Database → Database
revoke_all_sessions_during_recovery visit db =
    if auth_disabled_by_environment visit.environment then record db { sessions = [] } else db

unfoldable pub record_check : Visit → Database → String → String → String → Database
record_check visit db status issuer error =
    let db' =
      save_setting
        (save_setting (save_setting db "auth.oidc.check_status" status) "auth.oidc.check_at"
          visit.now)
        "auth.oidc.check_error" error in
    if nonempty issuer then save_setting db' "auth.oidc.issuer" issuer else db'

-- The two methods that the handlers name are supported, so the ValueError does not occur.
abbrev or_unchanged : Database → Option Database → Database
or_unchanged db none = db
or_unchanged db (some db') = db'

unfoldable pub drop_sessions : String → Database → Database
drop_sessions method db = or_unchanged db (delete_sessions_by_auth_method db method)

-- Password sign-in is off and emergency access is not active.
abbrev pub locked : Visit → Database → Bool
locked visit db =
    not (effective_password_login_enabled db)
    && not (auth_disabled_by_environment visit.environment)

abbrev pub provider_changed : OidcConfig → String → String → String → String → Bool
provider_changed config url client_id secret issuer =
    not (url == config.discovery_url)
    || not (client_id == config.client_id)
    || not (secret == config.client_secret)
    || not (issuer == config.issuer)

unfoldable pub written_configuration :
    Visit → Database → String → String → String → String → Database
written_configuration visit db url client_id secret issuer =
    let db' =
      save_setting
        (save_setting (save_setting db "auth.oidc.discovery_url" url) "auth.oidc.client_id"
          client_id)
        "auth.oidc.client_secret" secret in
    record_check visit db' "healthy" issuer ""

abbrev pub secret_or_stored : String → Database → String
secret_or_stored secret db = if nonempty secret then secret else (load_config db).client_secret

-- The step after the provider's answer, on the database as it is then.
unfoldable pub persist_oidc_configuration :
    Visit → Database → String → String → String → String → Done
persist_oidc_configuration visit db url client_id submitted_secret issuer =
    let secret = secret_or_stored submitted_secret db in
    let db' = written_configuration visit db url client_id secret issuer in
    let dropped =
      if provider_changed (load_config db) url client_id secret issuer
      then drop_sessions "oidc" db'
      else db' in
    if locked visit db
    then (db, oidc_error "password_login_locked")
    else if not (nonempty secret)
    then (db, oidc_error "incomplete_config")
    else (
      enforce_login_methods (revoke_all_sessions_during_recovery visit dropped),
      oidc_notice "configuration_saved",
    )

abbrev pub persist_found : Visit → Database → String → String → String → ProviderCheck → Done
persist_found visit db url client_id secret (failed code) = (db, oidc_error code)
persist_found visit db url client_id secret (found issuer) =
    persist_oidc_configuration visit db url client_id secret issuer

-- `url` and `client_id` are the stripped form fields; `now_db` is the database after the await.
unfoldable pub save_oidc_configuration :
    Visit → Database → Database → String → String → String → ProviderCheck → Done
save_oidc_configuration visit db now_db url client_id secret check =
    within (boundary_error visit db) now_db (
      if locked visit db
      then (now_db, oidc_error "password_login_locked")
      else if not (nonempty url)
          || not (nonempty client_id)
          || not (nonempty (secret_or_stored secret db))
      then (now_db, oidc_error "incomplete_config")
      else persist_found visit now_db url client_id secret check)

unfoldable pub enable_found : Visit → Database → ProviderCheck → Done
enable_found visit db (failed code) = (record_check visit db "error" "" code, oidc_error code)
enable_found visit db (found issuer) =
    if nonempty (load_config db).issuer && not (issuer == (load_config db).issuer)
    then (record_check visit db "error" "" "invalid_issuer", oidc_error "invalid_issuer")
    else (
      enforce_login_methods
          (save_setting (record_check visit db "healthy" issuer "") "auth.oidc.enabled" "true"),
      oidc_notice "enabled",
    )

unfoldable pub enable_oidc : Visit → Database → ProviderCheck → Done
unfolding enable_found
enable_oidc visit db check = within (boundary_error visit db) db (
    if not (complete (load_config db))
    then (db, oidc_error "incomplete_config")
    else enable_found visit db check)

unfoldable pub disable_oidc : Visit → Database → Done
disable_oidc visit db = within (boundary_error visit db) db (
  revoke_all_sessions_during_recovery visit
      (enforce_login_methods (drop_sessions "oidc" (save_setting db "auth.oidc.enabled" "false"))),
  oidc_notice "disabled",
)

unfoldable pub without_secret : Visit → Database → Database
without_secret visit db =
    record_check visit
      (save_setting (save_setting db "auth.oidc.client_secret" "") "auth.oidc.enabled" "false")
      "error" "" "incomplete_config"

unfoldable pub delete_oidc_client_secret : Visit → Database → Done
unfolding without_secret
delete_oidc_client_secret visit db = within (boundary_error visit db) db (
    if locked visit db then (db, oidc_error "password_login_locked") else (
      revoke_all_sessions_during_recovery visit
          (enforce_login_methods (drop_sessions "oidc" (without_secret visit db))),
      oidc_notice "secret_deleted",
    ))

unfoldable pub save_oidc_jit : Visit → Database → String → Done
save_oidc_jit visit db jit_enabled = within (boundary_error visit db) db (
  enforce_login_methods
      (save_setting db "auth.oidc.jit_enabled" (if jit_enabled == "true" then "true" else "false")),
  oidc_notice "jit_saved",
)

-- The row of the request's user, and whether it is an active administrator.
abbrev pub requesting_user : Database → Option ℕ → Option User
requesting_user db none = none
requesting_user db (some user_id) = find (λ u. u.id) user_id db.users

-- `getattr(request.state, "auth_method", None) == method`
abbrev pub is_method : Option String → String → Bool
is_method none method = false
is_method (some m) method = m == method

unfoldable pub disable_password_of : Visit → Database → Option User → Done
disable_password_of visit db none = (db, oidc_error "password_login_needs_admin")
disable_password_of visit db (some user) =
    let issuer = (load_config db).issuer in
    if not (user.role == "admin") || not user.is_active
    then (db, oidc_error "password_login_needs_admin")
    else if not (is_method visit.auth_method "oidc")
    then (db, oidc_error "password_login_needs_oidc_session")
    else if not (has_issuer issuer (find_user_external_identity db user.id "oidc"))
    then (db, oidc_error "password_login_needs_link")
    else if active_oidc_admin_count db issuer none == 0
    then (db, oidc_error "password_login_needs_oidc_admin")
    else (
      drop_sessions "password" (save_setting db "auth.password_login_enabled" "false"),
      oidc_notice "password_login_disabled",
    )

unfoldable pub disable_password_login : Visit → Database → Done
unfolding disable_password_of
disable_password_login visit db = within (boundary_error visit db) db (
    if not (auth_enabled db visit.environment)
    then (db, oidc_error "password_login_needs_auth")
    else if not (oidc_login_available (load_config db))
    then (db, oidc_error "password_login_needs_oidc")
    else disable_password_of visit db (requesting_user db visit.request_user))

unfoldable pub enable_password_login : Visit → Database → Done
enable_password_login visit db = within (boundary_error visit db) db (
  revoke_all_sessions_during_recovery visit (save_setting db "auth.password_login_enabled" "true"),
  oidc_notice "password_login_enabled",
)
