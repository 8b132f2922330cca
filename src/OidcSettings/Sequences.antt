-- ===== src/OidcSettings/Sequences.antt =====
-- Sequences of requests to the provider settings, in any order and with any arguments.
use open_sec_dash.Prelude.{
  ◌≡◌, refl, String, true, false, not, ◌||◌, Option, none, some, [], ◌==◌, string_eq, nat_eq,
  if◌then◌else◌, Bool-cases, inl, inr, arith,
}
use open_sec_dash.Database.{User, Database, save_setting}
use open_sec_dash.Database.Settings.{get-save_setting}
use open_sec_dash.Auth.{auth_disabled_by_environment, active_admin_count, active_oidc_admin_count}
use open_sec_dash.Oidc.{load_config, oidc_login_available}
use open_sec_dash.Oidc.Reachability.{
  CanSignIn, password_admin_count, IsReachable-CanSignIn, IsReachable, if-IsReachable,
  else-IsReachable,
}
use open_sec_dash.OidcSettings.{
  Visit, ProviderCheck, found, failed, Done, drop_sessions, locked, save_oidc_configuration,
  enable_oidc, disable_oidc, without_secret, delete_oidc_client_secret, save_oidc_jit,
  disable_password_of, disable_password_login, enable_password_login,
}
use open_sec_dash.OidcSettings.Reachability.{
  SamePeople, then_SamePeople, drop_sessions-SamePeople, get-drop_sessions, record_check-SamePeople,
  enforced-IsReachable, recovery-IsReachable, load_config-drop_sessions, load_config-record_check,
}
use open_sec_dash.OidcSettings.Requests.{
  within-IsReachable, disabled_config, disable_oidc-IsReachable, save_oidc_jit-IsReachable,
  enable_password_login-IsReachable, enable_found-IsReachable, persist-IsReachable,
}
use open_sec_dash.Prelude.{◌<◌, ◌∙◌, List, ◌∷◌}
use open_sec_dash.Prelude.Text.{Text}
use open_sec_dash.Auth.{
  delete_sessions_by_auth_method, auth_enabled, has_issuer, find_user_external_identity,
}
use open_sec_dash.OidcSettings.{persist_found, requesting_user, oidc_error, oidc_notice, is_method}
use open_sec_dash.OidcSettings.Accounts.{
  save_oidc_configuration-users, enable_oidc-users, disable_oidc-users,
  delete_oidc_client_secret-users, save_oidc_jit-users, enable_password_login-users,
}
use open_sec_dash.OidcSettings.Proof.{IsAnswered-users, disable_password_login-IsAnswered}
use open_sec_dash.Oidc.{complete}

without_secret-unavailable :
    (visit : Visit) (db : Database)
    → oidc_login_available (load_config (drop_sessions "oidc" (without_secret visit db))) ≡ false
unfolding without_secret
without_secret-unavailable visit db =
    let emptied = save_setting db "auth.oidc.client_secret" "" in
    rw
      (
        load_config-drop_sessions (without_secret visit db) "oidc",
        load_config-record_check visit (save_setting emptied "auth.oidc.enabled" "false") "error"
            "incomplete_config",
      )
      (disabled_config emptied)

load_config-password :
    (db : Database)
    → load_config (drop_sessions "password" (save_setting db "auth.password_login_enabled" "false"))
      ≡ load_config db
unfolding load_config
load_config-password db = simp (get-drop_sessions, get-save_setting)

without_secret-SamePeople :
    (visit : Visit) (db : Database) → SamePeople db (drop_sessions "oidc" (without_secret visit db))
unfolding without_secret save_setting
without_secret-SamePeople visit db =
    then_SamePeople db (without_secret visit db) _
      (then_SamePeople db
        (save_setting (save_setting db "auth.oidc.client_secret" "") "auth.oidc.enabled" "false") _
        (record { users = refl; identities = refl })
        (record_check-SamePeople visit _ "error" "" "incomplete_config"))
      (drop_sessions-SamePeople (without_secret visit db) "oidc")

module _ (visit : Visit) (db : Database) (reach : IsReachable db) where
  delete_oidc_client_secret-IsReachable : IsReachable (delete_oidc_client_secret visit db).0
  unfolding delete_oidc_client_secret
  delete_oidc_client_secret-IsReachable = within-IsReachable _ db _ reach (
      if-IsReachable (locked visit db) _ _ reach (
        recovery-IsReachable visit _ (
          enforced-IsReachable db _ (without_secret-SamePeople visit db) reach
            λ off available. absurd (ground (arith, without_secret-unavailable visit db)))))

  enable_oidc-IsReachable : (check : ProviderCheck) → IsReachable (enable_oidc visit db check).0
  unfolding enable_oidc
  enable_oidc-IsReachable check = within-IsReachable _ db _ reach (
      if-IsReachable (not (complete (load_config db))) _ _ reach
        (enable_found-IsReachable visit db reach check))

  switched_off-IsReachable :
      oidc_login_available (load_config db) ≡ true
      → (active_oidc_admin_count db (load_config db).issuer none == 0) ≡ false
      → IsReachable
          (drop_sessions "password" (save_setting db "auth.password_login_enabled" "false"))
  unfolding drop_sessions delete_sessions_by_auth_method save_setting active_admin_count
      active_oidc_admin_count
  switched_off-IsReachable available some_admin =
      let same = load_config-password db in
      record { some_admin = reach.some_admin; some_way = λ off. rw same (available, ground arith) }

  disable_password_of-IsReachable :
      oidc_login_available (load_config db) ≡ true
      → (user : Option User) → IsReachable (disable_password_of visit db user).0
  unfolding disable_password_of
  disable_password_of-IsReachable available none = reach
  disable_password_of-IsReachable available (some user) =
      let issuer = (load_config db).issuer in
      let refused : String → Done = λ code. (db, oidc_error code) in
      let switched : Done = (
        drop_sessions "password" (save_setting db "auth.password_login_enabled" "false"),
        oidc_notice "password_login_disabled",
      ) in
      let no_admin = active_oidc_admin_count db issuer none == 0 in
      let last : Done = if no_admin then refused "password_login_needs_oidc_admin" else switched in
      let unlinked = not (has_issuer issuer (find_user_external_identity db user.id "oidc")) in
      let linked : Done = if unlinked then refused "password_login_needs_link" else last in
      let by_password = not (is_method visit.auth_method "oidc") in
      if-IsReachable (not (user.role == "admin") || not user.is_active)
        (refused "password_login_needs_admin")
        (if by_password then refused "password_login_needs_oidc_session" else linked) reach
        (if-IsReachable by_password (refused "password_login_needs_oidc_session") linked reach (
          if-IsReachable unlinked (refused "password_login_needs_link") last reach (
            else-IsReachable no_admin (refused "password_login_needs_oidc_admin") switched reach
              (switched_off-IsReachable available))))

  disable_password_login-IsReachable : IsReachable (disable_password_login visit db).0
  unfolding disable_password_login
  disable_password_login-IsReachable = within-IsReachable _ db _ reach (
      if-IsReachable (not (auth_enabled db visit.environment)) _ _ reach
        (elim (Bool-cases (oidc_login_available (load_config db))) [
          | inl e ↦ rw e (disable_password_of-IsReachable e (requesting_user db visit.request_user))
          | inr e ↦ rw e reach
        ]))

persist_found-IsReachable :
    (visit : Visit) (db : Database)
    → IsReachable db
    → (url client_id secret : String) (check : ProviderCheck)
    → auth_disabled_by_environment visit.environment ≡ false
    → IsReachable (persist_found visit db url client_id secret check).0
persist_found-IsReachable visit db reach url client_id secret (failed code) env = reach
persist_found-IsReachable visit db reach url client_id secret (found issuer) env =
    persist-IsReachable visit db reach url client_id secret issuer env

-- What `db` was when the save began does not matter.
save_oidc_configuration-IsReachable :
    (visit : Visit) (db now_db : Database)
    → IsReachable now_db
    → (url client_id secret : String) (check : ProviderCheck)
    → auth_disabled_by_environment visit.environment ≡ false
    → IsReachable (save_oidc_configuration visit db now_db url client_id secret check).0
unfolding save_oidc_configuration
save_oidc_configuration-IsReachable visit db now_db reach url client_id secret check env =
    within-IsReachable _ now_db _ reach (
      if-IsReachable (locked visit db) _ _ reach (
        if-IsReachable _ _ _ reach
          (persist_found-IsReachable visit now_db reach url client_id secret check env)))

-- The routes of the module, with what the form holds and what the provider answers. The database
-- that a save read before it waited for the provider is part of the request.
pub data Request : Type 0 where
  save_configuration : Database → String → String → String → ProviderCheck → Request
  enable : ProviderCheck → Request
  disable : Request
  delete_secret : Request
  save_jit : String → Request
  disable_password : Request
  enable_password : Request

unfoldable pub handle_setting : Visit → Database → Request → Done
handle_setting visit db (save_configuration before url client_id secret check) =
    save_oidc_configuration visit before db url client_id secret check
handle_setting visit db (enable check) = enable_oidc visit db check
handle_setting visit db disable = disable_oidc visit db
handle_setting visit db delete_secret = delete_oidc_client_secret visit db
handle_setting visit db (save_jit value) = save_oidc_jit visit db value
handle_setting visit db disable_password = disable_password_login visit db
handle_setting visit db enable_password = enable_password_login visit db

handle_setting-IsReachable :
    (visit : Visit) (db : Database) (request : Request)
    → auth_disabled_by_environment visit.environment ≡ false
    → IsReachable db
    → IsReachable (handle_setting visit db request).0
unfolding handle_setting
handle_setting-IsReachable visit db (save_configuration before url client_id secret check) env
      reach =
    save_oidc_configuration-IsReachable visit before db reach url client_id secret check env
handle_setting-IsReachable visit db (enable check) env reach =
    enable_oidc-IsReachable visit db reach check
handle_setting-IsReachable visit db disable env reach = disable_oidc-IsReachable visit db reach
handle_setting-IsReachable visit db delete_secret env reach =
    delete_oidc_client_secret-IsReachable visit db reach
handle_setting-IsReachable visit db (save_jit value) env reach =
    save_oidc_jit-IsReachable visit db reach value
handle_setting-IsReachable visit db disable_password env reach =
    disable_password_login-IsReachable visit db reach
handle_setting-IsReachable visit db enable_password env reach =
    enable_password_login-IsReachable visit db reach

-- Requests of one deployment: the environment is the same for all of them.
unfoldable pub serve_settings : (environment : Text) → Database → List (Visit × Request) → Database
serve_settings environment db [] = db
serve_settings environment db ((visit, request) ∷ requests) =
    serve_settings environment
      (handle_setting (record visit { environment = environment }) db request).0 requests

serve_settings-IsReachable :
    (environment : Text) (db : Database) (requests : List (Visit × Request))
    → auth_disabled_by_environment environment ≡ false
    → IsReachable db
    → IsReachable (serve_settings environment db requests)
unfolding serve_settings
serve_settings-IsReachable environment db [] env reach = reach
serve_settings-IsReachable environment db ((visit, request) ∷ requests) env reach =
    let visit' = record visit { environment = environment } in
    serve_settings-IsReachable environment (handle_setting visit' db request).0 requests env
      (handle_setting-IsReachable visit' db request env reach)

-- The requests change nobody's account.
handle_setting-users :
    (visit : Visit) (db : Database) (request : Request)
    → (handle_setting visit db request).0.users ≡ db.users
unfolding handle_setting
handle_setting-users visit db (save_configuration before url client_id secret check) =
    save_oidc_configuration-users visit before db url client_id secret check
handle_setting-users visit db (enable check) = enable_oidc-users visit db check
handle_setting-users visit db disable = disable_oidc-users visit db
handle_setting-users visit db delete_secret = delete_oidc_client_secret-users visit db
handle_setting-users visit db (save_jit value) = save_oidc_jit-users visit db value
handle_setting-users visit db disable_password =
    IsAnswered-users visit db (disable_password_login-IsAnswered visit db)
handle_setting-users visit db enable_password = enable_password_login-users visit db

serve_settings-users :
    (environment : Text) (db : Database) (requests : List (Visit × Request))
    → (serve_settings environment db requests).users ≡ db.users
unfolding serve_settings
serve_settings-users environment db [] = refl
serve_settings-users environment db ((visit, request) ∷ requests) =
    let visit' = record visit { environment = environment } in
    serve_settings-users environment (handle_setting visit' db request).0 requests
    ∙ handle_setting-users visit' db request

-- From an installation with what the reachability check counts (an active administrator, and where
-- password sign-in is switched off, a usable provider and an active administrator linked to its
-- issuer) in which some active administrator has a password, no sequence of requests to the
-- provider settings ends without an active administrator who can sign in, by a password of theirs
-- or through the usable provider that they are linked to, whatever the provider answers, as long as
-- emergency access (OSD_AUTH_DISABLED) is not active.
pub serve_settings-CanSignIn :
    (environment : Text) (db : Database) (requests : List (Visit × Request))
    → auth_disabled_by_environment environment ≡ false
    → IsReachable db
    → 0 < password_admin_count db
    → CanSignIn (serve_settings environment db requests)
unfolding password_admin_count
serve_settings-CanSignIn environment db requests env reach passwords =
    IsReachable-CanSignIn (serve_settings environment db requests)
      (serve_settings-IsReachable environment db requests env reach)
      λ on. rw (serve_settings-users environment db requests) passwords
