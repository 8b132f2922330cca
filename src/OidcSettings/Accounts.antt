-- ===== src/OidcSettings/Accounts.antt =====
-- The requests to the provider settings change nobody's account.
use open_sec_dash.Prelude.{
  ◌≡◌, refl, String, Bool, true, false, not, Option, none, some, ◌&&◌, if◌then◌else◌, Bool-cases,
  inl, inr, arith, ◌∙◌, ◌==◌, string_eq,
}
use open_sec_dash.Database.{Database, save_setting}
use open_sec_dash.Auth.{delete_sessions_by_auth_method}
use open_sec_dash.Oidc.{nonempty, load_config, complete}
use open_sec_dash.OidcSettings.{
  Visit, ProviderCheck, found, failed, Done, provider_changed, secret_or_stored, oidc_error,
  oidc_notice, within, drop_sessions, locked, save_oidc_configuration, enable_oidc, disable_oidc,
  without_secret, delete_oidc_client_secret, save_oidc_jit, enable_password_login, enable_found,
  record_check, persist_oidc_configuration, persist_found, written_configuration,
  enforce_login_methods, revoke_all_sessions_during_recovery,
}

users-record_check :
    (visit : Visit) (db : Database) (status issuer error : String)
    → (record_check visit db status issuer error).users ≡ db.users
unfolding record_check save_setting
users-record_check visit db status issuer error = ground arith

users-drop_sessions : (method : String) (db : Database) → (drop_sessions method db).users ≡ db.users
unfolding drop_sessions delete_sessions_by_auth_method
users-drop_sessions method db = ground arith

users-enforce : (db : Database) → (enforce_login_methods db).users ≡ db.users
unfolding enforce_login_methods save_setting
users-enforce db = ground arith

users-revoke :
    (visit : Visit) (db : Database)
    → (revoke_all_sessions_during_recovery visit db).users ≡ db.users
unfolding revoke_all_sessions_during_recovery
users-revoke visit db = ground arith

users-within :
    (o : Option String) (db : Database) (done : Done)
    → done.0.users ≡ db.users
    → (within o db done).0.users ≡ db.users
users-within none db done h = h
users-within (some error) db done h = refl

users-if :
    (db : Database) (b : Bool) (x y : Done)
    → x.0.users ≡ db.users
    → y.0.users ≡ db.users
    → (if b then x else y).0.users ≡ db.users
users-if db true x y hx hy = hx
users-if db false x y hx hy = hy

users-if_db : (b : Bool) (x y : Database) → x.users ≡ y.users → (if b then x else y).users ≡ y.users
users-if_db true x y h = h
users-if_db false x y h = refl

module _ (visit : Visit) (db : Database) where
  persist-users :
      (url client_id secret issuer : String)
      → (persist_oidc_configuration visit db url client_id secret issuer).0.users ≡ db.users
  unfolding persist_oidc_configuration written_configuration save_setting
  persist-users url client_id secret issuer =
      let kept = secret_or_stored secret db in
      let written = written_configuration visit db url client_id kept issuer in
      let checked : written.users ≡ db.users = users-record_check visit _ "healthy" issuer "" in
      let dropped : Bool → Database = λ b. if b then drop_sessions "oidc" written else written in
      let changed = provider_changed (load_config db) url client_id kept issuer in
      users-if db (locked visit db) _ _ refl (
        users-if db (not (nonempty kept)) (db, oidc_error "incomplete_config")
          (
            enforce_login_methods (revoke_all_sessions_during_recovery visit (dropped changed)),
            oidc_notice "configuration_saved",
          )
          refl
          (users-enforce (revoke_all_sessions_during_recovery visit (dropped changed))
            ∙ users-revoke visit (dropped changed)
            ∙ users-if_db changed (drop_sessions "oidc" written) written
                (users-drop_sessions "oidc" written)
            ∙ checked))

  persist_found-users :
      (url client_id secret : String) (check : ProviderCheck)
      → (persist_found visit db url client_id secret check).0.users ≡ db.users
  persist_found-users url client_id secret (failed code) = refl
  persist_found-users url client_id secret (found issuer) =
      persist-users url client_id secret issuer

  enable_found-users : (check : ProviderCheck) → (enable_found visit db check).0.users ≡ db.users
  unfolding enable_found save_setting
  enable_found-users (failed code) = users-record_check visit db "error" "" code
  enable_found-users (found issuer) =
      elim (Bool-cases
        (nonempty (load_config db).issuer && not (issuer == (load_config db).issuer))) [
          | inl other ↦ rw other (users-record_check visit db "error" "" "invalid_issuer")
          | inr same ↦ rw same (users-enforce _ ∙ users-record_check visit db "healthy" issuer "")
        ]

  pub enable_oidc-users : (check : ProviderCheck) → (enable_oidc visit db check).0.users ≡ db.users
  unfolding enable_oidc
  enable_oidc-users check =
      users-within _ db _
        (users-if db (not (complete (load_config db))) _ _ refl (enable_found-users check))

  pub disable_oidc-users : (disable_oidc visit db).0.users ≡ db.users
  unfolding disable_oidc save_setting
  disable_oidc-users =
      users-within _ db _ (users-revoke visit _ ∙ users-enforce _ ∙ users-drop_sessions "oidc" _)

  pub delete_oidc_client_secret-users : (delete_oidc_client_secret visit db).0.users ≡ db.users
  unfolding delete_oidc_client_secret without_secret save_setting
  delete_oidc_client_secret-users = users-within _ db _ (
      users-if db (locked visit db) _ _ refl (
        users-revoke visit _
        ∙ users-enforce _
        ∙ users-drop_sessions "oidc" _
        ∙ users-record_check visit _ "error" "" "incomplete_config"))

  pub save_oidc_jit-users : (value : String) → (save_oidc_jit visit db value).0.users ≡ db.users
  unfolding save_oidc_jit save_setting
  save_oidc_jit-users value = users-within _ db _ (users-enforce _)

  pub enable_password_login-users : (enable_password_login visit db).0.users ≡ db.users
  unfolding enable_password_login save_setting
  enable_password_login-users = users-within _ db _ (users-revoke visit _)

pub save_oidc_configuration-users :
    (visit : Visit) (db now_db : Database) (url client_id secret : String) (check : ProviderCheck)
    → (save_oidc_configuration visit db now_db url client_id secret check).0.users ≡ now_db.users
unfolding save_oidc_configuration
save_oidc_configuration-users visit db now_db url client_id secret check = users-within _ now_db _ (
    users-if now_db (locked visit db) _ _ refl
      (users-if now_db _ _ _ refl (persist_found-users visit now_db url client_id secret check)))
