-- ===== src/OidcSettings/Requests.antt =====
-- The requests of the provider settings that change one setting, and the two that ask the provider.
use open_sec_dash.Prelude.{
  ◌≡◌, refl, String, Bool, true, false, not, ◌&&◌, Option, none, some, ◌==◌, string_eq, nat_eq,
  if◌then◌else◌, Bool-cases, inl, inr, arith, eq_of_beq, ◌∙◌,
}
use open_sec_dash.Database.{Database, save_setting}
use open_sec_dash.Database.Settings.{get-save_setting}
use open_sec_dash.Auth.{auth_disabled_by_environment}
use open_sec_dash.Oidc.{
  OidcConfig, nonempty, load_config, password_login_enabled, oidc_login_available,
}
use open_sec_dash.Oidc.Reachability.{IsReachable, effective-eq-stored, if-IsReachable}
use open_sec_dash.OidcSettings.{
  Visit, ProviderCheck, found, failed, Done, within, enforce_login_methods,
  revoke_all_sessions_during_recovery, record_check, drop_sessions, locked, secret_or_stored,
  written_configuration, persist_oidc_configuration, enable_found, disable_oidc, save_oidc_jit,
  enable_password_login,
}
use open_sec_dash.OidcSettings.Reachability.{
  SamePeople, save-SamePeople, IsReachable-of_settings, then_SamePeople, drop_sessions-SamePeople,
  record_check-SamePeople, password-record_check, enforced-IsReachable, recovery-IsReachable,
  password_restored, password_saved, issuer_saved, load_config-drop_sessions,
  password-drop_sessions, load_config-record_check, issuer-record_check,
}

pub within-IsReachable :
    (o : Option String) (db : Database) (done : Done)
    → IsReachable db
    → IsReachable done.0
    → IsReachable (within o db done).0
within-IsReachable none db done reach h = h
within-IsReachable (some error) db done reach h = reach

pub disabled_config :
    (db : Database)
    → oidc_login_available (load_config (save_setting db "auth.oidc.enabled" "false")) ≡ false
unfolding oidc_login_available load_config
disabled_config db = rw (get-save_setting) refl

-- The provider is unavailable while it is switched off.
switched_off :
    (db : Database) (method : String)
    → oidc_login_available
        (load_config (drop_sessions method (save_setting db "auth.oidc.enabled" "false")))
      ≡ false
unfolding oidc_login_available
switched_off db method =
    rw (load_config-drop_sessions (save_setting db "auth.oidc.enabled" "false") method)
      (disabled_config db)

available-issuer : (c : OidcConfig) → oidc_login_available c ≡ true → nonempty c.issuer ≡ true
unfolding oidc_login_available
available-issuer c h = ground arith

-- A provider that answers with another issuer is not enabled.
kept_issuer :
    (stored issuer : String)
    → nonempty stored ≡ true
    → (nonempty stored && not (issuer == stored)) ≡ false
    → (if nonempty issuer then issuer else stored) ≡ stored
kept_issuer stored issuer h guard = ground (arith, eq_of_beq issuer stored)

-- Where password sign-in is on and emergency access is off, a new configuration keeps it on.
password-written_configuration :
    (visit : Visit) (db : Database) (url client_id secret issuer : String)
    → password_login_enabled (written_configuration visit db url client_id secret issuer)
      ≡ password_login_enabled db
unfolding written_configuration
password-written_configuration visit db url client_id secret issuer =
    password-record_check visit _ "healthy" issuer ""
    ∙ password_saved _ "auth.oidc.client_secret" secret refl
    ∙ password_saved _ "auth.oidc.client_id" client_id refl
    ∙ password_saved db "auth.oidc.discovery_url" url refl

written_configuration-SamePeople :
    (visit : Visit) (db : Database) (url client_id secret issuer : String)
    → SamePeople db (written_configuration visit db url client_id secret issuer)
unfolding written_configuration save_setting
written_configuration-SamePeople visit db url client_id secret issuer =
    let same =
      record_check-SamePeople visit
        (save_setting
          (save_setting (save_setting db "auth.oidc.discovery_url" url) "auth.oidc.client_id"
            client_id)
          "auth.oidc.client_secret" secret)
        "healthy" issuer "" in
    record { users = same.users; identities = same.identities }

module _ (visit : Visit) (db : Database) (reach : IsReachable db) where
  pub disable_oidc-IsReachable : IsReachable (disable_oidc visit db).0
  unfolding disable_oidc
  disable_oidc-IsReachable =
      let db' = save_setting db "auth.oidc.enabled" "false" in
      within-IsReachable _ db _ reach (
        recovery-IsReachable visit _ (
          enforced-IsReachable db (drop_sessions "oidc" db')
            (then_SamePeople db db' _ (save-SamePeople db "auth.oidc.enabled" "false")
              (drop_sessions-SamePeople db' "oidc"))
            reach λ off available. absurd (ground (arith, switched_off db "oidc"))))

  pub save_oidc_jit-IsReachable : (jit : String) → IsReachable (save_oidc_jit visit db jit).0
  unfolding save_oidc_jit
  save_oidc_jit-IsReachable jit =
      let value = if jit == "true" then "true" else "false" in
      within-IsReachable _ db _ reach (
        enforced-IsReachable db _ (save-SamePeople db "auth.oidc.jit_enabled" value) reach
          λ off available. (
            rw (← password_saved db "auth.oidc.jit_enabled" value refl) off,
            issuer_saved db "auth.oidc.jit_enabled" value refl,
          ))

  pub enable_password_login-IsReachable : IsReachable (enable_password_login visit db).0
  unfolding enable_password_login
  enable_password_login-IsReachable = within-IsReachable _ db _ reach (
      recovery-IsReachable visit _ (
        IsReachable-of_settings db _ (save-SamePeople db "auth.password_login_enabled" "true") reach
          λ off. absurd (ground (arith, password_restored db))))

  -- A failed check of the provider is recorded and changes nothing else.
  checked-IsReachable : (error : String) → IsReachable (record_check visit db "error" "" error)
  checked-IsReachable error =
      IsReachable-of_settings db _ (record_check-SamePeople visit db "error" "" error) reach λ off.
        let was_off : password_login_enabled db ≡ false =
          rw (← password-record_check visit db "error" "" error) off in
        rw (load_config-record_check visit db "error" error)
          (was_off, (reach.some_way was_off).0, refl)

  enabled-IsReachable :
      (issuer : String)
      → (nonempty (load_config db).issuer && not (issuer == (load_config db).issuer)) ≡ false
      → IsReachable (
          enforce_login_methods
            (save_setting (record_check visit db "healthy" issuer "") "auth.oidc.enabled" "true"))
  enabled-IsReachable issuer guard =
      let db1 = record_check visit db "healthy" issuer "" in
      let db2 = save_setting db1 "auth.oidc.enabled" "true" in
      enforced-IsReachable db db2
        (then_SamePeople db db1 db2 (record_check-SamePeople visit db "healthy" issuer "")
          (save-SamePeople db1 "auth.oidc.enabled" "true"))
        reach
        λ off available.
          let was_off : password_login_enabled db ≡ false =
            rw
              (
                ← password-record_check visit db "healthy" issuer "",
                ← password_saved db1 "auth.oidc.enabled" "true" refl,
              )
              off in
          let available_before = (reach.some_way was_off).0 in
          (
            was_off,
            issuer_saved db1 "auth.oidc.enabled" "true" refl
                ∙ issuer-record_check visit db "healthy" issuer ""
                ∙ kept_issuer (load_config db).issuer issuer
                    (available-issuer (load_config db) available_before) guard,
          )

  pub enable_found-IsReachable :
      (check : ProviderCheck) → IsReachable (enable_found visit db check).0
  unfolding enable_found
  enable_found-IsReachable (failed code) = checked-IsReachable code
  enable_found-IsReachable (found issuer) =
      elim (Bool-cases
        (nonempty (load_config db).issuer && not (issuer == (load_config db).issuer))) [
          | inl e ↦ rw e (checked-IsReachable "invalid_issuer")
          | inr e ↦ rw e (enabled-IsReachable issuer e)
        ]

  unlocked-password :
      auth_disabled_by_environment visit.environment ≡ false
      → locked visit db ≡ false
      → password_login_enabled db ≡ true
  unlocked-password env unlocked = ground (arith, effective-eq-stored db reach)

  -- With password sign-in on before and after, the provider does not matter.
  on-IsReachable :
      (db' : Database)
      → SamePeople db db'
      → password_login_enabled db ≡ true
      → password_login_enabled db' ≡ password_login_enabled db
      → IsReachable (enforce_login_methods db')
  on-IsReachable db' same on kept =
      enforced-IsReachable db db' same reach λ off available. absurd (ground arith)

  written-IsReachable :
      (url client_id secret issuer : String) (changed : Bool)
      → auth_disabled_by_environment visit.environment ≡ false
      → locked visit db ≡ false
      → IsReachable (
          enforce_login_methods (
            revoke_all_sessions_during_recovery visit (
              if changed
              then drop_sessions "oidc" (written_configuration visit db url client_id secret issuer)
              else written_configuration visit db url client_id secret issuer)))
  unfolding revoke_all_sessions_during_recovery
  written-IsReachable url client_id secret issuer changed env unlocked =
      let db' = written_configuration visit db url client_id secret issuer in
      let same = written_configuration-SamePeople visit db url client_id secret issuer in
      let kept = password-written_configuration visit db url client_id secret issuer in
      let on = unlocked-password env unlocked in
      rw env (elim (Bool-cases changed) [
        | inl e ↦ rw e (
            on-IsReachable (drop_sessions "oidc" db')
              (then_SamePeople db db' _ same (drop_sessions-SamePeople db' "oidc")) on
              (password-drop_sessions db' "oidc" ∙ kept))
        | inr e ↦ rw e (on-IsReachable db' same on kept)
      ])

  pub persist-IsReachable :
      (url client_id secret issuer : String)
      → auth_disabled_by_environment visit.environment ≡ false
      → IsReachable (persist_oidc_configuration visit db url client_id secret issuer).0
  unfolding persist_oidc_configuration
  persist-IsReachable url client_id secret issuer env = elim (Bool-cases (locked visit db)) [
    | inl e ↦ rw e reach
    | inr e ↦ rw e (
        if-IsReachable (not (nonempty (secret_or_stored secret db))) _ _ reach
          (written-IsReachable url client_id _ issuer _ env e))
  ]
