-- ===== src/OidcSettings/Reachability.antt =====
-- The provider settings never take what the reachability check counts.
use open_sec_dash.Prelude.{
  ◌≡◌, refl, String, true, false, not, ◌&&◌, [], ◌==◌, string_eq, nat_eq, contains, if◌then◌else◌,
  Bool-cases, inl, inr, arith,
}
use open_sec_dash.Database.{Database, get_setting_value, save_setting}
use open_sec_dash.Database.Settings.{get-save_setting}
use open_sec_dash.Auth.{
  auth_disabled_by_environment, delete_sessions_by_auth_method, auth_methods, active_admin_count,
  active_oidc_admin_count,
}
use open_sec_dash.Oidc.{nonempty, load_config, password_login_enabled, oidc_login_available}
use open_sec_dash.Oidc.Reachability.{IsReachable}
use open_sec_dash.OidcSettings.{
  Visit, enforce_login_methods, revoke_all_sessions_during_recovery, record_check, drop_sessions,
}

-- The columns that decide who can sign in are as they were.
pub record SamePeople (db db' : Database) : Type 0 where
  pub users : db'.users ≡ db.users
  pub identities : db'.identities ≡ db.identities

pub save-SamePeople : (db : Database) (k v : String) → SamePeople db (save_setting db k v)
unfolding save_setting
save-SamePeople db k v = record { users = refl; identities = refl }

-- Only the settings can take a way in from people who are as they were.
pub IsReachable-of_settings :
    (db db' : Database)
    → SamePeople db db'
    → IsReachable db
    → (password_login_enabled db' ≡ false
        → (password_login_enabled db ≡ false)
          × (oidc_login_available (load_config db') ≡ true)
          × ((load_config db').issuer ≡ (load_config db).issuer))
    → IsReachable db'
unfolding active_admin_count active_oidc_admin_count
IsReachable-of_settings db db' same reach off = record {
  some_admin = rw (same.users) reach.some_admin;
  some_way = λ h.
      let (was_off, available, issuer) = off h in
      (available, rw (issuer, same.users, same.identities) (reach.some_way was_off).1);
}

pub then_SamePeople : (a b c : Database) → SamePeople a b → SamePeople b c → SamePeople a c
then_SamePeople a b c p q = record {
  users = rw (q.users) p.users;
  identities = rw (q.identities) p.identities;
}

pub drop_sessions-SamePeople :
    (db : Database) (method : String) → SamePeople db (drop_sessions method db)
unfolding drop_sessions delete_sessions_by_auth_method
drop_sessions-SamePeople db method = elim (Bool-cases (contains method auth_methods)) [
  | inl e ↦ rw e (record { users = refl; identities = refl })
  | inr e ↦ rw e (record { users = refl; identities = refl })
]

pub get-drop_sessions :
    (db : Database) (method k d : String)
    → get_setting_value (drop_sessions method db) k d ≡ get_setting_value db k d
unfolding drop_sessions delete_sessions_by_auth_method get_setting_value
get-drop_sessions db method k d = elim (Bool-cases (contains method auth_methods)) [
  | inl e ↦ rw e refl
  | inr e ↦ rw e refl
]

pub record_check-SamePeople :
    (visit : Visit) (db : Database) (status issuer error : String)
    → SamePeople db (record_check visit db status issuer error)
unfolding record_check save_setting
record_check-SamePeople visit db status issuer error = elim (Bool-cases (nonempty issuer)) [
  | inl e ↦ rw e (record { users = refl; identities = refl })
  | inr e ↦ rw e (record { users = refl; identities = refl })
]

pub password-record_check :
    (visit : Visit) (db : Database) (status issuer error : String)
    → password_login_enabled (record_check visit db status issuer error) ≡ password_login_enabled db
unfolding record_check password_login_enabled
password-record_check visit db status issuer error = elim (Bool-cases (nonempty issuer)) [
  | inl e ↦ rw (e, get-save_setting, get-save_setting, get-save_setting, get-save_setting)
  | inr e ↦ rw (e, get-save_setting, get-save_setting, get-save_setting)
]

enforce-SamePeople : (db : Database) → SamePeople db (enforce_login_methods db)
unfolding enforce_login_methods save_setting
enforce-SamePeople db =
    let fires = not (oidc_login_available (load_config db)) && not (password_login_enabled db) in
    elim (Bool-cases fires) [
      | inl e ↦ rw e (record { users = refl; identities = refl })
      | inr e ↦ rw e (record { users = refl; identities = refl })
    ]

pub password_restored :
    (db : Database)
    → password_login_enabled (save_setting db "auth.password_login_enabled" "true") ≡ true
unfolding password_login_enabled
password_restored db = rw (get-save_setting) refl

-- Where password sign-in is off after the check, the check had nothing to do.
pub enforce-off :
    (db : Database)
    → password_login_enabled (enforce_login_methods db) ≡ false
    → (password_login_enabled db ≡ false)
      × (oidc_login_available (load_config db) ≡ true)
      × (enforce_login_methods db ≡ db)
unfolding enforce_login_methods
enforce-off db = ground (arith, password_restored db)

-- A change that ends in the check, where it keeps the issuer that people are linked to.
pub enforced-IsReachable :
    (db db' : Database)
    → SamePeople db db'
    → IsReachable db
    → (password_login_enabled db' ≡ false
        → oidc_login_available (load_config db') ≡ true
        → (password_login_enabled db ≡ false)
          × ((load_config db').issuer ≡ (load_config db).issuer))
    → IsReachable (enforce_login_methods db')
enforced-IsReachable db db' same reach keeps =
    IsReachable-of_settings db (enforce_login_methods db')
      (then_SamePeople db db' _ same (enforce-SamePeople db')) reach
      λ off.
        let (off', available, e) = enforce-off db' off in
        let (was_off, issuer) = keeps off' available in (was_off, rw e available, rw e issuer)

pub recovery-IsReachable :
    (visit : Visit) (db : Database)
    → IsReachable db
    → IsReachable (revoke_all_sessions_during_recovery visit db)
unfolding revoke_all_sessions_during_recovery load_config password_login_enabled get_setting_value
recovery-IsReachable visit db reach =
    elim (Bool-cases (auth_disabled_by_environment visit.environment)) [
      | inl e ↦ rw e (
          IsReachable-of_settings db (record db { sessions = [] })
            (record { users = refl; identities = refl }) reach
            λ off. (off, (reach.some_way off).0, refl))
      | inr e ↦ rw e reach
    ]

-- What the settings that decide read as, after each kind of write.
pub password_saved :
    (db : Database) (k v : String)
    → (k == "auth.password_login_enabled") ≡ false
    → password_login_enabled (save_setting db k v) ≡ password_login_enabled db
unfolding password_login_enabled
password_saved db k v other = rw (get-save_setting, other) refl

pub issuer_saved :
    (db : Database) (k v : String)
    → (k == "auth.oidc.issuer") ≡ false
    → (load_config (save_setting db k v)).issuer ≡ (load_config db).issuer
unfolding load_config
issuer_saved db k v other = rw (get-save_setting, other) refl

pub load_config-drop_sessions :
    (db : Database) (method : String) → load_config (drop_sessions method db) ≡ load_config db
unfolding load_config
load_config-drop_sessions db method = simp (get-drop_sessions)

pub password-drop_sessions :
    (db : Database) (method : String)
    → password_login_enabled (drop_sessions method db) ≡ password_login_enabled db
unfolding password_login_enabled
password-drop_sessions db method = rw (get-drop_sessions) refl

-- A check without an issuer leaves the configuration as it is.
pub load_config-record_check :
    (visit : Visit) (db : Database) (status error : String)
    → load_config (record_check visit db status "" error) ≡ load_config db
unfolding load_config record_check
load_config-record_check visit db status error = simp (get-save_setting)

pub issuer-record_check :
    (visit : Visit) (db : Database) (status issuer error : String)
    → (load_config (record_check visit db status issuer error)).issuer
      ≡ (if nonempty issuer then issuer else (load_config db).issuer)
unfolding load_config record_check
issuer-record_check visit db status issuer error = elim (Bool-cases (nonempty issuer)) [
  | inl e ↦ rw e (simp (get-save_setting))
  | inr e ↦ rw e (simp (get-save_setting))
]
