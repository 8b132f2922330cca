-- ===== src/OidcSettings/Proof.antt =====
-- What has to hold for password sign-in to be switched off, and what switching it off does.
use open_sec_dash.Prelude.{
  ◌≡◌, ◌≢◌, refl, String, true, false, not, Option, none, some, List, [], ◌∷◌, arith, nat_eq,
  string_eq, ◌==◌, select, Bool-cases, inl, inr, ◌||◌,
}
use open_sec_dash.Prelude.Sums.{sum_by, count}
use open_sec_dash.Database.{User, UserSession, Database, save_setting}
use open_sec_dash.Database.Settings.{get-save_setting}
use open_sec_dash.Auth.{
  is_admin, has_issuer, find_user_external_identity, auth_enabled, active_oidc_admin_count,
  delete_sessions_by_auth_method,
}
use open_sec_dash.Oidc.{load_config, oidc_login_available, password_login_enabled}
use open_sec_dash.OidcSettings.{
  Visit, Done, oidc_notice, within, boundary_error, requesting_user, is_method, disable_password_of,
  disable_password_login, drop_sessions,
}
use open_sec_dash.OidcSettings.Reachability.{SamePeople, get-drop_sessions}

-- The administrator who asks is active, signed in through the provider, and linked to its issuer;
-- authentication is on, and the request passes the boundary of the hostname and proxy.
pub record IsProven (visit : Visit) (db : Database) : Type 0 where
  pub user : User
  pub requesting : requesting_user db visit.request_user ≡ some user
  pub admin : is_admin user ≡ true
  pub by_oidc : is_method visit.auth_method "oidc" ≡ true
  pub linked :
      has_issuer (load_config db).issuer (find_user_external_identity db user.id "oidc") ≡ true
  pub reachable : (active_oidc_admin_count db (load_config db).issuer none == 0) ≡ false
  pub available : oidc_login_available (load_config db) ≡ true
  pub enabled : auth_enabled db visit.environment ≡ true
  pub bounded : boundary_error visit db ≡ none

-- The switch is off, nobody stays signed in by password, and the accounts and links are as before.
pub record IsSwitchedOff (db db' : Database) : Type 0 where
  pub off : password_login_enabled db' ≡ false
  pub signed_out : count (λ s. s.auth_method == "password") db'.sessions ≡ 0
  pub people : SamePeople db db'

-- Either nothing is changed, which happens exactly where the proof is missing, and the answer does not
-- claim otherwise; or the proof is there and password sign-in is off.
pub data IsAnswered (visit : Visit) (db : Database) (done : Done) : Type 0 where
  refused :
      (IsProven visit db → ⊥)
      → done.0 ≡ db
      → done.1 ≢ oidc_notice "password_login_disabled"
      → IsAnswered visit db done
  switched :
      IsProven visit db
      → IsSwitchedOff db done.0
      → done.1 ≡ oidc_notice "password_login_disabled"
      → IsAnswered visit db done

count-dropped :
    (sessions : List UserSession)
    → count
        (λ s. s.auth_method == "password")
        (select (λ s. not (s.auth_method == "password")) sessions)
      ≡ 0
unfolding sum_by
count-dropped [] = refl
count-dropped (s ∷ sessions) = ground (arith, count-dropped sessions)

password_dropped :
    (db : Database)
    → password_login_enabled
        (drop_sessions "password" (save_setting db "auth.password_login_enabled" "false"))
      ≡ false
unfolding password_login_enabled
password_dropped db = rw (get-drop_sessions, get-save_setting) refl

switched_db-IsSwitchedOff :
    (db : Database)
    → IsSwitchedOff db
        (drop_sessions "password" (save_setting db "auth.password_login_enabled" "false"))
unfolding drop_sessions delete_sessions_by_auth_method save_setting
switched_db-IsSwitchedOff db = record {
  off = password_dropped db;
  signed_out = count-dropped db.sessions;
  people = record { users = refl; identities = refl };
}

module _ (visit : Visit) (db : Database) where
  disable_password_of-IsAnswered :
      boundary_error visit db ≡ none
      → auth_enabled db visit.environment ≡ true
      → oidc_login_available (load_config db) ≡ true
      → (row : Option User) → requesting_user db visit.request_user ≡ row
      → IsAnswered visit db (disable_password_of visit db row)
  unfolding disable_password_of
  disable_password_of-IsAnswered bounded enabled available none requesting =
      refused (λ p. ground (arith, p.requesting)) refl (λ e. ground arith)
  disable_password_of-IsAnswered bounded enabled available (some user) requesting =
      let issuer = (load_config db).issuer in
      let link = has_issuer issuer (find_user_external_identity db user.id "oidc") in
      elim (Bool-cases (not (user.role == "admin") || not user.is_active)) [
        | inl e ↦
            rw e (refused (λ p. ground (arith, p.requesting, p.admin)) refl (λ n. ground arith))
        | inr admin ↦ rw admin (elim (Bool-cases (not (is_method visit.auth_method "oidc"))) [
          | inl e ↦ rw e (refused (λ p. ground (arith, p.by_oidc)) refl (λ n. ground arith))
          | inr by_oidc ↦ rw by_oidc (elim (Bool-cases (not link)) [
            | inl e ↦
                rw e
                  (refused (λ p. ground (arith, p.requesting, p.linked)) refl (λ n. ground arith))
            | inr linked ↦
                rw linked (elim (Bool-cases (active_oidc_admin_count db issuer none == 0)) [
                  | inl e ↦
                      rw e (refused (λ p. ground (arith, p.reachable)) refl (λ n. ground arith))
                  | inr reachable ↦ rw reachable (
                      switched
                        (record {
                          user = user;
                          requesting = requesting;
                          admin = ground arith;
                          by_oidc = ground arith;
                          linked = ground arith;
                          reachable = reachable;
                          available = available;
                          enabled = enabled;
                          bounded = bounded;
                        })
                        (switched_db-IsSwitchedOff db) refl)
                ])
          ])
        ])
      ]

  within-IsAnswered :
      (o : Option String)
      → boundary_error visit db ≡ o
      → (done : Done) → (boundary_error visit db ≡ none → IsAnswered visit db done)
      → IsAnswered visit db (within o db done)
  within-IsAnswered none e done h = h e
  within-IsAnswered (some error) e done h =
      refused (λ p. ground (arith, p.bounded)) refl (λ n. ground arith)

  -- A request to switch password sign-in off is either refused, which changes nothing and happens
  -- unless an active administrator asks who is signed in through the available provider and linked
  -- to its issuer, with authentication on and the boundary passed; or the switch is off, every
  -- session by password is gone, and the accounts and their links are as before.
  pub disable_password_login-IsAnswered : IsAnswered visit db (disable_password_login visit db)
  unfolding disable_password_login
  disable_password_login-IsAnswered = within-IsAnswered (boundary_error visit db) refl _ λ bounded.
      elim (Bool-cases (auth_enabled db visit.environment)) [
        | inr e ↦ rw e (refused (λ p. ground (arith, p.enabled)) refl (λ n. ground arith))
        | inl enabled ↦ rw enabled (elim (Bool-cases (oidc_login_available (load_config db))) [
          | inr e ↦ rw e (refused (λ p. ground (arith, p.available)) refl (λ n. ground arith))
          | inl available ↦ rw available (
              disable_password_of-IsAnswered bounded enabled available
                (requesting_user db visit.request_user) refl)
        ])
      ]

pub IsAnswered-users :
    (visit : Visit) (db : Database) {done : Done}
    → IsAnswered visit db done
    → done.0.users ≡ db.users
IsAnswered-users visit db (refused _ same _) = rw same
IsAnswered-users visit db (switched _ off _) = off.people.users
