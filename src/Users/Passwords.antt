-- ===== src/Users/Passwords.antt =====
-- The requests of user management take nobody's password away and make no account without one. Only
-- a sign-in through the provider makes such an account.
use open_sec_dash.Prelude.{
  ℕ, ◌+◌, ◌<◌, ◌≤◌, ◌≡◌, refl, String, Bool, true, false, not, ◌&&◌, Option, none, some, List, [],
  ◌∷◌, arith, string_eq, nat_eq, if◌then◌else◌, is_some,
}
use open_sec_dash.Prelude.Text.{Text}
use open_sec_dash.Prelude.Sums.{flag, sum_by, count, update, delete, sum_by-append}
use open_sec_dash.Preferences.{create_user_preferences}
use open_sec_dash.Database.{User, Database, get_setting_value}
use open_sec_dash.Auth.{
  is_admin, active_admin_count, Platform, delete_user_sessions, delete_user_external_identities,
  unlink_external_identity, validate_new_user, create_user, copy_legacy_views_to_user,
}
use open_sec_dash.Oidc.{effective_password_login_enabled, load_config, password_login_enabled}
use open_sec_dash.Oidc.Reachability.{password_admin_count}
use open_sec_dash.Auth.Admins.{admin_weight, active_admin_count-all}
use open_sec_dash.Oidc.{no_change, admin_reachability_error}
use open_sec_dash.Users.{
  is_self, unless_error, Handled, update_user, role_of, change_user_role, toggled, toggle_of,
  toggle_user, revoke_link, revoke_of, revoke_user_external_identity, remove_user, delete_of,
  delete_managed_user, created, create_managed_user, reset_of, reset_user_password, user_row,
}

-- The accounts that no password opens.
abbrev pub passwordless_count : Database → ℕ
passwordless_count db = count (λ u. not (is_some u.password_hash)) db.users

-- The settings are as they were, and no account has lost its password.
pub record KeepsPasswords (db db' : Database) : Type 0 where
  pub settings : db'.settings ≡ db.settings
  pub passwords : passwordless_count db' ≤ passwordless_count db

pub effective_same :
    (db db' : Database)
    → db'.settings ≡ db.settings
    → effective_password_login_enabled db' ≡ true
    → effective_password_login_enabled db ≡ true
unfolding effective_password_login_enabled load_config password_login_enabled get_setting_value
effective_same db db' same on = rw same at on

admins-le :
    (users : List User)
    → sum_by admin_weight users
      ≤ count (λ u. is_admin u && is_some u.password_hash) users
        + count (λ u. not (is_some u.password_hash)) users
unfolding sum_by
admins-le [] = omega arith
admins-le (u ∷ users) = ground (arith, admins-le users)

-- Where every account has a password, an active administrator has one.
pub password_admins_left :
    (db : Database)
    → 0 < active_admin_count db none
    → passwordless_count db ≤ 0
    → 0 < password_admin_count db
unfolding password_admin_count
password_admins_left db some_admin passwords =
    omega (arith, active_admin_count-all db, admins-le db.users)

count-update-le :
    (user_id : ℕ) (f : User → User)
    → ((u : User) → flag (not (is_some (f u).password_hash)) ≤ flag (not (is_some u.password_hash)))
    → (users : List User)
    → count (λ u. not (is_some u.password_hash)) (update (λ u. u.id) user_id f users)
      ≤ count (λ u. not (is_some u.password_hash)) users
unfolding sum_by
count-update-le user_id f keeps [] = omega arith
count-update-le user_id f keeps (u ∷ users) =
    ground (arith, keeps u, count-update-le user_id f keeps users)

count-delete-le :
    (user_id : ℕ) (users : List User)
    → count (λ u. not (is_some u.password_hash)) (delete (λ u. u.id) user_id users)
      ≤ count (λ u. not (is_some u.password_hash)) users
unfolding sum_by
count-delete-le user_id [] = omega arith
count-delete-le user_id (u ∷ users) = ground (arith, count-delete-le user_id users)

module _ (db : Database) where
  unchanged : KeepsPasswords db db
  unchanged = record { settings = refl; passwords = omega arith }

  if-KeepsPasswords :
      (b : Bool) (x y : Handled)
      → KeepsPasswords db x.0
      → KeepsPasswords db y.0
      → KeepsPasswords db (if b then x else y).0
  if-KeepsPasswords true x y hx hy = hx
  if-KeepsPasswords false x y hx hy = hy

  unless_error-KeepsPasswords :
      (error : Option String) (handled : Handled)
      → KeepsPasswords db handled.0
      → KeepsPasswords db (unless_error error db handled).0
  unless_error-KeepsPasswords none handled h = h
  unless_error-KeepsPasswords (some e) handled h = unchanged

  update_user-KeepsPasswords :
      (user_id : ℕ) (f : User → User)
      → ((u : User)
          → flag (not (is_some (f u).password_hash)) ≤ flag (not (is_some u.password_hash)))
      → KeepsPasswords db (update_user db user_id f)
  unfolding update_user
  update_user-KeepsPasswords user_id f keeps = record {
    settings = refl;
    passwords = count-update-le user_id f keeps db.users;
  }

  role_of-KeepsPasswords :
      (role : String) (o : Option User) → KeepsPasswords db (role_of db role o).0
  unfolding role_of
  role_of-KeepsPasswords role none = unchanged
  role_of-KeepsPasswords role (some user) =
      unless_error-KeepsPasswords _ _ (update_user-KeepsPasswords user.id _ (λ u. omega arith))

  pub change_user_role-KeepsPasswords :
      (user_id : ℕ) (role : String) → KeepsPasswords db (change_user_role db user_id role).0
  unfolding change_user_role
  change_user_role-KeepsPasswords user_id role =
      if-KeepsPasswords _ _ _ unchanged (role_of-KeepsPasswords role _)

  sessions_dropped-KeepsPasswords :
      (db' : Database) (user_id : ℕ)
      → KeepsPasswords db db'
      → KeepsPasswords db (delete_user_sessions db' user_id)
  unfolding delete_user_sessions
  sessions_dropped-KeepsPasswords db' user_id h = record {
    settings = h.settings;
    passwords = h.passwords;
  }

  toggled-KeepsPasswords :
      (active : Bool) (user_id : ℕ) (db' : Database)
      → KeepsPasswords db db'
      → KeepsPasswords db (if active then delete_user_sessions db' user_id else db')
  toggled-KeepsPasswords true user_id db' h = sessions_dropped-KeepsPasswords db' user_id h
  toggled-KeepsPasswords false user_id db' h = h

  toggle_of-KeepsPasswords : (o : Option User) → KeepsPasswords db (toggle_of db o).0
  unfolding toggle_of toggled
  toggle_of-KeepsPasswords none = unchanged
  toggle_of-KeepsPasswords (some user) = unless_error-KeepsPasswords _ _ (
      toggled-KeepsPasswords user.is_active user.id _
        (update_user-KeepsPasswords user.id _ (λ u. omega arith)))

  pub toggle_user-KeepsPasswords : (user_id : ℕ) → KeepsPasswords db (toggle_user db user_id).0
  unfolding toggle_user
  toggle_user-KeepsPasswords user_id = toggle_of-KeepsPasswords (user_row db user_id)

  revoke_link-KeepsPasswords : (user : User) → KeepsPasswords db (revoke_link db user).0
  unfolding revoke_link unlink_external_identity
  revoke_link-KeepsPasswords user =
      let db' = (unlink_external_identity db user.id "oidc").0 in
      if-KeepsPasswords _ _ _ unchanged (
        sessions_dropped-KeepsPasswords db' user.id
          (record { settings = refl; passwords = omega arith }))

  revoke_of-KeepsPasswords :
      (current o : Option User) → KeepsPasswords db (revoke_of db current o).0
  unfolding revoke_of
  revoke_of-KeepsPasswords current none = unchanged
  revoke_of-KeepsPasswords current (some user) =
      if-KeepsPasswords (is_self current user) _ _ unchanged (
        unless_error-KeepsPasswords
          (admin_reachability_error db user (record no_change { keeps_identity = false })) _
          (revoke_link-KeepsPasswords user))

  pub revoke_user_external_identity-KeepsPasswords :
      (current : Option User) (user_id : ℕ)
      → KeepsPasswords db (revoke_user_external_identity db current user_id).0
  unfolding revoke_user_external_identity
  revoke_user_external_identity-KeepsPasswords current user_id =
      revoke_of-KeepsPasswords current (user_row db user_id)

  delete_of-KeepsPasswords :
      (current o : Option User) → KeepsPasswords db (delete_of db current o).0
  unfolding delete_of remove_user delete_user_sessions delete_user_external_identities
  delete_of-KeepsPasswords current none = unchanged
  delete_of-KeepsPasswords current (some user) = if-KeepsPasswords _ _ _ unchanged (
      unless_error-KeepsPasswords _ _
        (record { settings = refl; passwords = count-delete-le user.id db.users }))

  pub delete_managed_user-KeepsPasswords :
      (current : Option User) (user_id : ℕ)
      → KeepsPasswords db (delete_managed_user db current user_id).0
  unfolding delete_managed_user
  delete_managed_user-KeepsPasswords current user_id =
      delete_of-KeepsPasswords current (user_row db user_id)

  module _ (platform : Platform) where
    create_user-KeepsPasswords :
        (username password : Text) (role salt : String)
        → KeepsPasswords db (create_user platform db username password role salt).0
    unfolding create_user create_user_preferences copy_legacy_views_to_user sum_by
    create_user-KeepsPasswords username password role salt = record {
      settings = refl;
      passwords =
          omega
            (arith, sum_by-append (λ (u : User). flag (not (is_some u.password_hash))) db.users);
    }

    created-KeepsPasswords :
        {db' : Database} (error : Option String)
        → KeepsPasswords db db'
        → KeepsPasswords db (created platform error db db').0
    created-KeepsPasswords none h = h
    created-KeepsPasswords (some e) h = unchanged

    pub create_managed_user-KeepsPasswords :
        (username password : Text) (role salt : String)
        → KeepsPasswords db (create_managed_user platform db username password role salt).0
    unfolding create_managed_user
    create_managed_user-KeepsPasswords username password role salt =
        if-KeepsPasswords _ _ _ unchanged (
          created-KeepsPasswords (validate_new_user db username password)
            (create_user-KeepsPasswords username password role salt))

    reset_of-KeepsPasswords :
        (password : Text) (salt : String) (o : Option User)
        → KeepsPasswords db (reset_of platform db password salt o).0
    unfolding reset_of
    reset_of-KeepsPasswords password salt none = unchanged
    reset_of-KeepsPasswords password salt (some user) =
        sessions_dropped-KeepsPasswords _ user.id
          (update_user-KeepsPasswords user.id _ (λ u. omega arith))

    pub reset_user_password-KeepsPasswords :
        (user_id : ℕ) (password : Text) (salt : String)
        → KeepsPasswords db (reset_user_password platform db user_id password salt).0
    unfolding reset_user_password
    reset_user_password-KeepsPasswords user_id password salt =
        if-KeepsPasswords _ _ _ unchanged
          (reset_of-KeepsPasswords password salt (user_row db user_id))
