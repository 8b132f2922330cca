-- ===== src/Users.antt =====
-- backend/app/api/users.py: the administrator's requests that change users. A handler returns the
-- committed database and where it redirects. `admin_reachability_mutation` makes the check and the
-- change one step, as each handler is here; its rollback drops nothing that these handlers wrote.
-- `enable_authentication` and the recovery of the hostname are not part of this module.
pub mod Changes
pub mod Reachability
pub mod Keys
pub mod Passwords
pub mod Requests
use open_sec_dash.Prelude.{
  ℕ, String, Bool, true, false, not, Option, none, some, List, [], ◌∷◌, ◌==◌, string_eq, nat_eq,
  ltb, contains, length, if◌then◌else◌,
}
use open_sec_dash.Prelude.Text.{Text}
use open_sec_dash.Prelude.Sums.{update, delete, find}
use open_sec_dash.Database.{User, Database}
use open_sec_dash.Auth.{
  Platform, roles, password_min_length, validate_new_user, create_user, delete_user_sessions,
  unlink_external_identity, delete_user_external_identities,
}
use open_sec_dash.Oidc.{no_change, admin_reachability_error}

-- `RedirectResponse` to /settings, to /settings?auth_error=…, or to another path.
pub data Reply : Type 0 where
  settings : Reply
  auth_error : String → Reply
  redirect : String → Reply

abbrev pub Handled : Type 0
Handled = Database × Reply

-- The row with the primary key.
abbrev pub user_row : Database → ℕ → Option User
user_row db user_id = find (λ u. u.id) user_id db.users

unfoldable pub update_user : Database → ℕ → (User → User) → Database
update_user db user_id f = record db { users = update (λ u. u.id) user_id f db.users }

-- What a handler does once the reachability check has given its answer.
abbrev unless_error : Option String → Database → Handled → Handled
unless_error (some error) db handled = (db, auth_error error)
unless_error none db handled = handled

role_of : Database → String → Option User → Handled
role_of db role none = (db, auth_error "unknown_user")
role_of db role (some user) =
    unless_error (admin_reachability_error db user (record no_change { role = some role })) db
      (update_user db user.id (λ u. record u { role = role }), settings)

unfoldable pub change_user_role : Database → ℕ → String → Handled
unfolding role_of
change_user_role db user_id role =
    if not (contains role roles)
    then (db, auth_error "invalid_role")
    else role_of db role (user_row db user_id)

toggled : Database → User → Database
toggled db user =
    let db' = update_user db user.id (λ u. record u { is_active = not user.is_active }) in
    if user.is_active then delete_user_sessions db' user.id else db'

toggle_of : Database → Option User → Handled
unfolding toggled
toggle_of db none = (db, auth_error "unknown_user")
toggle_of db (some user) =
    unless_error
      (admin_reachability_error db user
        (record no_change { is_active = some (not user.is_active) }))
      db (toggled db user, settings)

unfoldable pub toggle_user : Database → ℕ → Handled
unfolding toggle_of
toggle_user db user_id = toggle_of db (user_row db user_id)

-- The request's own user, if it is signed in.
abbrev pub is_self : Option User → User → Bool
is_self none user = false
is_self (some current) user = current.id == user.id

revoke_link : Database → User → Handled
revoke_link db user =
    let (db', removed) = unlink_external_identity db user.id "oidc" in
    if not removed
    then (db, auth_error "not_linked")
    else (delete_user_sessions db' user.id, settings)

revoke_of : Database → Option User → Option User → Handled
unfolding revoke_link
revoke_of db current none = (db, auth_error "unknown_user")
revoke_of db current (some user) =
    if is_self current user
    then (db, auth_error "self_unlink")
    else unless_error
        (admin_reachability_error db user (record no_change { keeps_identity = false })) db
        (revoke_link db user)

unfoldable pub revoke_user_external_identity : Database → Option User → ℕ → Handled
unfolding revoke_of
revoke_user_external_identity db current user_id = revoke_of db current (user_row db user_id)

remove_user : Database → User → Database
remove_user db user =
    let db' = delete_user_external_identities (delete_user_sessions db user.id) user.id in
    record db' {
      preferences = delete (λ p. p.user_id) user.id db'.preferences;
      users = delete (λ u. u.id) user.id db'.users;
    }

delete_of : Database → Option User → Option User → Handled
unfolding remove_user
delete_of db current none = (db, auth_error "unknown_user")
delete_of db current (some user) =
    if is_self current user
    then (db, auth_error "self_delete")
    else unless_error (admin_reachability_error db user (record no_change { deleted = true })) db
        (remove_user db user, settings)

unfoldable pub delete_managed_user : Database → Option User → ℕ → Handled
unfolding delete_of
delete_managed_user db current user_id = delete_of db current (user_row db user_id)

module _ (platform : Platform) where
  abbrev created : Option String → Database → Database → Handled
  created (some error) db db' = (db, auth_error error)
  created none db db' = (db', settings)

  unfoldable pub create_managed_user : Database → Text → Text → String → String → Handled
  create_managed_user db username password role salt =
      if not (contains role roles)
      then (db, auth_error "invalid_role")
      else created (validate_new_user db username password) db
          (create_user platform db username password role salt).0

  reset_of : Database → Text → String → Option User → Handled
  reset_of db password salt none = (db, auth_error "unknown_user")
  reset_of db password salt (some user) = (
    delete_user_sessions
        (update_user db user.id
          (λ u. record u { password_hash = some (platform.hash_password salt password) }))
        user.id,
    settings,
  )

  unfoldable pub reset_user_password : Database → ℕ → Text → String → Handled
  unfolding reset_of
  reset_user_password db user_id password salt =
      if ltb (length password) password_min_length
      then (db, auth_error "password_too_short")
      else reset_of db password salt (user_row db user_id)
