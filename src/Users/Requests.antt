-- ===== src/Users/Requests.antt =====
-- Sequences of user-management requests, in any order and with any arguments.
use open_sec_dash.Prelude.{◌≡◌, refl, true, ◌∙◌, arith, ℕ, String, Option, List, [], ◌∷◌}
use open_sec_dash.Prelude.Text.{Text}
use open_sec_dash.Database.{User, Database}
use open_sec_dash.Auth.{Platform}
use open_sec_dash.Auth.Admins.{IsKeyed}
use open_sec_dash.Oidc.Reachability.{IsReachable, CanSignIn, IsReachable-CanSignIn}
use open_sec_dash.Oidc.{effective_password_login_enabled}
use open_sec_dash.Users.Passwords.{
  KeepsPasswords, passwordless_count, password_admins_left, effective_same,
  create_managed_user-KeepsPasswords, change_user_role-KeepsPasswords,
  reset_user_password-KeepsPasswords, toggle_user-KeepsPasswords,
  revoke_user_external_identity-KeepsPasswords, delete_managed_user-KeepsPasswords,
}
use open_sec_dash.Users.{
  Handled, change_user_role, toggle_user, revoke_user_external_identity, delete_managed_user,
  create_managed_user, reset_user_password,
}
use open_sec_dash.Users.Reachability.{
  change_user_role-IsReachable, toggle_user-IsReachable, revoke_user_external_identity-IsReachable,
  delete_managed_user-IsReachable, create_managed_user-IsReachable, reset_user_password-IsReachable,
}
use open_sec_dash.Users.Keys.{
  change_user_role-IsKeyed, toggle_user-IsKeyed, revoke_user_external_identity-IsKeyed,
  delete_managed_user-IsKeyed, create_managed_user-IsKeyed, reset_user_password-IsKeyed,
}

-- The routes of the module, with what the form and the session of the request hold.
pub data Request : Type 0 where
  create : Text → Text → String → String → Request
  change_role : ℕ → String → Request
  reset_password : ℕ → Text → String → Request
  toggle : ℕ → Request
  revoke_link : Option User → ℕ → Request
  remove : Option User → ℕ → Request

module _ (platform : Platform) where
  unfoldable pub handle : Database → Request → Handled
  handle db (create username password role salt) =
      create_managed_user platform db username password role salt
  handle db (change_role user_id role) = change_user_role db user_id role
  handle db (reset_password user_id password salt) =
      reset_user_password platform db user_id password salt
  handle db (toggle user_id) = toggle_user db user_id
  handle db (revoke_link current user_id) = revoke_user_external_identity db current user_id
  handle db (remove current user_id) = delete_managed_user db current user_id

  unfoldable pub serve : Database → List Request → Database
  serve db [] = db
  serve db (request ∷ requests) = serve (handle db request).0 requests

  handle-IsReachable :
      (db : Database) (request : Request)
      → IsKeyed db
      → IsReachable db
      → IsReachable (handle db request).0
  unfolding handle
  handle-IsReachable db (create username password role salt) keyed reach =
      create_managed_user-IsReachable db keyed reach platform username password role salt
  handle-IsReachable db (change_role user_id role) keyed reach =
      change_user_role-IsReachable db keyed reach user_id role
  handle-IsReachable db (reset_password user_id password salt) keyed reach =
      reset_user_password-IsReachable db keyed reach platform user_id password salt
  handle-IsReachable db (toggle user_id) keyed reach =
      toggle_user-IsReachable db keyed reach user_id
  handle-IsReachable db (revoke_link current user_id) keyed reach =
      revoke_user_external_identity-IsReachable db keyed reach current user_id
  handle-IsReachable db (remove current user_id) keyed reach =
      delete_managed_user-IsReachable db keyed reach current user_id

  handle-IsKeyed : (db : Database) (request : Request) → IsKeyed db → IsKeyed (handle db request).0
  unfolding handle
  handle-IsKeyed db (create username password role salt) keyed =
      create_managed_user-IsKeyed db keyed platform username password role salt
  handle-IsKeyed db (change_role user_id role) keyed =
      change_user_role-IsKeyed db keyed user_id role
  handle-IsKeyed db (reset_password user_id password salt) keyed =
      reset_user_password-IsKeyed db keyed platform user_id password salt
  handle-IsKeyed db (toggle user_id) keyed = toggle_user-IsKeyed db keyed user_id
  handle-IsKeyed db (revoke_link current user_id) keyed =
      revoke_user_external_identity-IsKeyed db keyed current user_id
  handle-IsKeyed db (remove current user_id) keyed =
      delete_managed_user-IsKeyed db keyed current user_id

  serve-IsReachable :
      (db : Database) (requests : List Request)
      → IsKeyed db
      → IsReachable db
      → IsReachable (serve db requests)
  unfolding serve
  serve-IsReachable db [] keyed reach = reach
  serve-IsReachable db (request ∷ requests) keyed reach =
      serve-IsReachable (handle db request).0 requests (handle-IsKeyed db request keyed)
        (handle-IsReachable db request keyed reach)

  handle-KeepsPasswords :
      (db : Database) (request : Request) → KeepsPasswords db (handle db request).0
  unfolding handle
  handle-KeepsPasswords db (create username password role salt) =
      create_managed_user-KeepsPasswords db platform username password role salt
  handle-KeepsPasswords db (change_role user_id role) =
      change_user_role-KeepsPasswords db user_id role
  handle-KeepsPasswords db (reset_password user_id password salt) =
      reset_user_password-KeepsPasswords db platform user_id password salt
  handle-KeepsPasswords db (toggle user_id) = toggle_user-KeepsPasswords db user_id
  handle-KeepsPasswords db (revoke_link current user_id) =
      revoke_user_external_identity-KeepsPasswords db current user_id
  handle-KeepsPasswords db (remove current user_id) =
      delete_managed_user-KeepsPasswords db current user_id

  serve-KeepsPasswords :
      (db : Database) (requests : List Request) → KeepsPasswords db (serve db requests)
  unfolding serve
  serve-KeepsPasswords db [] = record { settings = refl; passwords = omega arith }
  serve-KeepsPasswords db (request ∷ requests) =
      let first = handle-KeepsPasswords db request in
      let rest = serve-KeepsPasswords (handle db request).0 requests in
      record {
        settings = rest.settings ∙ first.settings;
        passwords = omega (arith, first.passwords, rest.passwords);
      }

  -- From keyed tables with what the reachability check counts (an active administrator, and where
  -- password sign-in is switched off, a usable provider and an active administrator linked to its
  -- issuer) and, while password sign-in is open, no account without a password: no sequence of
  -- user-management requests, accepted or refused, ends without an active administrator who can
  -- sign in, by a password of theirs or through the usable provider that they are linked to.
  pub serve-CanSignIn :
      (db : Database) (requests : List Request)
      → IsKeyed db
      → IsReachable db
      → (effective_password_login_enabled db ≡ true → passwordless_count db ≡ 0)
      → CanSignIn (serve db requests)
  serve-CanSignIn db requests keyed reach passwords =
      let db' = serve db requests in
      let kept = serve-KeepsPasswords db requests in
      let reach' = serve-IsReachable db requests keyed reach in
      IsReachable-CanSignIn db' reach' λ on. password_admins_left db' reach'.some_admin (
        let none_before = passwords (effective_same db db' kept.settings on) in
        omega (arith, none_before, kept.passwords))
