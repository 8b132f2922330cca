-- ===== src/Users/Changes.antt =====
-- What a change that the reachability check let through does to the counts of administrators.
use open_sec_dash.Prelude.{
  ℕ, ◌+◌, ◌≤◌, ◌≡◌, ◌≢◌, refl, sym, subst, String, Bool, true, false, ◌&&◌, Option, none, some,
  List, arith, string_eq, nat_eq, select,
}
use open_sec_dash.Prelude.Sums.{
  flag, sum_by, others, find, sum_by_congr, sum_by-only, sum_by-update, key-find,
}
use open_sec_dash.Database.{User, ExternalIdentity, Database}
use open_sec_dash.Auth.{is_admin}
use open_sec_dash.Auth.Admins.{IsKeyed, count-links-select, admin_weight, oidc_weight}
use open_sec_dash.Oidc.{Change, stays_admin, load_config, admin_reachability_error}
use open_sec_dash.Oidc.Reachability.{
  IsReachable, IsReachable-of_sums, admins_left, oidc_admins_left,
}
use open_sec_dash.Users.{Handled, unless_error, update_user}

module _ (db : Database) (user : User) (change : Change) (keyed : IsKeyed db)
    (reach : IsReachable db) (found : find (λ u. u.id) user.id db.users ≡ some user)
    (passed : admin_reachability_error db user change ≡ none) where
  -- A change of a user's row by which the user stays an administrator exactly if the check was told.
  pub IsReachable-of_update :
      (f : User → User)
      → (f user).id ≡ user.id
      → is_admin (f user) ≡ stays_admin user change
      → change.keeps_identity ≡ true
      → IsReachable (update_user db user.id f)
  unfolding update_user
  IsReachable-of_update f id stays keeps =
      let issuer = (load_config db).issuer in
      let weight = oidc_weight issuer db.identities in
      IsReachable-of_sums db (update_user db user.id f) refl reach
        (ground (
          arith,
          reach.some_admin,
          admins_left db user change keyed found passed,
          sum_by-update (λ (u : User). u.id) user.id admin_weight f db.users,
          sum_by-only (λ (u : User). u.id) user.id (λ u. admin_weight (f u)) user db.users
              (keyed.user_ids user.id) found,
        ))
        λ off some_oidc. ground (
          arith,
          oidc_admins_left db user change keyed found passed off some_oidc,
          sum_by-update (λ (u : User). u.id) user.id weight f db.users,
          sum_by-only (λ (u : User). u.id) user.id (λ u. weight (f u)) user db.users
              (keyed.user_ids user.id) found,
        )

  -- The same where the user's links go, and with them perhaps the user: the other users' links stay.
  pub IsReachable-of_removal :
      (db' : Database)
      → db'.settings ≡ db.settings
      → flag (stays_admin user change) + sum_by (others (λ u. u.id) user.id admin_weight) db.users
        ≤ sum_by admin_weight db'.users
      → (stays_admin user change && change.keeps_identity) ≡ false
      → (let issuer = (load_config db).issuer in
          sum_by (others (λ u. u.id) user.id (oidc_weight issuer db.identities)) db.users
          ≤ sum_by (oidc_weight issuer db'.identities) db'.users)
      → IsReachable db'
  IsReachable-of_removal db' same admins gone oidc =
      IsReachable-of_sums db db' same reach
        (omega (arith, admins_left db user change keyed found passed reach.some_admin))
        λ off some_oidc.
          ground (arith, oidc_admins_left db user change keyed found passed off some_oidc)

-- The row that a query by id finds is found by its own id.
pub find_own :
    (users : List User) (user_id : ℕ) (user : User)
    → find (λ u. u.id) user_id users ≡ some user
    → find (λ u. u.id) user.id users ≡ some user
find_own users user_id user h =
    subst (λ k. find (λ (u : User). u.id) k users ≡ some user)
      (sym (key-find (λ (u : User). u.id) user_id user users h)) h

pub unless_error_cases :
    (error : Option String) (db : Database) (handled : Handled)
    → IsReachable db
    → (error ≡ none → IsReachable handled.0)
    → IsReachable (unless_error error db handled).0
unless_error_cases none db handled h k = k refl
unless_error_cases (some e) db handled h k = h

-- Where only links of one user go, the others count among the linked administrators as before.
pub others-oidc_weight :
    (issuer : String) (user_id : ℕ) (p : ExternalIdentity → Bool)
    → ((i : ExternalIdentity) → i.user_id ≢ user_id → p i ≡ true)
    → (identities : List ExternalIdentity) (users : List User)
    → sum_by (others (λ u. u.id) user_id (oidc_weight issuer (select p identities))) users
      ≡ sum_by (others (λ u. u.id) user_id (oidc_weight issuer identities)) users
others-oidc_weight issuer user_id p keeps identities users =
    sum_by_congr _ _ users
      λ u. ground (arith, count-links-select issuer u.id user_id p keeps identities)
