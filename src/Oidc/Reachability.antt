-- ===== src/Oidc/Reachability.antt =====
-- What the reachability check gives to a request that it lets through.
use open_sec_dash.Prelude.{
  ◌+◌, ◌<◌, ◌≡◌, refl, Bool, true, false, ◌&&◌, none, some, arith, string_eq, nat_eq, if◌then◌else◌,
  ℕ, is_some, Bool-cases, inl, inr,
}
use open_sec_dash.Prelude.Sums.{flag, sum_by, count, others, find, sum_by_split, sum_by-only}
use open_sec_dash.Database.{User, Database, get_setting_value}
use open_sec_dash.Auth.{
  is_admin, links, active_admin_count, active_oidc_admin_count, find_user_external_identity,
}
use open_sec_dash.Auth.Admins.{
  IsKeyed, admin_weight, oidc_weight, count-links, active_admin_count-others,
  active_oidc_admin_count-others, active_admin_count-all, active_oidc_admin_count-all,
}
use open_sec_dash.Oidc.{
  Change, stays_admin, load_config, password_login_enabled, oidc_login_available,
  effective_password_login_enabled, admin_reachability_error,
}

-- What the check counts: there is an active administrator, and where password sign-in is switched off,
-- a usable provider and an active administrator linked to its issuer. It does not ask for a password.
pub record IsReachable (db : Database) : Type 0 where
  pub some_admin : 0 < active_admin_count db none
  pub some_way :
      password_login_enabled db ≡ false
      → (oidc_login_available (load_config db) ≡ true)
        × (0 < active_oidc_admin_count db (load_config db).issuer none)

pub effective-eq-stored :
    (db : Database)
    → IsReachable db
    → effective_password_login_enabled db ≡ password_login_enabled db
unfolding effective_password_login_enabled
effective-eq-stored db h = ground arith

-- The active administrators who have a password.
unfoldable pub password_admin_count : Database → ℕ
password_admin_count db = count (λ u. is_admin u && is_some u.password_hash) db.users

-- Some administrator can sign in: by a password, where that way is open, or through the usable provider
-- with a link to its issuer.
pub data CanSignIn (db : Database) : Type 0 where
  by_password :
      effective_password_login_enabled db ≡ true → 0 < password_admin_count db → CanSignIn db
  by_provider :
      oidc_login_available (load_config db) ≡ true
      → 0 < active_oidc_admin_count db (load_config db).issuer none
      → CanSignIn db

-- What the check counts is enough where an administrator has a password, if passwords are asked for.
pub IsReachable-CanSignIn :
    (db : Database)
    → IsReachable db
    → (effective_password_login_enabled db ≡ true → 0 < password_admin_count db)
    → CanSignIn db
IsReachable-CanSignIn db reach passwords = elim (Bool-cases (effective_password_login_enabled db)) [
  | inl on ↦ by_password on (passwords on)
  | inr off ↦
      let way = reach.some_way (cc (effective-eq-stored db reach)) in by_provider way.0 way.1
]

module _ (db : Database) (user : User) (change : Change) (keyed : IsKeyed db)
    (found : find (λ u. u.id) user.id db.users ≡ some user)
    (passed : admin_reachability_error db user change ≡ none) where
  -- The administrators after the change: the user, if still one, and the others.
  pub admins_left :
      0 < active_admin_count db none
      → 0
        < flag (stays_admin user change) + sum_by (others (λ u. u.id) user.id admin_weight) db.users
  unfolding admin_reachability_error
  admins_left h = ground (
    arith,
    active_admin_count-all db,
    active_admin_count-others db user.id,
    sum_by_split (λ (u : User). u.id) user.id admin_weight db.users,
    sum_by-only (λ (u : User). u.id) user.id admin_weight user db.users (keyed.user_ids user.id)
        found,
  )

  -- The same for the administrators that are linked to the configured issuer, where password
  -- sign-in is off.
  pub oidc_admins_left :
      effective_password_login_enabled db ≡ false
      → 0 < active_oidc_admin_count db (load_config db).issuer none
      → 0
        < (if stays_admin user change && change.keeps_identity
            then count (links (load_config db).issuer user.id) db.identities
            else 0)
          + sum_by
              (others (λ u. u.id) user.id (oidc_weight (load_config db).issuer db.identities))
              db.users
  unfolding admin_reachability_error find_user_external_identity
  oidc_admins_left off h =
      let issuer = (load_config db).issuer in
      let weight = oidc_weight issuer db.identities in
      ground (
        arith,
        active_oidc_admin_count-all db issuer,
        active_oidc_admin_count-others db user.id issuer,
        count-links issuer user.id db.identities (keyed.user_links user.id "oidc"),
        sum_by_split (λ (u : User). u.id) user.id weight db.users,
        sum_by-only (λ (u : User). u.id) user.id weight user db.users (keyed.user_ids user.id)
            found,
      )

module _ (db db' : Database) (same : db'.settings ≡ db.settings) where
  load_config_same : load_config db' ≡ load_config db
  unfolding load_config get_setting_value
  load_config_same = cc

  password_login_same : password_login_enabled db' ≡ password_login_enabled db
  unfolding password_login_enabled get_setting_value
  password_login_same = cc

  -- A request that leaves the settings alone keeps the installation open to administrators if it
  -- leaves some of them, and where password sign-in is off some that the provider knows.
  pub IsReachable-of_sums :
      IsReachable db
      → 0 < sum_by admin_weight db'.users
      → (effective_password_login_enabled db ≡ false
          → 0 < active_oidc_admin_count db (load_config db).issuer none
          → 0 < sum_by (oidc_weight (load_config db).issuer db'.identities) db'.users)
      → IsReachable db'
  IsReachable-of_sums reach admins oidc = record {
    some_admin = rw (active_admin_count-all db') admins;
    some_way = λ off.
        let off' : password_login_enabled db ≡ false = cc (password_login_same) in
        let way = reach.some_way off' in
        rw (load_config_same, active_oidc_admin_count-all db' (load_config db).issuer)
          (way.0, oidc (rw (effective-eq-stored db reach) off') way.1);
  }

-- A test between two results, each of a database and an answer.
pub if-IsReachable {ℓ} :
    {R : Type ℓ} (b : Bool) (x y : Database × R)
    → IsReachable x.0
    → IsReachable y.0
    → IsReachable (if b then x else y).0
if-IsReachable true x y hx hy = hx
if-IsReachable false x y hx hy = hy

-- The same, where the second result needs that the test failed.
pub else-IsReachable {ℓ} :
    {R : Type ℓ} (b : Bool) (x y : Database × R)
    → IsReachable x.0
    → (b ≡ false → IsReachable y.0)
    → IsReachable (if b then x else y).0
else-IsReachable true x y hx hy = hx
else-IsReachable false x y hx hy = hy refl
