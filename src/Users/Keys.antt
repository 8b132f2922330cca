-- ===== src/Users/Keys.antt =====
-- The requests of user management keep the tables keyed: one row for a user id, and one identity of
-- a provider for a user.
use open_sec_dash.Prelude.{
  ℕ, ◌≤◌, ◌≡◌, refl, String, Bool, true, false, not, ◌&&◌, Option, none, some, List, [], ◌∷◌, ◌++◌,
  arith, ◌==◌, string_eq, nat_eq, if◌then◌else◌, select, contains, ltb, length, Bool-cases, inl,
  inr,
}
use open_sec_dash.Prelude.Text.{Text}
use open_sec_dash.Prelude.Sums.{flag, sum_by, count, update, sum_by-append}
use open_sec_dash.Preferences.{create_user_preferences}
use open_sec_dash.Database.{User, ExternalIdentity, Database}
use open_sec_dash.Auth.{
  Platform, delete_user_sessions, delete_user_external_identities, unlink_external_identity, roles,
  password_min_length, validate_new_user, create_user, copy_legacy_views_to_user,
}
use open_sec_dash.Auth.Admins.{IsKeyed}
use open_sec_dash.Oidc.{no_change, admin_reachability_error}
use open_sec_dash.Users.{
  settings, is_self, unless_error, Handled, update_user, role_of, change_user_role, toggle_of,
  toggle_user, revoke_link, revoke_of, revoke_user_external_identity, remove_user, delete_of,
  delete_managed_user, created, create_managed_user, reset_of, reset_user_password, user_row,
}

count-select {ℓ} :
    {A : Type ℓ} (p q : A → Bool) (rows : List A) → count p (select q rows) ≤ count p rows
unfolding sum_by
count-select p q [] = omega arith
count-select p q (x ∷ rows) = ground (arith, count-select p q rows)

count-update :
    (k user_id : ℕ) (f : User → User)
    → ((u : User) → (f u).id ≡ u.id)
    → (users : List User)
    → count (λ u. u.id == k) (update (λ u. u.id) user_id f users) ≡ count (λ u. u.id == k) users
unfolding sum_by
count-update k user_id f same [] = refl
count-update k user_id f same (u ∷ users) =
    ground (arith, same u, count-update k user_id f same users)

count-new_row :
    (k : ℕ) (users : List User) (user : User)
    → count (λ u. u.id == user.id) users ≡ 0
    → count (λ u. u.id == k) users ≤ 1
    → count (λ u. u.id == k) (users ++ user ∷ []) ≤ 1
unfolding sum_by
count-new_row k users user unused h = elim (Bool-cases (user.id == k)) [
  | inl e ↦
      let same : user.id ≡ k = ground arith in
      let none_yet : count (λ u. u.id == k) users ≡ 0 = rw (← same) unused in
      ground (arith, sum_by-append (λ (u : User). flag (u.id == k)) users (user ∷ []))
  | inr e ↦ ground (arith, sum_by-append (λ (u : User). flag (u.id == k)) users (user ∷ []))
]

fewer-IsKeyed :
    {db db' : Database}
    → ((p : User → Bool) → count p db'.users ≤ count p db.users)
    → ((p : ExternalIdentity → Bool) → count p db'.identities ≤ count p db.identities)
    → IsKeyed db
    → IsKeyed db'
fewer-IsKeyed {db} {db'} users identities keyed = record {
  user_ids = λ k. omega (arith, keyed.user_ids k, users (λ u. u.id == k));
  user_links = λ k provider. omega (
    arith,
    keyed.user_links k provider,
    identities (λ i. i.provider == provider && i.user_id == k),
  );
}

update_user-IsKeyed :
    {db : Database} (user_id : ℕ) (f : User → User)
    → ((u : User) → (f u).id ≡ u.id)
    → IsKeyed db
    → IsKeyed (update_user db user_id f)
unfolding update_user
update_user-IsKeyed {db} user_id f same keyed = record {
  user_ids = λ k. omega (arith, keyed.user_ids k, count-update k user_id f same db.users);
  user_links = keyed.user_links;
}

sessions_dropped-IsKeyed :
    {db : Database} (user_id : ℕ) → IsKeyed db → IsKeyed (delete_user_sessions db user_id)
unfolding delete_user_sessions
sessions_dropped-IsKeyed user_id keyed = record {
  user_ids = keyed.user_ids;
  user_links = keyed.user_links;
}

unless_error-IsKeyed :
    {db : Database} (error : Option String) (handled : Handled)
    → IsKeyed db
    → IsKeyed handled.0
    → IsKeyed (unless_error error db handled).0
unless_error-IsKeyed none handled keyed h = h
unless_error-IsKeyed (some e) handled keyed h = keyed

if-IsKeyed : (b : Bool) (x y : Handled) → IsKeyed x.0 → IsKeyed y.0 → IsKeyed (if b then x else y).0
if-IsKeyed true x y hx hy = hx
if-IsKeyed false x y hx hy = hy

if-IsKeyed_db : (b : Bool) (x y : Database) → IsKeyed x → IsKeyed y → IsKeyed (if b then x else y)
if-IsKeyed_db true x y hx hy = hx
if-IsKeyed_db false x y hx hy = hy

module _ (db : Database) (keyed : IsKeyed db) where
  role_of-IsKeyed : (role : String) (o : Option User) → IsKeyed (role_of db role o).0
  unfolding role_of
  role_of-IsKeyed role none = keyed
  role_of-IsKeyed role (some user) =
      unless_error-IsKeyed _ _ keyed (update_user-IsKeyed user.id _ (λ u. refl) keyed)

  pub change_user_role-IsKeyed :
      (user_id : ℕ) (role : String) → IsKeyed (change_user_role db user_id role).0
  unfolding change_user_role
  change_user_role-IsKeyed user_id role = if-IsKeyed _ _ _ keyed (role_of-IsKeyed role _)

  toggle_of-IsKeyed : (o : Option User) → IsKeyed (toggle_of db o).0
  unfolding toggle_of
  toggle_of-IsKeyed none = keyed
  toggle_of-IsKeyed (some user) =
      let updated =
        update_user-IsKeyed user.id (λ u. record u { is_active = not user.is_active }) (λ u. refl)
          keyed in
      unless_error-IsKeyed _ _ keyed
        (if-IsKeyed_db user.is_active _ _ (sessions_dropped-IsKeyed user.id updated) updated)

  pub toggle_user-IsKeyed : (user_id : ℕ) → IsKeyed (toggle_user db user_id).0
  unfolding toggle_user
  toggle_user-IsKeyed user_id = toggle_of-IsKeyed (user_row db user_id)

  revoke_link-IsKeyed : (user : User) → IsKeyed (revoke_link db user).0
  unfolding revoke_link unlink_external_identity
  revoke_link-IsKeyed user =
      let kept : List ExternalIdentity =
        select (λ i. not (i.provider == "oidc" && i.user_id == user.id)) db.identities in
      if-IsKeyed _ _ _ keyed (
        sessions_dropped-IsKeyed {db = record db { identities = kept }} user.id
          (fewer-IsKeyed (λ p. omega arith) (λ p. count-select p _ db.identities) keyed))

  remove_user-IsKeyed : (user : User) → IsKeyed (remove_user db user)
  unfolding remove_user delete_user_sessions delete_user_external_identities
  remove_user-IsKeyed user =
      fewer-IsKeyed (λ p. count-select p _ db.users) (λ p. count-select p _ db.identities) keyed

  revoke_of-IsKeyed : (current o : Option User) → IsKeyed (revoke_of db current o).0
  unfolding revoke_of
  revoke_of-IsKeyed current none = keyed
  revoke_of-IsKeyed current (some user) = if-IsKeyed (is_self current user) _ _ keyed (
      unless_error-IsKeyed
        (admin_reachability_error db user (record no_change { keeps_identity = false })) _ keyed
        (revoke_link-IsKeyed user))

  pub revoke_user_external_identity-IsKeyed :
      (current : Option User) (user_id : ℕ)
      → IsKeyed (revoke_user_external_identity db current user_id).0
  unfolding revoke_user_external_identity
  revoke_user_external_identity-IsKeyed current user_id =
      revoke_of-IsKeyed current (user_row db user_id)

  delete_of-IsKeyed : (current o : Option User) → IsKeyed (delete_of db current o).0
  unfolding delete_of
  delete_of-IsKeyed current none = keyed
  delete_of-IsKeyed current (some user) = if-IsKeyed (is_self current user) _ _ keyed (
      unless_error-IsKeyed (admin_reachability_error db user (record no_change { deleted = true }))
        (remove_user db user, settings) keyed (remove_user-IsKeyed user))

  pub delete_managed_user-IsKeyed :
      (current : Option User) (user_id : ℕ) → IsKeyed (delete_managed_user db current user_id).0
  unfolding delete_managed_user
  delete_managed_user-IsKeyed current user_id = delete_of-IsKeyed current (user_row db user_id)

  module _ (platform : Platform) where
    create_user-IsKeyed :
        (username password : Text) (role salt : String)
        → IsKeyed (create_user platform db username password role salt).0
    unfolding create_user create_user_preferences copy_legacy_views_to_user sum_by
    create_user-IsKeyed username password role salt = record {
      user_ids =
          λ k. count-new_row k db.users _ (platform.new_user_id_unused db.users) (keyed.user_ids k);
      user_links = keyed.user_links;
    }

    created-IsKeyed :
        {db' : Database} (error : Option String)
        → IsKeyed db'
        → IsKeyed (created platform error db db').0
    created-IsKeyed none h = h
    created-IsKeyed (some e) h = keyed

    pub create_managed_user-IsKeyed :
        (username password : Text) (role salt : String)
        → IsKeyed (create_managed_user platform db username password role salt).0
    unfolding create_managed_user
    create_managed_user-IsKeyed username password role salt =
        if-IsKeyed (not (contains role roles)) _ _ keyed (
          created-IsKeyed (validate_new_user db username password)
            (create_user-IsKeyed username password role salt))

    reset_of-IsKeyed :
        (password : Text) (salt : String) (o : Option User)
        → IsKeyed (reset_of platform db password salt o).0
    unfolding reset_of
    reset_of-IsKeyed password salt none = keyed
    reset_of-IsKeyed password salt (some user) =
        sessions_dropped-IsKeyed user.id (update_user-IsKeyed user.id _ (λ u. refl) keyed)

    pub reset_user_password-IsKeyed :
        (user_id : ℕ) (password : Text) (salt : String)
        → IsKeyed (reset_user_password platform db user_id password salt).0
    unfolding reset_user_password
    reset_user_password-IsKeyed user_id password salt =
        if-IsKeyed (ltb (length password) password_min_length) _ _ keyed
          (reset_of-IsKeyed password salt (user_row db user_id))
