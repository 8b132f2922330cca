-- ===== src/Users/Reachability.antt =====
-- No request of user management takes what the reachability check counts.
use open_sec_dash.Prelude.{
  ℕ, ◌≡◌, refl, String, true, false, not, ◌&&◌, Option, none, some, List, [], ◌∷◌, arith, ◌==◌,
  string_eq, nat_eq, Bool-cases, inl, inr, contains, select, length, ltb,
}
use open_sec_dash.Prelude.Text.{Text}
use open_sec_dash.Prelude.Sums.{
  sum_by, delete, find, update, sum_by_split, sum_by-only, sum_by-append, sum_by-delete,
}
use open_sec_dash.Database.{User, ExternalIdentity, Database}
use open_sec_dash.Auth.{
  Platform, create_user, validate_new_user, password_min_length, copy_legacy_views_to_user,
  delete_user_sessions, delete_user_external_identities, unlink_external_identity, roles,
}
use open_sec_dash.Auth.Admins.{
  IsKeyed, admin_weight, oidc_weight, active_admin_count-all, active_oidc_admin_count-all,
}
use open_sec_dash.Preferences.{create_user_preferences}
use open_sec_dash.Oidc.{no_change, load_config, admin_reachability_error}
use open_sec_dash.Oidc.Reachability.{IsReachable, IsReachable-of_sums, if-IsReachable}
use open_sec_dash.Users.Changes.{
  IsReachable-of_update, IsReachable-of_removal, find_own, unless_error_cases, others-oidc_weight,
}
use open_sec_dash.Users.{
  user_row, update_user, role_of, change_user_role, toggled, toggle_of, toggle_user, remove_user,
  revoke_link, is_self, revoke_of, delete_of, revoke_user_external_identity, delete_managed_user,
  reset_of, reset_user_password, create_managed_user, created,
}

-- Sessions have no part in what the check counts.
sessions_dropped-IsReachable :
    (db : Database) (user_id : ℕ) → IsReachable db → IsReachable (delete_user_sessions db user_id)
unfolding delete_user_sessions
sessions_dropped-IsReachable db user_id reach =
    IsReachable-of_sums db _ refl reach (rw (← active_admin_count-all db) reach.some_admin)
      λ off h. rw (← active_oidc_admin_count-all db (load_config db).issuer) h

same_weights :
    (g : User → ℕ) (user_id : ℕ) (hash : String)
    → ((u : User) → g (record u { password_hash = some hash }) ≡ g u)
    → (users : List User)
    → sum_by g (update (λ u. u.id) user_id (λ u. record u { password_hash = some hash }) users)
      ≡ sum_by g users
unfolding sum_by
same_weights g user_id hash same [] = refl
same_weights g user_id hash same (u ∷ users) =
    ground (arith, same u, same_weights g user_id hash same users)

module _ (db : Database) (keyed : IsKeyed db) (reach : IsReachable db) where
  role_of-IsReachable :
      (user_id : ℕ) (role : String) (o : Option User)
      → user_row db user_id ≡ o
      → IsReachable (role_of db role o).0
  unfolding role_of
  role_of-IsReachable user_id role none e = reach
  role_of-IsReachable user_id role (some user) e =
      let change = record no_change { role = some role } in
      unless_error_cases (admin_reachability_error db user change) db _ reach λ passed.
        IsReachable-of_update db user change keyed reach (find_own db.users user_id user e) passed
          (λ u. record u { role = role }) refl (ground arith) refl

  -- A change of role passes only where the check still counts an administrator, whatever role is asked for.
  pub change_user_role-IsReachable :
      (user_id : ℕ) (role : String) → IsReachable (change_user_role db user_id role).0
  unfolding change_user_role
  change_user_role-IsReachable user_id role =
      if-IsReachable (not (contains role roles)) _ _ reach
        (role_of-IsReachable user_id role (user_row db user_id) refl)

  toggled-IsReachable :
      (user : User)
      → IsReachable (update_user db user.id (λ u. record u { is_active = not user.is_active }))
      → IsReachable (toggled db user)
  unfolding toggled
  toggled-IsReachable user h = elim (Bool-cases user.is_active) [
    | inl e ↦ rw e (sessions_dropped-IsReachable _ user.id (rw e at h))
    | inr e ↦ rw e (rw e at h)
  ]

  toggle_of-IsReachable :
      (user_id : ℕ) (o : Option User) → user_row db user_id ≡ o → IsReachable (toggle_of db o).0
  unfolding toggle_of
  toggle_of-IsReachable user_id none e = reach
  toggle_of-IsReachable user_id (some user) e =
      let change = record no_change { is_active = some (not user.is_active) } in
      unless_error_cases (admin_reachability_error db user change) db _ reach λ passed.
        toggled-IsReachable user (
          IsReachable-of_update db user change keyed reach (find_own db.users user_id user e) passed
            (λ u. record u { is_active = not user.is_active }) refl refl refl)

  pub toggle_user-IsReachable : (user_id : ℕ) → IsReachable (toggle_user db user_id).0
  unfolding toggle_user
  toggle_user-IsReachable user_id = toggle_of-IsReachable user_id (user_row db user_id) refl

  remove_user-IsReachable :
      (user : User)
      → find (λ u. u.id) user.id db.users ≡ some user
      → admin_reachability_error db user (record no_change { deleted = true }) ≡ none
      → IsReachable (remove_user db user)
  unfolding remove_user delete_user_external_identities delete_user_sessions
  remove_user-IsReachable user found passed =
      let issuer = (load_config db).issuer in
      let kept : List ExternalIdentity = delete (λ i. i.user_id) user.id db.identities in
      IsReachable-of_removal db user (record no_change { deleted = true }) keyed reach found passed
        _ refl (ground (arith, sum_by-delete (λ (u : User). u.id) user.id admin_weight db.users))
        (ground arith)
        (omega (
          arith,
          sum_by-delete (λ (u : User). u.id) user.id (oidc_weight issuer kept) db.users,
          others-oidc_weight issuer user.id (λ i. not (i.user_id == user.id)) (λ i h. ground arith)
              db.identities db.users,
        ))

  revoke_link-IsReachable :
      (user : User)
      → find (λ u. u.id) user.id db.users ≡ some user
      → admin_reachability_error db user (record no_change { keeps_identity = false }) ≡ none
      → IsReachable (revoke_link db user).0
  unfolding revoke_link unlink_external_identity
  revoke_link-IsReachable user found passed =
      let issuer = (load_config db).issuer in
      let kept : List ExternalIdentity =
        select (λ i. not (i.provider == "oidc" && i.user_id == user.id)) db.identities in
      let unlinked : IsReachable (record db { identities = kept }) =
        IsReachable-of_removal db user (record no_change { keeps_identity = false }) keyed reach
          found passed _ refl
          (ground (
            arith,
            sum_by_split (λ (u : User). u.id) user.id admin_weight db.users,
            sum_by-only (λ (u : User). u.id) user.id admin_weight user db.users
                (keyed.user_ids user.id) found,
          ))
          (ground arith)
          (omega (
            arith,
            sum_by_split (λ (u : User). u.id) user.id (oidc_weight issuer kept) db.users,
            others-oidc_weight issuer user.id
                (λ i. not (i.provider == "oidc" && i.user_id == user.id)) (λ i h. ground arith)
                db.identities db.users,
          )) in
      if-IsReachable _ _ _ reach
        (sessions_dropped-IsReachable (record db { identities = kept }) user.id unlinked)

  revoke_of-IsReachable :
      (current : Option User) (user_id : ℕ) (o : Option User)
      → user_row db user_id ≡ o
      → IsReachable (revoke_of db current o).0
  unfolding revoke_of
  revoke_of-IsReachable current user_id none e = reach
  revoke_of-IsReachable current user_id (some user) e =
      if-IsReachable (is_self current user) _ _ reach (
        unless_error_cases
          (admin_reachability_error db user (record no_change { keeps_identity = false })) db _
          reach (revoke_link-IsReachable user (find_own db.users user_id user e)))

  pub revoke_user_external_identity-IsReachable :
      (current : Option User) (user_id : ℕ)
      → IsReachable (revoke_user_external_identity db current user_id).0
  unfolding revoke_user_external_identity
  revoke_user_external_identity-IsReachable current user_id =
      revoke_of-IsReachable current user_id (user_row db user_id) refl

  delete_of-IsReachable :
      (current : Option User) (user_id : ℕ) (o : Option User)
      → user_row db user_id ≡ o
      → IsReachable (delete_of db current o).0
  unfolding delete_of
  delete_of-IsReachable current user_id none e = reach
  delete_of-IsReachable current user_id (some user) e =
      if-IsReachable (is_self current user) _ _ reach (
        unless_error_cases (admin_reachability_error db user (record no_change { deleted = true }))
          db _ reach (remove_user-IsReachable user (find_own db.users user_id user e)))

  pub delete_managed_user-IsReachable :
      (current : Option User) (user_id : ℕ) → IsReachable (delete_managed_user db current user_id).0
  unfolding delete_managed_user
  delete_managed_user-IsReachable current user_id =
      delete_of-IsReachable current user_id (user_row db user_id) refl

  -- A new password does not change who counts.
  set_hash-IsReachable :
      (user_id : ℕ) (hash : String)
      → IsReachable (update_user db user_id (λ u. record u { password_hash = some hash }))
  unfolding update_user
  set_hash-IsReachable user_id hash =
      let weight = oidc_weight (load_config db).issuer db.identities in
      IsReachable-of_sums db _ refl reach
        (rw (same_weights admin_weight user_id hash (λ u. refl) db.users)
          (rw (← active_admin_count-all db) reach.some_admin))
        λ off h.
          rw (same_weights weight user_id hash (λ u. refl) db.users)
            (rw (← active_oidc_admin_count-all db (load_config db).issuer) h)

  module _ (platform : Platform) where
    create_user-IsReachable :
        (username password : Text) (role salt : String)
        → IsReachable (create_user platform db username password role salt).0
    unfolding create_user create_user_preferences copy_legacy_views_to_user
    create_user-IsReachable username password role salt =
        IsReachable-of_sums db _ refl reach
          (omega (
            arith,
            reach.some_admin,
            active_admin_count-all db,
            sum_by-append admin_weight db.users,
          ))
          λ off h. omega (
            arith,
            h,
            active_oidc_admin_count-all db (load_config db).issuer,
            sum_by-append (oidc_weight (load_config db).issuer db.identities) db.users,
          )

    created-IsReachable :
        {db' : Database} (error : Option String)
        → IsReachable db'
        → IsReachable (created platform error db db').0
    created-IsReachable none h = h
    created-IsReachable (some e) h = reach

    pub create_managed_user-IsReachable :
        (username password : Text) (role salt : String)
        → IsReachable (create_managed_user platform db username password role salt).0
    unfolding create_managed_user
    create_managed_user-IsReachable username password role salt =
        if-IsReachable (not (contains role roles)) _ _ reach (
          created-IsReachable (validate_new_user db username password)
            (create_user-IsReachable username password role salt))

    reset_of-IsReachable :
        (password : Text) (salt : String) (o : Option User)
        → IsReachable (reset_of platform db password salt o).0
    unfolding reset_of
    reset_of-IsReachable password salt none = reach
    reset_of-IsReachable password salt (some user) =
        sessions_dropped-IsReachable _ user.id
          (set_hash-IsReachable user.id (platform.hash_password salt password))

    pub reset_user_password-IsReachable :
        (user_id : ℕ) (password : Text) (salt : String)
        → IsReachable (reset_user_password platform db user_id password salt).0
    unfolding reset_user_password
    reset_user_password-IsReachable user_id password salt =
        if-IsReachable (ltb (length password) password_min_length) _ _ reach
          (reset_of-IsReachable password salt (user_row db user_id))
