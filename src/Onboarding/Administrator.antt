-- ===== src/Onboarding/Administrator.antt =====
-- A completed onboarding has an administrator.
use open_sec_dash.Prelude.{
  ◌<◌, ◌≡◌, refl, String, false, Option, none, some, arith, nat_eq, string_eq, Bool-cases, inl, inr,
}
use open_sec_dash.Prelude.Text.{Text}
use open_sec_dash.Prelude.Sums.{sum_by, sum_by-append}
use open_sec_dash.Database.{Database, save_setting}
use open_sec_dash.Preferences.{create_user_preferences}
use open_sec_dash.Auth.{Platform, create_user, copy_legacy_views_to_user, active_admin_count}
use open_sec_dash.Auth.Admins.{admin_weight, active_admin_count-all}
use open_sec_dash.Oidc.{nonempty}
use open_sec_dash.Onboarding.{
  Form, store_activation, account_required, claim_open_onboarding, activated, complete_claimed,
  complete_onboarding,
}

module _ (platform : Platform) where
  create_user_admin :
      (db : Database) (username password : Text) (salt : String)
      → 0 < active_admin_count (create_user platform db username password "admin" salt).0 none
  unfolding create_user create_user_preferences copy_legacy_views_to_user sum_by
  create_user_admin db username password salt =
      rw (active_admin_count-all (create_user platform db username password "admin" salt).0)
        (rw (sum_by-append admin_weight db.users) (omega arith))

  -- Writing settings leaves the administrators alone.
  active_admin_count-save_setting :
      (db : Database) (key value : String)
      → active_admin_count (save_setting db key value) none ≡ active_admin_count db none
  unfolding save_setting active_admin_count
  active_admin_count-save_setting db key value = refl

  required_admin :
      (db : Database) (state : String)
      → account_required db state ≡ false
      → 0 < active_admin_count db none
  unfolding account_required
  required_admin db state e = ground arith

  activated_admin :
      (db : Database) (state : String) (form : Form)
      → 0 < active_admin_count (activated platform db state form) none
  unfolding activated store_activation
  activated_admin db state form =
      rw
        (
          active_admin_count-save_setting, active_admin_count-save_setting,
          active_admin_count-save_setting,
        )
        (elim (Bool-cases (account_required db state)) [
          | inl e ↦ rw e (create_user_admin _ form.username form.password form.salt)
          | inr e ↦
              let admins = required_admin db state e in
              rw e (elim (Bool-cases (nonempty form.language)) [
                | inl l ↦
                    rw (l, active_admin_count-save_setting, active_admin_count-save_setting) admins
                | inr l ↦ rw (l, active_admin_count-save_setting) admins
              ])
        ])

  claimed_admin :
      (db : Database) (form : Form) (claimed : Option String)
      → (complete_claimed platform db form claimed).1 ≡ none
      → 0 < active_admin_count (complete_claimed platform db form claimed).0 none
  unfolding complete_claimed
  claimed_admin db form none h = absurd (ground arith)
  claimed_admin db form (some state) h = ground (arith, activated_admin db state form)

  -- When a completion succeeds, the installation has an active administrator.
  pub complete_onboarding_admin :
      (db : Database) (form : Form)
      → (complete_onboarding platform db form).1 ≡ none
      → 0 < active_admin_count (complete_onboarding platform db form).0 none
  unfolding complete_onboarding
  complete_onboarding_admin db form h = claimed_admin db form (claim_open_onboarding db) h
