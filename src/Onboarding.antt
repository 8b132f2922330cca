-- ===== src/Onboarding.antt =====
-- backend/app/services/onboarding.py: the completion of the first-administrator onboarding.
--
-- The transaction is one step, as the database serializes it; failures of the database itself are
-- left out. The result is the committed database and the error code.
pub mod Completion
pub mod Administrator
use open_sec_dash.Prelude.{
  ℕ, String, Bool, true, false, ◌&&◌, ◌||◌, Option, none, some, List, [], ◌∷◌, ◌==◌, nat_eq,
  string_eq, is_some, if◌then◌else◌, not,
}
use open_sec_dash.Prelude.Text.{Text}
use open_sec_dash.Database.{User, Database, get_setting_value, save_setting}
use open_sec_dash.Auth.{Platform, active_admin_count, create_user, validate_new_user}
use open_sec_dash.Oidc.{nonempty}

abbrev pub onboarding_state_setting : String
onboarding_state_setting = "auth.onboarding_state"

-- What a completion is called with, and the salt that the hash of the password draws.
pub record Form : Type 0 where
  pub hostname : String
  pub language : String
  pub username : Text
  pub password : Text
  pub salt : String

unfoldable pub store_activation : Database → String → Database
store_activation db hostname =
    save_setting (save_setting (save_setting db "auth.hostname" hostname) "auth.enabled" "true")
      onboarding_state_setting "complete"

unfoldable pub account_required : Database → String → Bool
account_required db state = state == "pending" || active_admin_count db none == 0

-- The state that the update with a filter finds; a missing row is in neither.
unfoldable pub claim_open_onboarding : Database → Option String
claim_open_onboarding db =
    let state = get_setting_value db onboarding_state_setting "" in
    if state == "pending"
    then some "pending"
    else if state == "legacy_review_required"
    then some "legacy_review_required"
    else none

abbrev pub has_users : List User → Bool
has_users [] = false
has_users (u ∷ users) = true

module _ (platform : Platform) where
  unfoldable pub activated : Database → String → Form → Database
  activated db state form =
      let claimed = save_setting db onboarding_state_setting "claiming" in
      let translated =
        if nonempty form.language then save_setting claimed "language" form.language else claimed in
      let created =
        if account_required db state
        then (create_user platform translated form.username form.password "admin" form.salt).0
        else translated in
      store_activation created form.hostname

  unfoldable pub complete_claimed : Database → Form → Option String → Database × Option String
  complete_claimed db form none = (db, some "already_completed")
  complete_claimed db form (some state) =
      let error = validate_new_user db form.username form.password in
      if state == "pending" && has_users db.users
      then (db, some "inconsistent_state")
      else if account_required db state && is_some error
      then (db, error)
      else (activated db state form, none)

  unfoldable pub complete_onboarding : Database → Form → Database × Option String
  complete_onboarding db form = complete_claimed db form (claim_open_onboarding db)
