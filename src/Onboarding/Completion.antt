-- ===== src/Onboarding/Completion.antt =====
-- Onboarding is completed at most once.
use open_sec_dash.Prelude.{◌≡◌, refl, String, Option, none, some, arith, string_eq}
use open_sec_dash.Database.{Database, get_setting_value}
use open_sec_dash.Database.Settings.{get-save_setting}
use open_sec_dash.Auth.{Platform}
use open_sec_dash.Onboarding.{
  Form, onboarding_state_setting, store_activation, claim_open_onboarding, activated,
  complete_claimed, complete_onboarding,
}

module _ (platform : Platform) where
  activated_complete :
      (db : Database) (state : String) (form : Form)
      → get_setting_value (activated platform db state form) onboarding_state_setting ""
        ≡ "complete"
  unfolding activated store_activation
  activated_complete db state form = rw (get-save_setting) refl

  claimed_complete :
      (db : Database) (form : Form) (claimed : Option String)
      → (complete_claimed platform db form claimed).1 ≡ none
      → get_setting_value (complete_claimed platform db form claimed).0 onboarding_state_setting ""
        ≡ "complete"
  unfolding complete_claimed
  claimed_complete db form none h = absurd (ground arith)
  claimed_complete db form (some state) h = ground (arith, activated_complete db state form)

  not_open :
      (db : Database) (form : Form)
      → get_setting_value db onboarding_state_setting "" ≡ "complete"
      → complete_onboarding platform db form ≡ (db, some "already_completed")
  unfolding complete_onboarding claim_open_onboarding complete_claimed
  not_open db form h = rw h refl

  completed :
      (db : Database) (form : Form)
      → (complete_onboarding platform db form).1 ≡ none
      → get_setting_value (complete_onboarding platform db form).0 onboarding_state_setting ""
        ≡ "complete"
  unfolding complete_onboarding
  completed db form h = claimed_complete db form (claim_open_onboarding db) h

  -- Once a completion has succeeded, every later one is refused and changes nothing, whatever its
  -- form holds: two first visitors never both create an administrator.
  pub complete_onboarding-complete_onboarding :
      (db : Database) (form later : Form)
      → (complete_onboarding platform db form).1 ≡ none
      → complete_onboarding platform (complete_onboarding platform db form).0 later
        ≡ ((complete_onboarding platform db form).0, some "already_completed")
  complete_onboarding-complete_onboarding db form later h =
      not_open (complete_onboarding platform db form).0 later (completed db form h)
