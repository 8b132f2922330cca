-- ===== src/Examples/FirstVisit.antt =====
-- The first visitor of a new installation.
use open_sec_dash.Prelude.{◌≡◌, ◌<◌, refl, none, some, [], ◌∷◌}
use open_sec_dash.Prelude.Text.{codes, strip, lower}
use open_sec_dash.Database.{Database, get_setting_value, lookup_setting}
use open_sec_dash.Auth.{
  validate_new_user, normalize_username, matches_username_pattern, find_username,
  active_admin_count,
}
use open_sec_dash.Onboarding.{
  Form, complete_onboarding, complete_claimed, claim_open_onboarding, account_required,
}
use open_sec_dash.Onboarding.Completion.{complete_onboarding-complete_onboarding}
use open_sec_dash.Onboarding.Administrator.{complete_onboarding_admin}
use open_sec_dash.Examples.{platform}

abbrev new_installation : Database
new_installation = record {
  users = [];
  sessions = [];
  identities = [];
  preferences = [];
  saved_views = [];
  settings = ("auth.onboarding_state", "pending") ∷ [];
}

abbrev form : Form
form = record {
  hostname = "dash.example";
  language = "de";
  username = codes "alice";
  password = codes "correct horse";
  salt = "s";
}

complete_onboarding-complete_onboarding_example :
    complete_onboarding platform (complete_onboarding platform new_installation form).0 form
    ≡ ((complete_onboarding platform new_installation form).0, some "already_completed")
unfolding complete_onboarding complete_claimed claim_open_onboarding get_setting_value
    lookup_setting validate_new_user normalize_username matches_username_pattern find_username strip
    lower account_required
complete_onboarding-complete_onboarding_example =
    complete_onboarding-complete_onboarding platform new_installation form form refl

complete_onboarding_admin_example :
    0 < active_admin_count (complete_onboarding platform new_installation form).0 none
unfolding complete_onboarding complete_claimed claim_open_onboarding get_setting_value
    lookup_setting validate_new_user normalize_username matches_username_pattern find_username strip
    lower account_required
complete_onboarding_admin_example = complete_onboarding_admin platform new_installation form refl
