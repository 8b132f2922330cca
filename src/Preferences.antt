-- ===== src/Preferences.antt =====
-- backend/app/services/user_preferences.py: the display preferences of a user and the global
-- defaults in the settings, with the languages of backend/app/core/i18n.py.
--
-- The five preferences, a dict with fixed keys in the source, are a record; a key that is missing
-- from a dict is `none`.
pub mod Laws
use open_sec_dash.Prelude.{
  ℕ, String, Bool, true, Option, none, some, List, [], ◌∷◌, ◌++◌, ◌==◌, string_eq, nat_eq, contains,
  first, if◌then◌else◌,
}
use open_sec_dash.Database.{Database, UserPreference, lookup_setting}

pub record Preferences : Type 0 where
  pub language : String
  pub live_default : String
  pub theme : String
  pub accent_color : String
  pub live_page_refresh : String

-- A mapping that may lack some of the keys.
pub record Values : Type 0 where
  pub language : Option String
  pub live_default : Option String
  pub theme : Option String
  pub accent_color : Option String
  pub live_page_refresh : Option String

abbrev pub preference_defaults : Preferences
preference_defaults = record {
  language = "en";
  live_default = "true";
  theme = "auto";
  accent_color = "blue";
  live_page_refresh = "true";
}

-- The codes of the registered locales, sorted.
abbrev pub available_languages : List String
available_languages = "de" ∷ "en" ∷ []

abbrev pub switch_values : List String
switch_values = "true" ∷ "false" ∷ []

abbrev pub theme_values : List String
theme_values = "auto" ∷ "dark" ∷ "light" ∷ []

abbrev pub accent_color_values : List String
accent_color_values = "blue" ∷ "green" ∷ "orange" ∷ "red" ∷ []

unfoldable pub value_or : Option String → String → String
value_or none d = d
value_or (some v) d = v

unfoldable pub normalized : List String → Option String → String → String
unfolding value_or
normalized allowed value default =
    if contains (value_or value default) allowed then value_or value default else default

unfoldable pub normalize_preferences : Values → Preferences
normalize_preferences v = record {
  language = normalized available_languages v.language preference_defaults.language;
  live_default = normalized switch_values v.live_default preference_defaults.live_default;
  theme = normalized theme_values v.theme preference_defaults.theme;
  accent_color = normalized accent_color_values v.accent_color preference_defaults.accent_color;
  live_page_refresh =
      normalized switch_values v.live_page_refresh preference_defaults.live_page_refresh;
}

unfoldable pub global_preferences : Database → Preferences
global_preferences db = normalize_preferences (record {
  language = lookup_setting "language" db.settings;
  live_default = lookup_setting "live_default" db.settings;
  theme = lookup_setting "theme" db.settings;
  accent_color = lookup_setting "instance_accent_color" db.settings;
  live_page_refresh = lookup_setting "live_page_refresh" db.settings;
})

unfoldable pub create_user_preferences : Database → ℕ → Database
create_user_preferences db user_id =
    let p = global_preferences db in
    record db {
      preferences =
          db.preferences
          ++ record {
            user_id = user_id;
            language = p.language;
            live_default = p.live_default;
            theme = p.theme;
            accent_color = p.accent_color;
            live_page_refresh = p.live_page_refresh;
          }
            ∷ [];
    }

unfoldable pub stored_preferences : Database → Option UserPreference → Preferences
stored_preferences db none = global_preferences db
stored_preferences db (some p) = normalize_preferences (record {
  language = some p.language;
  live_default = some p.live_default;
  theme = some p.theme;
  accent_color = some p.accent_color;
  live_page_refresh = some p.live_page_refresh;
})

-- The argument is the id of the signed-in user.
unfoldable pub effective_preferences : Database → Option ℕ → Preferences
effective_preferences db none = global_preferences db
effective_preferences db (some user_id) =
    stored_preferences db (first (λ p. p.user_id == user_id) db.preferences)
