-- ===== src/Preferences/Laws.antt =====
-- Every preference that is ever displayed is one that the program allows.
use open_sec_dash.Prelude.{
  ℕ, String, ◌≡◌, refl, true, Bool-cases, inl, inr, Option, none, some, List, string_eq, contains,
}
use open_sec_dash.Database.{Database, UserPreference}
use open_sec_dash.Preferences.{
  Preferences, Values, switch_values, available_languages, theme_values, accent_color_values,
  normalized, normalize_preferences, global_preferences, stored_preferences, effective_preferences,
  value_or,
}

pub record IsAllowed (p : Preferences) : Type 0 where
  pub language : contains p.language available_languages ≡ true
  pub live_default : contains p.live_default switch_values ≡ true
  pub theme : contains p.theme theme_values ≡ true
  pub accent_color : contains p.accent_color accent_color_values ≡ true
  pub live_page_refresh : contains p.live_page_refresh switch_values ≡ true

contains-normalized :
    (allowed : List String) (v : Option String) (d : String)
    → contains d allowed ≡ true
    → contains (normalized allowed v d) allowed ≡ true
unfolding normalized
contains-normalized allowed v d h = elim (Bool-cases (contains (value_or v d) allowed)) [
  | inl e ↦ rw e e
  | inr e ↦ rw e h
]

normalized_of_contains :
    (allowed : List String) (v d : String)
    → contains v allowed ≡ true
    → normalized allowed (some v) d ≡ v
unfolding normalized value_or
normalized_of_contains allowed v d h = rw h

normalize_preferences-IsAllowed : (v : Values) → IsAllowed (normalize_preferences v)
unfolding normalize_preferences
normalize_preferences-IsAllowed v = record {
  language = contains-normalized available_languages v.language "en" refl;
  live_default = contains-normalized switch_values v.live_default "true" refl;
  theme = contains-normalized theme_values v.theme "auto" refl;
  accent_color = contains-normalized accent_color_values v.accent_color "blue" refl;
  live_page_refresh = contains-normalized switch_values v.live_page_refresh "true" refl;
}

abbrev pub as_values : Preferences → Values
as_values p = record {
  language = some p.language;
  live_default = some p.live_default;
  theme = some p.theme;
  accent_color = some p.accent_color;
  live_page_refresh = some p.live_page_refresh;
}

-- Allowed preferences are left as they are, so that the account page can compare what was
-- submitted with what it normalizes to.
pub normalize_preferences_fixed :
    (p : Preferences) → IsAllowed p → normalize_preferences (as_values p) ≡ p
unfolding normalize_preferences
normalize_preferences_fixed p h = λ i. record {
  language = normalized_of_contains available_languages p.language "en" h.language i;
  live_default = normalized_of_contains switch_values p.live_default "true" h.live_default i;
  theme = normalized_of_contains theme_values p.theme "auto" h.theme i;
  accent_color = normalized_of_contains accent_color_values p.accent_color "blue" h.accent_color i;
  live_page_refresh =
      normalized_of_contains switch_values p.live_page_refresh "true" h.live_page_refresh i;
}

stored_preferences-IsAllowed :
    (db : Database) (row : Option UserPreference) → IsAllowed (stored_preferences db row)
unfolding stored_preferences global_preferences
stored_preferences-IsAllowed db none = normalize_preferences-IsAllowed _
stored_preferences-IsAllowed db (some p) = normalize_preferences-IsAllowed _

-- Whatever the settings and the preference rows hold, a page is displayed with allowed values.
pub effective_preferences-IsAllowed :
    (db : Database) (user : Option ℕ) → IsAllowed (effective_preferences db user)
unfolding effective_preferences global_preferences
effective_preferences-IsAllowed db none = normalize_preferences-IsAllowed _
effective_preferences-IsAllowed db (some user_id) = stored_preferences-IsAllowed db _
