-- ===== src/Database.antt =====
-- The tables of backend/app/models/users.py, backend/app/models/settings.py and
-- backend/app/models/saved_views.py that sign-in works on, and the reading and writing of settings
-- (backend/app/core/template_context.py, backend/app/services/settings.py).
--
-- A table is the list of its rows in the order of their ids. Times are numbers of seconds. The
-- columns `created_at` and `updated_at`, which no modelled code reads, are left out. A secret
-- setting is kept as the value that `decrypt_setting_value` returns for it.
pub mod Settings
use open_sec_dash.Prelude.{
  ℕ, String, Bool, Option, none, some, List, [], ◌∷◌, ◌==◌, string_eq, if◌then◌else◌,
}
use open_sec_dash.Prelude.Text.{Text}

pub record User : Type 0 where
  pub id : ℕ
  pub username : Text
  pub password_hash : Option String
  pub role : String
  pub is_active : Bool
  pub last_login_at : Option ℕ

pub record UserSession : Type 0 where
  pub token_hash : String
  pub user_id : ℕ
  pub expires_at : ℕ
  pub auth_method : String

pub record ExternalIdentity : Type 0 where
  pub user_id : ℕ
  pub provider : String
  pub issuer : String
  pub subject : String
  pub last_login_at : Option ℕ

pub record UserPreference : Type 0 where
  pub user_id : ℕ
  pub language : String
  pub live_default : String
  pub theme : String
  pub accent_color : String
  pub live_page_refresh : String

-- `filter_json` and `query_json` are the serialized columns.
pub record SavedView : Type 0 where
  pub user_id : Option ℕ
  pub name : String
  pub scope : String
  pub filter_json : String
  pub query_json : Option String

pub record Database : Type 0 where
  pub users : List User
  pub sessions : List UserSession
  pub identities : List ExternalIdentity
  pub preferences : List UserPreference
  pub saved_views : List SavedView
  pub settings : List (String × String)

-- The value of a key in the settings table.
unfoldable pub lookup_setting : String → List (String × String) → Option String
lookup_setting key [] = none
lookup_setting key ((k, v) ∷ rows) = if k == key then some v else lookup_setting key rows

-- The row of the key is updated, or a new row is added.
unfoldable pub write_setting : String → String → List (String × String) → List (String × String)
write_setting key value [] = (key, value) ∷ []
write_setting key value ((k, v) ∷ rows) =
    if k == key then (key, value) ∷ rows else (k, v) ∷ write_setting key value rows

or_default : Option String → String → String
or_default none d = d
or_default (some v) d = v

unfoldable pub get_setting_value : Database → String → String → String
unfolding or_default
get_setting_value db key default = or_default (lookup_setting key db.settings) default

unfoldable pub save_setting : Database → String → String → Database
save_setting db key value = record db { settings = write_setting key value db.settings }
