-- ===== src/Database/Settings.antt =====
-- What reading a setting returns after a write.
use open_sec_dash.Prelude.{String, ◌≡◌, List, [], ◌∷◌, arith, ◌==◌, string_eq, if◌then◌else◌, some}
use text.Mathlib.TextEquality.{eq_iff}
use open_sec_dash.Database.{
  Database, lookup_setting, write_setting, get_setting_value, save_setting,
}

lookup-write_setting :
    (key k value : String) (rows : List (String × String))
    → lookup_setting k (write_setting key value rows)
      ≡ (if key == k then some value else lookup_setting k rows)
unfolding lookup_setting write_setting
lookup-write_setting key k value [] = ground arith
lookup-write_setting key k value ((j, v) ∷ rows) =
    ground (arith, eq_iff key k, eq_iff j k, eq_iff j key, lookup-write_setting key k value rows)

-- A written key reads back as its new value, every other key as before.
pub get-save_setting :
    (db : Database) (key k value default : String)
    → get_setting_value (save_setting db key value) k default
      ≡ (if key == k then value else get_setting_value db k default)
unfolding get_setting_value save_setting
get-save_setting db key k value default =
    ground (arith, lookup-write_setting key k value db.settings)
