-- ===== src/Examples/Sessions.antt =====
-- Sign-in, expiry and revocation at concrete sessions.
use open_sec_dash.Prelude.{ℕ, ◌≡◌, ◌≢◌, refl, some, none, [], ◌∷◌}
use open_sec_dash.Database.{UserSession, Database}
use open_sec_dash.Auth.{
  resolve_session_with_method, create_session, delete_session, delete_user_sessions,
  method_or_password,
}
use open_sec_dash.Auth.Sessions.{
  IsGenuine, resolve_session-IsGenuine, resolve_session-delete_user_sessions,
  resolve_session-delete_session, resolve_session-create_session,
}
use open_sec_dash.Examples.{installation, platform, alice, bob}

abbrev session : UserSession
session = record { token_hash = "t"; user_id = 1; expires_at = 100; auth_method = "password" }

abbrev signed_in : Database
signed_in = record installation { sessions = session ∷ [] }

resolve_session-IsGenuine_example : IsGenuine signed_in "t" 99 alice "password"
unfolding resolve_session_with_method method_or_password
resolve_session-IsGenuine_example =
    resolve_session-IsGenuine platform signed_in "t" 99 alice "password" refl

abbrev both_signed_in : Database
both_signed_in = record installation {
  sessions = session ∷ record session { token_hash = "u"; user_id = 2 } ∷ [];
}

resolve_session-delete_user_sessions_example : ◌≢◌ {A = ℕ} 2 1
unfolding resolve_session_with_method delete_user_sessions method_or_password
resolve_session-delete_user_sessions_example =
    resolve_session-delete_user_sessions platform both_signed_in 1 "u" 99 bob "password" refl

resolve_session-delete_session_example :
    (resolve_session_with_method platform (delete_session platform signed_in "t") "t" 99).1 ≡ none
resolve_session-delete_session_example = resolve_session-delete_session platform signed_in "t" 99

abbrev signed_in_at_ten : Database
signed_in_at_ten = record installation { sessions = record session { expires_at = 2592010 } ∷ [] }

resolve_session-create_session_example :
    (resolve_session_with_method platform signed_in_at_ten "t" 20).1 ≡ some (alice, "password")
unfolding create_session
resolve_session-create_session_example =
    resolve_session-create_session platform installation signed_in_at_ten alice "password" "t" 10 20
      refl refl refl refl
