-- ===== src/Examples/SignIn.antt =====
-- Guesses at an account, checks that interleave, and a sign-in.
use open_sec_dash.Prelude.{
  ℕ, ◌≤◌, ◌≡◌, refl, String, true, none, some, [], ◌∷◌, ◌==◌, nat_eq, arith, length, if◌then◌else◌,
}
use open_sec_dash.Prelude.Text.{Text, codes, strip, lower}
use open_sec_dash.Prelude.Sums.{sum_by}
use open_sec_dash.Database.{get_setting_value, lookup_setting}
use open_sec_dash.Auth.{
  normalize_username, find_username, authenticate, check_user, auth_enabled,
  auth_disabled_by_environment,
}
use open_sec_dash.Auth.Admins.{IsKeyed}
use open_sec_dash.Oidc.{
  load_config, oidc_login_available, password_login_enabled, effective_password_login_enabled,
}
use open_sec_dash.Login.{
  Throttle, Server, LoginRequest, login_backoff_key, account_backoff_key, login_locked, login,
  record_failed_login, begin_password_check, acquire_slot, reserve_account, discard_account,
  discard, all_buckets, flood_buckets, keys_locked, get_attempt, checked_login, after_check,
}
use open_sec_dash.Login.Buckets.{
  AccountsApart, Guess, guess_all, guess_all-login_locked, length-record_failed_login,
}
use open_sec_dash.Login.Slots.{
  Checks, acquired, leaving, Reach, acquire, reserve, finish, here, next, IsAccounted,
  Reach-IsAccounted, MovesOn, Reach-MovesOn,
}
use open_sec_dash.Login.SignIn.{Resolves, login-Resolves}
use open_sec_dash.Examples.{installation, platform, alice}

-- A digest that tells the buckets apart.
abbrev first_letter : Text → String
first_letter [] = ""
first_letter (c ∷ s) = if c == b'a' then "account" else "address"

first_letter-AccountsApart : AccountsApart first_letter
unfolding login_backoff_key account_backoff_key
first_letter-AccountsApart = record {
  from_source = λ username source. refl;
  from_peer = λ username peer. refl;
}

abbrev guess : ℕ → Guess
guess time = record { time = time; source_id = some (codes "192.0.2.1"); peer_id = none }

guess_all-login_locked_example :
    login_locked first_letter 5999 (codes "alice") none none (
      guess_all first_letter
        (codes "alice")
        (guess 1000 ∷ guess 2000 ∷ guess 3000 ∷ guess 4000 ∷ guess 5000 ∷ [])
        [])
    ≡ true
guess_all-login_locked_example =
    guess_all-login_locked first_letter (codes "alice") (guess 1000)
      (guess 2000 ∷ guess 3000 ∷ guess 4000 ∷ guess 5000 ∷ []) [] 5999 none none
      first_letter-AccountsApart refl (omega arith) (omega arith)

length-record_failed_login_example :
    length (record_failed_login first_letter 1000 (codes "alice") none none []) ≤ 4096
length-record_failed_login_example =
    length-record_failed_login first_letter 1000 (codes "alice") none none []

abbrev idle : Throttle
idle = record { backoff = []; active_account_checks = []; password_check_slots = 5 }

abbrev nobody : Checks
nobody = record { throttle = idle; requests = [] }

nobody-IsAccounted : IsAccounted nobody
unfolding sum_by
nobody-IsAccounted = record { slots = refl; active = λ key. refl; single = λ key. omega arith }

-- Two requests take slots before the first looks at the set; "a" has left it and still holds a slot.
abbrev busy : Checks
busy = record {
  throttle = record idle { password_check_slots = 3 };
  requests = acquired "b" ∷ leaving ∷ [];
}

nobody-busy : Reach nobody busy
unfolding acquire_slot reserve_account discard_account discard
nobody-busy =
    next
      (next (next (next here (acquire "a" _ refl)) (acquire "b" _ refl))
        (reserve (acquired "b" ∷ []) [] "a" _ refl refl))
      (finish (acquired "b" ∷ []) [] "a" refl)

Reach-IsAccounted_example : IsAccounted busy
Reach-IsAccounted_example = Reach-IsAccounted nobody-IsAccounted nobody-busy

Reach-MovesOn_example : MovesOn busy (acquired "b" ∷ []) leaving []
Reach-MovesOn_example =
    Reach-MovesOn (acquired "b" ∷ []) [] leaving nobody-IsAccounted nobody-busy refl

abbrev server : Server
server = record {
  throttle = idle;
  db = record installation { settings = ("auth.enabled", "true") ∷ [] };
}

abbrev request : LoginRequest
request = record {
  username = codes " Alice ";
  password = codes "correct horse";
  source_id = none;
  peer_id = none;
  monotonic = 0;
  now = 10;
  token = "t";
  salt = "s";
  environment = [];
}

server-IsKeyed : IsKeyed server.db
unfolding sum_by
server-IsKeyed = record { user_ids = λ k. ground arith; user_links = λ k provider. ground arith }

login-Resolves_example :
    Resolves platform (login platform first_letter server request).0.db request alice 20
unfolding login auth_enabled auth_disabled_by_environment get_setting_value lookup_setting lower
    strip effective_password_login_enabled oidc_login_available load_config password_login_enabled
    login_locked all_buckets flood_buckets keys_locked get_attempt checked_login
    begin_password_check authenticate find_username normalize_username check_user after_check
login-Resolves_example =
    login-Resolves platform first_letter server request alice 20 server-IsKeyed refl refl
