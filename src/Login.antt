-- ===== src/Login.antt =====
-- backend/app/api/auth.py: password sign-in with its backoff buckets and its bounded checks.
--
-- `digest` is the SHA-256 of a bucket's name, a zero and an identity. Times of `_monotonic` are
-- numbers of milliseconds. The ordered dictionary is the list of its entries, the oldest first.
pub mod Backoff
pub mod Buckets
pub mod Slots
pub mod SignIn
use open_sec_dash.Prelude.{
  ℕ, zero, suc, ◌+◌, ◌-◌, String, Bool, true, false, not, ◌&&◌, ◌||◌, Option, none, some, List, [],
  ◌∷◌, ◌++◌, ◌==◌, nat_eq, string_eq, ltb, leb, length, any, select, contains, is_some,
  if◌then◌else◌,
}
use open_sec_dash.Prelude.Text.{Text, codes}
use open_sec_dash.Prelude.Sums.{update}
use open_sec_dash.Database.{User, Database}
use open_sec_dash.Auth.{
  Platform, normalize_username, authenticate, auth_enabled, cleanup_expired_sessions,
  create_session,
}
use open_sec_dash.Oidc.{effective_password_login_enabled}

abbrev pub max_account_login_failures : ℕ
max_account_login_failures = 5

abbrev pub max_source_login_failures : ℕ
max_source_login_failures = 100

abbrev pub max_peer_login_failures : ℕ
max_peer_login_failures = 200

abbrev pub login_lock : ℕ
login_lock = 1000

abbrev pub login_backoff_ttl : ℕ
login_backoff_ttl = 300000

abbrev pub max_login_backoff_entries : ℕ
max_login_backoff_entries = 4096

abbrev pub scrypt_max_concurrency : ℕ
scrypt_max_concurrency = 5

-- (failures, locked_until, last_seen)
pub record Attempt : Type 0 where
  pub failures : ℕ
  pub locked_until : ℕ
  pub last_seen : ℕ

abbrev pub Backoff : Type 0
Backoff = List (String × Attempt)

-- The module's state: `_LOGIN_BACKOFF`, `_ACTIVE_ACCOUNT_CHECKS` and the free slots of
-- `_PASSWORD_CHECK_SLOTS`.
pub record Throttle : Type 0 where
  pub backoff : Backoff
  pub active_account_checks : List String
  pub password_check_slots : ℕ

-- dict.get
unfoldable pub get_attempt : String → Backoff → Option Attempt
get_attempt key [] = none
get_attempt key ((k, attempt) ∷ entries) =
    if k == key then some attempt else get_attempt key entries

-- dict.pop
unfoldable pub pop_attempt : String → Backoff → Backoff
pop_attempt key [] = []
pop_attempt key ((k, attempt) ∷ entries) =
    let rest = pop_attempt key entries in if k == key then rest else (k, attempt) ∷ rest

-- Assignment, and `move_to_end`.
unfoldable pub put_last : String → Attempt → Backoff → Backoff
put_last key attempt entries = pop_attempt key entries ++ (key, attempt) ∷ []

-- The oldest entries are dropped while they are out of date.
unfoldable pub drop_expired : ℕ → Backoff → Backoff
drop_expired now [] = []
drop_expired now ((k, attempt) ∷ entries) =
    let rest = drop_expired now entries in
    if ltb now (attempt.last_seen + login_backoff_ttl) then (k, attempt) ∷ entries else rest

-- The oldest entries are dropped while there are too many.
unfoldable pub drop_excess : Backoff → Backoff
drop_excess [] = []
drop_excess (entry ∷ entries) =
    let rest = drop_excess entries in
    if ltb max_login_backoff_entries (length (entry ∷ entries)) then rest else entry ∷ entries

abbrev pub or_no_attempt : Option Attempt → Attempt
or_no_attempt none = record { failures = 0; locked_until = 0; last_seen = 0 }
or_no_attempt (some attempt) = attempt

-- The entry that a failure makes of the one before.
abbrev pub failed_again : ℕ → ℕ → Attempt → Attempt
failed_again now threshold attempt = record {
  failures = attempt.failures + 1;
  locked_until = if leb threshold (attempt.failures + 1) then now + login_lock else 0;
  last_seen = now;
}

unfoldable pub record_failures : ℕ → List (String × ℕ) → Backoff → Backoff
record_failures now [] backoff = backoff
record_failures now ((key, threshold) ∷ buckets) backoff =
    record_failures now buckets
      (put_last key (failed_again now threshold (or_no_attempt (get_attempt key backoff))) backoff)

abbrev is_locked : ℕ → Option Attempt → Bool
is_locked now none = false
is_locked now (some attempt) = ltb now attempt.locked_until

unfoldable pub keys_locked : ℕ → List (String × ℕ) → Backoff → Bool
keys_locked now [] backoff = false
keys_locked now ((key, threshold) ∷ buckets) backoff =
    is_locked now (get_attempt key backoff) || keys_locked now buckets backoff

unfoldable pub discard : String → List String → List String
discard key = select (λ k. not (k == key))

-- `_PASSWORD_CHECK_SLOTS.acquire(blocking=False)`: `none` where every slot is taken.
unfoldable pub acquire_slot : Throttle → Option Throttle
acquire_slot throttle =
    if throttle.password_check_slots == 0
    then none
    else some (record throttle { password_check_slots = throttle.password_check_slots - 1 })

-- `_PASSWORD_CHECK_SLOTS.release()` raises ValueError where no slot is taken: `none`.
unfoldable pub release_slot : Throttle → Option Throttle
release_slot throttle =
    if ltb throttle.password_check_slots scrypt_max_concurrency
    then some (record throttle { password_check_slots = throttle.password_check_slots + 1 })
    else none

-- What is done under the lock: the account is looked up and, where it is new, added.
unfoldable pub reserve_account : Throttle → String → Option Throttle
reserve_account throttle key =
    if contains key throttle.active_account_checks
    then none
    else some (record throttle { active_account_checks = key ∷ throttle.active_account_checks })

unfoldable pub discard_account : Throttle → String → Throttle
unfolding discard
discard_account throttle key = record throttle {
  active_account_checks = discard key throttle.active_account_checks;
}

abbrev or_throttle : Throttle → Option Throttle → Throttle
or_throttle throttle none = throttle
or_throttle throttle (some throttle') = throttle'

-- The whole of a reservation and of its return, where no other request comes between their steps.
unfoldable pub begin_password_check : Throttle → String → Throttle × Bool
unfolding acquire_slot release_slot reserve_account
begin_password_check throttle key = elim (acquire_slot throttle) [
  | none ↦ (throttle, false)
  | some acquired ↦ (elim (reserve_account acquired key) [
    | none ↦ (or_throttle acquired (release_slot acquired), false)
    | some reserved ↦ (reserved, true)
  ])
]

unfoldable pub end_password_check : Throttle → String → Option Throttle
unfolding release_slot discard_account
end_password_check throttle key = release_slot (discard_account throttle key)

module _ (digest : Text → String) where
  unfoldable pub login_backoff_key : String → Text → String
  login_backoff_key bucket identity = digest (codes bucket ++ 0 ∷ identity)

  unfoldable pub account_backoff_key : Text → String
  account_backoff_key username = login_backoff_key "account" (normalize_username username)

  abbrev bucket_of : String → ℕ → Option Text → List (String × ℕ)
  bucket_of bucket threshold none = []
  bucket_of bucket threshold (some identity) = (login_backoff_key bucket identity, threshold) ∷ []

  unfoldable pub flood_buckets : Option Text → Option Text → List (String × ℕ)
  flood_buckets source_id peer_id =
      bucket_of "source" max_source_login_failures source_id
      ++ bucket_of "peer" max_peer_login_failures peer_id

  unfoldable pub all_buckets : Text → Option Text → Option Text → List (String × ℕ)
  all_buckets username source_id peer_id =
      (account_backoff_key username, max_account_login_failures) ∷ flood_buckets source_id peer_id

  unfoldable pub login_locked : ℕ → Text → Option Text → Option Text → Backoff → Bool
  login_locked now username source_id peer_id backoff =
      keys_locked now (all_buckets username source_id peer_id) backoff

  unfoldable pub record_failed_login : ℕ → Text → Option Text → Option Text → Backoff → Backoff
  record_failed_login now username source_id peer_id backoff =
      drop_excess
        (record_failures now (all_buckets username source_id peer_id) (drop_expired now backoff))

-- What a request is answered with: a redirect, a sign-in with a new session, or the form again with
-- a status and a message.
pub data LoginReply : Type 0 where
  to_start : LoginReply
  signed_in : User → LoginReply
  form_again : ℕ → String → LoginReply

pub record LoginRequest : Type 0 where
  pub username : Text
  pub password : Text
  pub source_id : Option Text
  pub peer_id : Option Text
  -- the clocks of the backoff and of the sessions, the drawn token and salt
  pub monotonic : ℕ
  pub now : ℕ
  pub token : String
  pub salt : String
  -- OSD_AUTH_DISABLED
  pub environment : Text

abbrev pub throttled : LoginReply
throttled = form_again 429 "auth.login_locked"

pub record Server : Type 0 where
  pub throttle : Throttle
  pub db : Database

unfoldable pub set_last_login : Database → ℕ → ℕ → Database
set_last_login db user_id now = record db {
  users = update (λ u. u.id) user_id (λ u. record u { last_login_at = some now }) db.users;
}

abbrev or_database : Database → Option Database → Database
or_database db none = db
or_database db (some db') = db'

module _ (platform : Platform) (digest : Text → String) where
  -- What follows the check of the password. "password" is a supported method, so `create_session`
  -- does not raise.
  unfoldable pub after_check : Server → LoginRequest → Option User → Server × LoginReply
  after_check server request none = (
    record server {
      throttle = record server.throttle {
        backoff =
            record_failed_login digest request.monotonic request.username request.source_id
              request.peer_id server.throttle.backoff;
      };
    },
    form_again 401 "auth.login_failed",
  )
  after_check server request (some user) =
      let db =
        set_last_login (cleanup_expired_sessions server.db request.now) user.id request.now in
      (
        record {
          throttle = record server.throttle {
            backoff =
                pop_attempt (account_backoff_key digest request.username) server.throttle.backoff;
          };
          db =
              or_database db (create_session platform db user "password" request.token request.now);
        },
        signed_in user,
      )

  -- The check, with its reservation and its release.
  unfoldable pub checked_login : Server → LoginRequest → Server × LoginReply
  checked_login server request =
      let key = account_backoff_key digest request.username in
      let (throttle, reserved) = begin_password_check server.throttle key in
      let (db, user) =
        authenticate platform server.db request.username request.password request.salt in
      let released = or_throttle throttle (end_password_check throttle key) in
      if reserved
      then after_check (record { throttle = released; db = db }) request user
      else (server, throttled)

  unfoldable pub login : Server → LoginRequest → Server × LoginReply
  login server request =
      if not (auth_enabled server.db request.environment)
      then (server, to_start)
      else if not (effective_password_login_enabled server.db)
      then (server, form_again 403 "auth.password_login_disabled")
      else if login_locked digest request.monotonic request.username request.source_id
          request.peer_id server.throttle.backoff
      then (server, throttled)
      else checked_login server request
