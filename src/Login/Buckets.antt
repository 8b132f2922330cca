-- ===== src/Login/Buckets.antt =====
-- What the backoff buckets guarantee for an account that is being guessed at.
use open_sec_dash.Prelude.{
  ℕ, ◌+◌, ◌≤◌, ◌<◌, ◌≡◌, refl, String, Bool, true, false, ◌&&◌, Option, none, some, List, [], ◌∷◌,
  ◌==◌, string_eq, ltb, length, arith, beq_refl, not,
}
use open_sec_dash.Prelude.Text.{Text}
use open_sec_dash.Login.{
  Attempt, Backoff, get_attempt, put_last, drop_expired, failed_again, or_no_attempt,
  record_failures, keys_locked, login_lock, login_backoff_ttl, max_login_backoff_entries,
  max_account_login_failures, account_backoff_key, login_backoff_key, flood_buckets, all_buckets,
  login_locked, record_failed_login,
}
use open_sec_dash.Login.Backoff.{
  get-put_last, get-drop_expired, get-drop_excess, length-drop_excess, tail_length,
  tail_length-put_last, tail_length-put_last_self,
}

-- None of the buckets has the key.
abbrev pub lacks : String → List (String × ℕ) → Bool
lacks key [] = true
lacks key ((k, threshold) ∷ buckets) = not (k == key) && lacks key buckets

get-record_failures :
    (now : ℕ) (key : String) (buckets : List (String × ℕ)) (backoff : Backoff)
    → lacks key buckets ≡ true
    → get_attempt key (record_failures now buckets backoff) ≡ get_attempt key backoff
unfolding record_failures
get-record_failures now key [] backoff h = refl
get-record_failures now key ((k, threshold) ∷ buckets) backoff h =
    let attempt = failed_again now threshold (or_no_attempt (get_attempt k backoff)) in
    ground (
      arith,
      get-record_failures now key buckets (put_last k attempt backoff),
      get-put_last k key attempt backoff,
    )

tail_length-record_failures :
    (now : ℕ) (key : String) (buckets : List (String × ℕ)) (backoff : Backoff)
    → lacks key buckets ≡ true
    → tail_length key (record_failures now buckets backoff)
      ≤ tail_length key backoff + length buckets
unfolding record_failures
tail_length-record_failures now key [] backoff h = omega arith
tail_length-record_failures now key ((k, threshold) ∷ buckets) backoff h =
    let attempt = failed_again now threshold (or_no_attempt (get_attempt k backoff)) in
    ground (
      arith,
      tail_length-record_failures now key buckets (put_last k attempt backoff),
      tail_length-put_last k key attempt backoff,
    )

module _ (digest : Text → String) where
  -- No address has the key of an account: the digests of the buckets' names do not collide.
  pub record AccountsApart : Type 0 where
    pub from_source :
        (username source : Text)
        → (login_backoff_key digest "source" source == account_backoff_key digest username) ≡ false
    pub from_peer :
        (username peer : Text)
        → (login_backoff_key digest "peer" peer == account_backoff_key digest username) ≡ false

  lacks-flood_buckets :
      (username : Text) (source_id peer_id : Option Text)
      → AccountsApart
      → lacks (account_backoff_key digest username) (flood_buckets digest source_id peer_id) ≡ true
  unfolding flood_buckets
  lacks-flood_buckets username none none apart = refl
  lacks-flood_buckets username none (some peer) apart =
      ground (arith, apart.from_peer username peer)
  lacks-flood_buckets username (some source) none apart =
      ground (arith, apart.from_source username source)
  lacks-flood_buckets username (some source) (some peer) apart =
      ground (arith, apart.from_source username source, apart.from_peer username peer)

  length-flood_buckets :
      (source_id peer_id : Option Text) → length (flood_buckets digest source_id peer_id) ≤ 2
  unfolding flood_buckets
  length-flood_buckets none none = omega arith
  length-flood_buckets none (some peer) = omega arith
  length-flood_buckets (some source) none = omega arith
  length-flood_buckets (some source) (some peer) = omega arith

  -- A failed sign-in is counted for the account, whatever the addresses and the other entries are.
  pub get-record_failed_login :
      (now : ℕ) (username : Text) (source_id peer_id : Option Text) (backoff : Backoff)
      → AccountsApart
      → get_attempt
          (account_backoff_key digest username)
          (record_failed_login digest now username source_id peer_id backoff)
        ≡ some (
            failed_again now max_account_login_failures (
              or_no_attempt
                (get_attempt (account_backoff_key digest username) (drop_expired now backoff))))
  unfolding record_failed_login all_buckets record_failures
  get-record_failed_login now username source_id peer_id backoff apart =
      let key = account_backoff_key digest username in
      let fresh = drop_expired now backoff in
      let attempt =
        failed_again now max_account_login_failures (or_no_attempt (get_attempt key fresh)) in
      let flood = flood_buckets digest source_id peer_id in
      let own = put_last key attempt fresh in
      let others = lacks-flood_buckets username source_id peer_id apart in
      ground (
        arith,
        get-drop_excess key (record_failures now flood own),
        tail_length-record_failures now key flood own others,
        tail_length-put_last_self key attempt fresh,
        length-flood_buckets source_id peer_id,
        get-record_failures now key flood own others,
        get-put_last key key attempt fresh,
        beq_refl key,
      )

  -- However many sign-ins fail, the dictionary holds 4096 entries at most.
  pub length-record_failed_login :
      (now : ℕ) (username : Text) (source_id peer_id : Option Text) (backoff : Backoff)
      → length (record_failed_login digest now username source_id peer_id backoff)
        ≤ max_login_backoff_entries
  unfolding record_failed_login
  length-record_failed_login now username source_id peer_id backoff = length-drop_excess _

  -- A locked account is locked whatever the address of the request is.
  login_locked_of_account :
      (now : ℕ) (username : Text) (source_id peer_id : Option Text) (attempt : Attempt)
      (backoff : Backoff)
      → get_attempt (account_backoff_key digest username) backoff ≡ some attempt
      → now < attempt.locked_until
      → login_locked digest now username source_id peer_id backoff ≡ true
  unfolding login_locked all_buckets keys_locked
  login_locked_of_account now username source_id peer_id attempt backoff h locked = ground arith

-- A failed guess: its time, the client's address and the peer's.
pub record Guess : Type 0 where
  pub time : ℕ
  pub source_id : Option Text
  pub peer_id : Option Text

-- Each guess comes less than five minutes after the one before it.
abbrev pub in_a_row : ℕ → List Guess → Bool
in_a_row time [] = true
in_a_row time (guess ∷ guesses) =
    ltb guess.time (time + login_backoff_ttl) && in_a_row guess.time guesses

abbrev pub last_time : ℕ → List Guess → ℕ
last_time time [] = time
last_time time (guess ∷ guesses) = last_time guess.time guesses

module _ (digest : Text → String) (username : Text) where
  unfoldable pub guess_all : List Guess → Backoff → Backoff
  guess_all [] backoff = backoff
  guess_all (guess ∷ guesses) backoff =
      guess_all guesses
        (record_failed_login digest guess.time username guess.source_id guess.peer_id backoff)

  -- The account's entry counts at least so many failures, the last of them at the time, and it is
  -- locked from the fifth on.
  record Counted (count time : ℕ) (backoff : Backoff) : Type 0 where
    attempt : Attempt
    stored : get_attempt (account_backoff_key digest username) backoff ≡ some attempt
    failures : count ≤ attempt.failures
    last_seen : attempt.last_seen ≡ time
    locked : 5 ≤ attempt.failures → attempt.locked_until ≡ time + login_lock

  Counted-first :
      (guess : Guess) (backoff : Backoff)
      → AccountsApart digest
      → Counted 1 guess.time
          (record_failed_login digest guess.time username guess.source_id guess.peer_id backoff)
  Counted-first guess backoff apart = record {
    attempt = failed_again guess.time max_account_login_failures (
        or_no_attempt
          (get_attempt (account_backoff_key digest username) (drop_expired guess.time backoff)));
    stored =
        get-record_failed_login digest guess.time username guess.source_id guess.peer_id backoff
          apart;
    failures = omega arith;
    last_seen = refl;
    locked = λ h. ground arith;
  }

  Counted-next :
      (count time : ℕ) (guess : Guess) (backoff : Backoff)
      → AccountsApart digest
      → Counted count time backoff
      → guess.time < time + login_backoff_ttl
      → Counted
          (count + 1)
          guess.time
          (record_failed_login digest guess.time username guess.source_id guess.peer_id backoff)
  Counted-next count time guess backoff apart counted soon =
      let key = account_backoff_key digest username in
      let kept =
        get-drop_expired guess.time key counted.attempt backoff counted.stored
          (omega (arith, counted.last_seen)) in
      let stored =
        get-record_failed_login digest guess.time username guess.source_id guess.peer_id backoff
          apart in
      record {
        attempt = failed_again guess.time max_account_login_failures counted.attempt;
        stored = rw kept at stored;
        failures = omega (arith, counted.failures);
        last_seen = refl;
        locked = λ h. ground arith;
      }

  Counted-all :
      (total count time : ℕ) (guesses : List Guess) (backoff : Backoff)
      → AccountsApart digest
      → Counted count time backoff
      → in_a_row time guesses ≡ true
      → total ≤ count + length guesses
      → Counted total (last_time time guesses) (guess_all guesses backoff)
  unfolding guess_all
  Counted-all total count time [] backoff apart counted row h = record {
    attempt = counted.attempt;
    stored = counted.stored;
    failures = omega (arith, counted.failures);
    last_seen = counted.last_seen;
    locked = counted.locked;
  }
  Counted-all total count time (guess ∷ guesses) backoff apart counted row h =
      Counted-all total (count + 1) guess.time guesses _ apart
        (Counted-next count time guess backoff apart counted (ground arith)) (ground arith)
        (omega arith)

  -- Where the key of no address is that of an account, five or more failed guesses at one account in
  -- a row, each less than five minutes after the one before and from whatever addresses, lock the
  -- account for a second after the last of them, for requests from any address.
  pub guess_all-login_locked :
      (guess : Guess) (guesses : List Guess) (backoff : Backoff) (now : ℕ)
      (source_id peer_id : Option Text)
      → AccountsApart digest
      → in_a_row guess.time guesses ≡ true
      → 4 ≤ length guesses
      → now < last_time guess.time guesses + login_lock
      → login_locked digest now username source_id peer_id (guess_all (guess ∷ guesses) backoff)
        ≡ true
  unfolding guess_all
  guess_all-login_locked guess guesses backoff now source_id peer_id apart row many soon =
      let counted =
        Counted-all 5 1 guess.time guesses _ apart (Counted-first guess backoff apart) row
          (omega arith) in
      login_locked_of_account digest now username source_id peer_id counted.attempt _ counted.stored
        (ground (arith, counted.locked, counted.failures))
