-- ===== src/Login/SignIn.antt =====
-- What a sign-in by password leads to.
use open_sec_dash.Prelude.{
  ℕ, ◌+◌, ◌≤◌, ◌≡◌, ◌≢◌, refl, String, Bool, true, false, not, ◌||◌, Option, none, some, List, [],
  ◌∷◌, ◌==◌, nat_eq, string_eq, ltb, select, first, is_some, if◌then◌else◌, arith, subst,
  Bool-cases, inl, inr,
}
use open_sec_dash.Prelude.Text.{Text, text_eq}
use open_sec_dash.Prelude.Sums.{count, sum_by, find, update}
use open_sec_dash.Database.{User, UserSession, Database}
use open_sec_dash.Auth.{
  Platform, session_lifetime, find_username, authenticate, check_user, set_password_hash,
  create_session, cleanup_expired_sessions, resolve_session_with_method, auth_enabled,
}
use open_sec_dash.Auth.Admins.{IsKeyed}
use open_sec_dash.Auth.Sessions.{resolve_session-create_session}
use open_sec_dash.Oidc.{effective_password_login_enabled}
use open_sec_dash.Login.{
  Server, LoginRequest, LoginReply, signed_in, throttled, to_start, form_again, set_last_login,
  after_check, checked_login, login, begin_password_check, login_locked, account_backoff_key,
}

count-first :
    (p : User → Bool) (users : List User) (user : User)
    → first p users ≡ some user
    → 1 ≤ count (λ u. u.id == user.id) users
unfolding sum_by
count-first p [] user h = absurd (ground arith)
count-first p (u ∷ users) user h = ground (arith, count-first p users user)

-- Where ids are unique, a row that a query finds is the row with its id.
find-first :
    (p : User → Bool) (users : List User) (user : User)
    → first p users ≡ some user
    → count (λ u. u.id == user.id) users ≤ 1
    → find (λ u. u.id) user.id users ≡ some user
unfolding sum_by
find-first p [] user h single = absurd (ground arith)
find-first p (u ∷ users) user h single =
    ground (arith, find-first p users user, count-first p users user)

find-update :
    (f : User → User) (k : ℕ) (users : List User) (user : User)
    → ((u : User) → (f u).id ≡ u.id)
    → find (λ u. u.id) k users ≡ some user
    → find (λ u. u.id) k (update (λ u. u.id) k f users) ≡ some (f user)
find-update f k [] user keeps h = absurd (ground arith)
find-update f k (u ∷ users) user keeps h = ground (arith, keeps u, find-update f k users user keeps)

first-select-none :
    (p q : UserSession → Bool) (rows : List UserSession)
    → first p rows ≡ none
    → first p (select q rows) ≡ none
first-select-none p q [] h = refl
first-select-none p q (r ∷ rows) h = ground (arith, first-select-none p q rows)

-- The user that a check of a password returns: stored in the new database, and active.
record IsStored (db : Database) (user : User) (sessions : List UserSession) : Type 0 where
  stored : find (λ u. u.id) user.id db.users ≡ some user
  active : user.is_active ≡ true
  same_sessions : db.sessions ≡ sessions

record IsSound (sessions : List UserSession) (r : Database × Option User) : Type 0 where
  sound : (user : User) → r.1 ≡ some user → IsStored r.0 user sessions

nobody-IsSound : (db : Database) → IsSound db.sessions (db, none)
nobody-IsSound db = record { sound = λ user h. absurd (ground arith) }

else-IsSound :
    (sessions : List UserSession) (b : Bool) (x y : Database × Option User)
    → IsSound sessions x
    → (b ≡ false → IsSound sessions y)
    → IsSound sessions (if b then x else y)
else-IsSound sessions true x y hx hy = hx
else-IsSound sessions false x y hx hy = hy refl

stored-IsSound :
    (db : Database) (u : User)
    → find (λ u. u.id) u.id db.users ≡ some u
    → u.is_active ≡ true
    → IsSound db.sessions (db, some u)
stored-IsSound db u own active = record {
  sound = λ user h.
      let same : u ≡ user = ground arith in
      subst (λ x. IsStored db x db.sessions) same
        (record { stored = own; active = active; same_sessions = refl });
}

module _ (platform : Platform) where
  rehashed-IsSound :
      (db : Database) (u : User) (hash : String)
      → find (λ u. u.id) u.id db.users ≡ some u
      → u.is_active ≡ true
      → IsSound db.sessions
          (set_password_hash db u.id hash, some (record u { password_hash = some hash }))
  unfolding set_password_hash
  rehashed-IsSound db u hash own active =
      let f : User → User = λ u. record u { password_hash = some hash } in
      stored-IsSound (record db { users = update (λ u. u.id) u.id f db.users }) (f u)
        (find-update f u.id db.users u (λ u. refl) own) active

  check_user-IsSound :
      (db : Database) (password : Text) (salt : String) (row : Option User)
      → ((u : User) → row ≡ some u → find (λ u. u.id) u.id db.users ≡ some u)
      → IsSound db.sessions (check_user platform db password salt row)
  unfolding check_user
  check_user-IsSound db password salt none own = nobody-IsSound db
  check_user-IsSound db password salt (some u) own =
      let hash = platform.hash_password salt password in
      let rehashed : Database × Option User =
        (set_password_hash db u.id hash, some (record u { password_hash = some hash })) in
      let verified =
        if platform.password_needs_rehash u.password_hash then rehashed else (db, some u) in
      else-IsSound db.sessions (not u.is_active || not (is_some u.password_hash)) (db, none)
        (if not (platform.verify_password password u.password_hash) then (db, none) else verified)
        (nobody-IsSound db)
        λ usable.
          let active : u.is_active ≡ true = ground arith in
          else-IsSound db.sessions _ (db, none) verified (nobody-IsSound db)
            λ correct.
              else-IsSound db.sessions _ rehashed (db, some u)
                (rehashed-IsSound db u hash (own u refl) active)
                λ current. stored-IsSound db u (own u refl) active

  authenticate-IsSound :
      (db : Database) (username password : Text) (salt : String)
      → IsKeyed db
      → IsSound db.sessions (authenticate platform db username password salt)
  unfolding authenticate find_username
  authenticate-IsSound db username password salt keyed =
      check_user-IsSound db password salt _
        λ u found. find-first _ db.users u found (keyed.user_ids u.id)

  -- The row of a user after the sign-in.
  abbrev pub signed_in_row : User → ℕ → User
  signed_in_row user now = record user { last_login_at = some now }

  unfoldable pub Resolves : Database → LoginRequest → User → ℕ → Type 0
  Resolves db request user later =
      (resolve_session_with_method platform db request.token later).1 ≡ (
        if ltb later (request.now + session_lifetime)
        then some (signed_in_row user request.now, "password")
        else none)

  module _ (digest : Text → String) where
    after_check-Resolves :
        (server : Server) (request : LoginRequest) (sessions : List UserSession) (user : User)
        (later : ℕ)
        → first (λ s. s.token_hash == platform.sha256 request.token) sessions ≡ none
        → IsStored server.db user sessions
        → Resolves (after_check platform digest server request (some user)).0.db request user later
    unfolding after_check Resolves create_session set_last_login cleanup_expired_sessions
    after_check-Resolves server request sessions user later fresh stored =
        let row = signed_in_row user request.now in
        let db1 =
          set_last_login (cleanup_expired_sessions server.db request.now) user.id request.now in
        resolve_session-create_session platform db1
          (after_check platform digest server request (some user)).0.db row "password" request.token
          request.now later
          (first-select-none _ _ server.db.sessions (rw (stored.same_sessions) fresh))
          (find-update (λ u. record u { last_login_at = some request.now }) user.id server.db.users
            user (λ u. refl) stored.stored)
          stored.active refl

    failed_check :
        {R : Type 0} (server : Server) (request : LoginRequest) (user : User)
        → (after_check platform digest server request none).1 ≡ signed_in user
        → R
    unfolding after_check
    failed_check server request user h = absurd (ground arith)

    signed_user :
        (server : Server) (request : LoginRequest) (u user : User)
        → (after_check platform digest server request (some u)).1 ≡ signed_in user
        → u ≡ user
    unfolding after_check
    signed_user server request u user h = ground arith

    -- A result that is a sign-in leads to a session.
    record IsLeading (request : LoginRequest) (later : ℕ) (r : Server × LoginReply) : Type 0 where
      leads : (user : User) → r.1 ≡ signed_in user → Resolves r.0.db request user later

    else-IsLeading :
        (request : LoginRequest) (later : ℕ) (b : Bool) (x y : Server × LoginReply)
        → ((user : User) → x.1 ≢ signed_in user)
        → IsLeading request later y
        → IsLeading request later (if b then x else y)
    else-IsLeading request later true x y refuses hy = record {
      leads = λ user h. absurd (refuses user h);
    }
    else-IsLeading request later false x y refuses hy = hy

    after_check-IsLeading :
        (server : Server) (request : LoginRequest) (sessions : List UserSession) (later : ℕ)
        (o : Option User)
        → first (λ s. s.token_hash == platform.sha256 request.token) sessions ≡ none
        → ((user : User) → o ≡ some user → IsStored server.db user sessions)
        → IsLeading request later (after_check platform digest server request o)
    after_check-IsLeading server request sessions later none fresh stored = record {
      leads = λ user h. failed_check server request user h;
    }
    after_check-IsLeading server request sessions later (some u) fresh stored = record {
      leads = λ user h.
          subst
            (λ x.
              Resolves (after_check platform digest server request (some u)).0.db request x later)
            (signed_user server request u user h)
            (after_check-Resolves server request sessions u later fresh (stored u refl));
    }

    login-IsLeading :
        (server : Server) (request : LoginRequest) (later : ℕ)
        → IsKeyed server.db
        → first (λ s. s.token_hash == platform.sha256 request.token) server.db.sessions ≡ none
        → IsLeading request later (login platform digest server request)
    unfolding login checked_login
    login-IsLeading server request later keyed fresh =
        let sound =
          authenticate-IsSound server.db request.username request.password request.salt keyed in
        let start : Server × LoginReply = (server, to_start) in
        let wrong_door : Server × LoginReply =
          (server, form_again 403 "auth.password_login_disabled") in
        let wait : Server × LoginReply = (server, throttled) in
        let checked = checked_login platform digest server request in
        let is_locked =
          login_locked digest request.monotonic request.username request.source_id request.peer_id
            server.throttle.backoff in
        let open_door = if is_locked then wait else checked in
        let by_oidc = not (effective_password_login_enabled server.db) in
        else-IsLeading request later (not (auth_enabled server.db request.environment)) start
          (if by_oidc then wrong_door else open_door) (λ user h. cc)
          (else-IsLeading request later by_oidc wrong_door open_door (λ user h. cc)
            (else-IsLeading request later is_locked wait checked (λ user h. cc)
              (elim (Bool-cases
                (begin_password_check server.throttle
                  (account_backoff_key digest request.username)).1) [
                    | inl e ↦ rw e (
                        after_check-IsLeading _ request server.db.sessions later _ fresh
                          (λ user h. sound.sound user h))
                    | inr e ↦ rw e (record { leads = λ user h. absurd (ground arith) })
                  ])))

    -- Whoever signs in by password is stored and active, and the new token resolves to that user
    -- for thirty days, and to nobody from then on, where ids are unique and the token's hash is
    -- new.
    pub login-Resolves :
        (server : Server) (request : LoginRequest) (user : User) (later : ℕ)
        → IsKeyed server.db
        → first (λ s. s.token_hash == platform.sha256 request.token) server.db.sessions ≡ none
        → (login platform digest server request).1 ≡ signed_in user
        → Resolves (login platform digest server request).0.db request user later
    login-Resolves server request user later keyed fresh h =
        (login-IsLeading server request later keyed fresh).leads user h
