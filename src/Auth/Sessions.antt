-- ===== src/Auth/Sessions.antt =====
-- Sessions: what a token resolves to after sign-in, expiry, logout and revocation.
use open_sec_dash.Prelude.{
  ℕ, ◌+◌, ◌<◌, ◌≡◌, ◌≢◌, ltb, refl, String, Bool, true, not, Option, none, some, List, [], ◌∷◌,
  ◌++◌, arith, ◌==◌, string_eq, nat_eq, leb, contains, select, first, if◌then◌else◌, Bool-cases,
  beq_refl, inl, inr,
}
use open_sec_dash.Prelude.Sums.{find, key-find, delete}
use open_sec_dash.Database.{User, UserSession, Database}
use open_sec_dash.Auth.{
  Platform, auth_methods, active_user, method_or_password, resolve_row, resolve_session_with_method,
  create_session, delete_session, delete_user_sessions, session_lifetime,
}

-- What makes a resolved session genuine: a stored row with the token's hash that has not expired,
-- and the active user that it names.
pub record IsGenuine (db : Database) (hash : String) (now : ℕ) (user : User) (method : String)
    : Type 0 where
  pub session : UserSession
  pub stored : first (λ s. s.token_hash == hash) db.sessions ≡ some session
  pub unexpired : now < session.expires_at
  pub owner : find (λ u. u.id) session.user_id db.users ≡ some user
  pub active : user.is_active ≡ true
  pub known_method : contains method auth_methods ≡ true

contains-method_or_password :
    (method : String) → contains (method_or_password method) auth_methods ≡ true
unfolding method_or_password
contains-method_or_password method = elim (Bool-cases (contains method auth_methods)) [
  | inl e ↦ rw e e
  | inr e ↦ rw e
]

active_user-IsGenuine :
    (db : Database) (hash : String) (now : ℕ) (session : UserSession)
    → first (λ s. s.token_hash == hash) db.sessions ≡ some session
    → now < session.expires_at
    → (o : Option User) (user : User) (method : String)
    → find (λ u. u.id) session.user_id db.users ≡ o
    → active_user session o ≡ some (user, method)
    → IsGenuine db hash now user method
unfolding active_user
active_user-IsGenuine db hash now session stored unexpired none user method e r =
    absurd (ground arith)
active_user-IsGenuine db hash now session stored unexpired (some u) user method e r = record {
  session = session;
  stored = stored;
  unexpired = unexpired;
  owner = ground arith;
  active = ground arith;
  known_method =
      let e : method_or_password session.auth_method ≡ method = ground arith in
      rw e at (contains-method_or_password session.auth_method);
}

resolve_row-IsGenuine :
    (db : Database) (hash : String) (now : ℕ) (row : Option UserSession) (user : User)
    (method : String)
    → first (λ s. s.token_hash == hash) db.sessions ≡ row
    → (resolve_row db now row).1 ≡ some (user, method)
    → IsGenuine db hash now user method
unfolding resolve_row
resolve_row-IsGenuine db hash now none user method stored r = cc
resolve_row-IsGenuine db hash now (some session) user method stored r =
    elim (Bool-cases (leb session.expires_at now)) [
      | inl e ↦ absurd (ground arith)
      | inr e ↦
          active_user-IsGenuine db hash now session stored (ground arith) _ user method refl
            (ground arith)
    ]

module _ (platform : Platform) where
  -- A token resolves only to the owner of a stored session with its hash that has not expired,
  -- and only while that user is active; the reported method is one that the program knows.
  pub resolve_session-IsGenuine :
      (db : Database) (token : String) (now : ℕ) (user : User) (method : String)
      → (resolve_session_with_method platform db token now).1 ≡ some (user, method)
      → IsGenuine db (platform.sha256 token) now user method
  unfolding resolve_session_with_method
  resolve_session-IsGenuine db token now user method r =
      resolve_row-IsGenuine db (platform.sha256 token) now _ user method refl r

first_of_delete :
    (p : UserSession → Bool) (user_id : ℕ) (rows : List UserSession) (s : UserSession)
    → first p (delete (λ s. s.user_id) user_id rows) ≡ some s
    → s.user_id ≢ user_id
first_of_delete p user_id [] s h = cc
first_of_delete p user_id (r ∷ rows) s h = elim (Bool-cases (r.user_id == user_id)) [
  | inl e ↦ first_of_delete p user_id rows s (ground arith)
  | inr e ↦ ground (arith, first_of_delete p user_id rows s)
]

first-select :
    (p : UserSession → Bool) (rows : List UserSession)
    → first p (select (λ s. not (p s)) rows) ≡ none
first-select p [] = refl
first-select p (r ∷ rows) = ground (arith, first-select p rows)

first-append :
    (p : UserSession → Bool) (rows : List UserSession) (s : UserSession)
    → first p rows ≡ none
    → p s ≡ true
    → first p (rows ++ s ∷ []) ≡ some s
first-append p [] s h t = rw t
first-append p (r ∷ rows) s h t = ground (arith, first-append p rows s)

-- What a sign-in adds.
abbrev new_session : Platform → User → String → String → ℕ → UserSession
new_session platform user method token now = record {
  token_hash = platform.sha256 token;
  user_id = user.id;
  expires_at = now + session_lifetime;
  auth_method = method;
}

create_session-eq :
    (platform : Platform) (db db' : Database) (user : User) (method token : String) (now : ℕ)
    → create_session platform db user method token now ≡ some db'
    → (contains method auth_methods ≡ true)
      × (db'
          ≡ record db { sessions = db.sessions ++ new_session platform user method token now ∷ [] })
unfolding create_session
create_session-eq platform db db' user method token now made =
    elim (Bool-cases (contains method auth_methods)) [
      | inl c ↦ (c, ground arith)
      | inr c ↦ absurd (ground arith)
    ]

resolve_new_session :
    (db : Database) (session : UserSession) (user : User) (later : ℕ)
    → find (λ u. u.id) session.user_id db.users ≡ some user
    → user.is_active ≡ true
    → contains session.auth_method auth_methods ≡ true
    → (resolve_row db later (some session)).1
      ≡ (if ltb later session.expires_at then some (user, session.auth_method) else none)
unfolding resolve_row active_user method_or_password
resolve_new_session db session user later owner active known =
    rw (owner, active, known) (ground arith)

module _ (platform : Platform) where
  -- Once the sessions of a user are revoked, no token at all resolves to that user.
  pub resolve_session-delete_user_sessions :
      (db : Database) (user_id : ℕ) (token : String) (now : ℕ) (user : User) (method : String)
      → (resolve_session_with_method platform (delete_user_sessions db user_id) token now).1
        ≡ some (user, method)
      → user.id ≢ user_id
  unfolding delete_user_sessions
  resolve_session-delete_user_sessions db user_id token now user method r =
      let genuine =
        resolve_session-IsGenuine platform (delete_user_sessions db user_id) token now user method
          r in
      ground (
        arith,
        first_of_delete (λ s. s.token_hash == platform.sha256 token) user_id db.sessions
            genuine.session genuine.stored,
        key-find (λ (u : User). u.id) genuine.session.user_id user db.users genuine.owner,
      )

  -- A token that was logged out resolves to nobody.
  pub resolve_session-delete_session :
      (db : Database) (token : String) (now : ℕ)
      → (resolve_session_with_method platform (delete_session platform db token) token now).1 ≡ none
  unfolding delete_session resolve_session_with_method
  resolve_session-delete_session db token now =
      rw (first-select (λ s. s.token_hash == platform.sha256 token) db.sessions)

  -- A token that is issued to a stored active user resolves to that user and to the method of the
  -- sign-in for thirty days, and to nobody from then on.
  pub resolve_session-create_session :
      (db db' : Database) (user : User) (method token : String) (now later : ℕ)
      → first (λ s. s.token_hash == platform.sha256 token) db.sessions ≡ none
      → find (λ u. u.id) user.id db.users ≡ some user
      → user.is_active ≡ true
      → create_session platform db user method token now ≡ some db'
      → (resolve_session_with_method platform db' token later).1
        ≡ (if ltb later (now + session_lifetime) then some (user, method) else none)
  unfolding create_session resolve_session_with_method
  resolve_session-create_session db db' user method token now later fresh owner active made =
      let (known, e) = create_session-eq platform db db' user method token now made in
      let session = new_session platform user method token now in
      let p : UserSession → Bool = λ s. s.token_hash == platform.sha256 token in
      rw e (
        rw (first-append p db.sessions session fresh (beq_refl (platform.sha256 token))) (
          resolve_new_session (record db { sessions = db.sessions ++ session ∷ [] }) session user
            later owner active known))
