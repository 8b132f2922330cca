-- ===== src/Auth.antt =====
-- backend/app/services/auth.py: users, sessions and external identities.
--
-- `Platform` holds what the database engine and the hashing library provide. A random token is an
-- argument of the function that draws it, and so is the current time. Queries that the source
-- filters by an id select by it here.
pub mod Sessions
pub mod Admins
use open_sec_dash.Prelude.{
  ℕ, ◌+◌, ◌*◌, ◌≤◌, ◌<◌, ◌≡◌, String, Bool, true, false, not, ◌&&◌, ◌||◌, Option, none, some, List,
  [], ◌∷◌, ◌++◌, ◌==◌, string_eq, nat_eq, leb, ltb, contains, select, first, length, is_some,
  if◌then◌else◌,
}
use open_sec_dash.Prelude.Text.{Text, text_eq, strip, lower}
use open_sec_dash.Prelude.Sums.{flag, sum_by, count, update, delete, find}
use open_sec_dash.Preferences.{create_user_preferences}
use open_sec_dash.Database.{
  User, UserSession, ExternalIdentity, SavedView, Database, get_setting_value,
}

abbrev pub password_min_length : ℕ
password_min_length = 8

-- timedelta(days=SESSION_LIFETIME_DAYS), in seconds
abbrev pub session_lifetime : ℕ
session_lifetime = 30 * 24 * 60 * 60

abbrev pub auth_methods : List String
auth_methods = "password" ∷ "oidc" ∷ []

abbrev pub roles : List String
roles = "viewer" ∷ "operator" ∷ "admin" ∷ []

pub record Platform : Type 0 where
  pub sha256 : String → String
  -- scrypt with a salt; the check of a password against a stored hash; a hash of the older cost
  pub hash_password : String → Text → String
  pub verify_password : Text → Option String → Bool
  pub password_needs_rehash : Option String → Bool
  -- the primary key of the next row of `users`, which no row has
  pub new_user_id : List User → ℕ
  pub new_user_id_unused : (users : List User) → count (λ u. u.id == new_user_id users) users ≡ 0

unfoldable pub normalize_username : Text → Text
normalize_username username = lower (strip username)

-- one character of `[a-z0-9._-]`
abbrev is_username_code : ℕ → Bool
is_username_code c =
    (leb b'a' c && leb c b'z') || (leb b'0' c && leb c b'9') || c == b'.' || c == b'_' || c == b'-'

abbrev every : (ℕ → Bool) → Text → Bool
every p [] = true
every p (c ∷ s) = p c && every p s

-- `[a-z0-9._-]{1,64}` matches the whole text.
unfoldable pub matches_username_pattern : Text → Bool
matches_username_pattern s = leb 1 (length s) && leb (length s) 64 && every is_username_code s

unfoldable pub find_username : Text → List User → Option User
find_username username = first (λ u. u.username == username)

unfoldable pub validate_new_user : Database → Text → Text → Option String
unfolding normalize_username matches_username_pattern
validate_new_user db username password =
    if not (matches_username_pattern (normalize_username username))
    then some "invalid_username"
    else if is_some (find_username (normalize_username username) db.users)
    then some "username_taken"
    else if ltb (length password) password_min_length
    then some "password_too_short"
    else none

-- backend/app/services/saved_views.py: the anonymous views are copied for the user.
owned_by : ℕ → List SavedView → List SavedView
owned_by user_id [] = []
owned_by user_id (v ∷ views) = record v { user_id = some user_id } ∷ owned_by user_id views

unfoldable pub copy_legacy_views_to_user : Database → ℕ → Database
unfolding owned_by
copy_legacy_views_to_user db user_id = record db {
  saved_views =
      db.saved_views ++ owned_by user_id (select (λ v. not (is_some v.user_id)) db.saved_views);
}

unfoldable pub set_password_hash : Database → ℕ → String → Database
set_password_hash db user_id hash = record db {
  users = update (λ u. u.id) user_id (λ u. record u { password_hash = some hash }) db.users;
}

-- An unknown stored method counts as a password session.
unfoldable pub method_or_password : String → String
method_or_password method = if contains method auth_methods then method else "password"

active_user : UserSession → Option User → Option (User × String)
active_user session none = none
active_user session (some user) =
    if user.is_active then some (user, method_or_password session.auth_method) else none

resolve_row : Database → ℕ → Option UserSession → Database × Option (User × String)
unfolding active_user
resolve_row db now none = (db, none)
resolve_row db now (some session) =
    if leb session.expires_at now
    then (
      record db { sessions = select (λ s. not (s.token_hash == session.token_hash)) db.sessions },
      none,
    )
    else (db, active_user session (find (λ u. u.id) session.user_id db.users))

module _ (platform : Platform) where
  open platform use {sha256, hash_password, verify_password, password_needs_rehash, new_user_id}

  add_user : Database → Text → Option String → String → Database × User
  add_user db username password_hash role =
      let user : User = record {
        id = new_user_id db.users;
        username = normalize_username username;
        password_hash = password_hash;
        role = role;
        is_active = true;
        last_login_at = none;
      } in
      let db' = create_user_preferences (record db { users = db.users ++ user ∷ [] }) user.id in
      (copy_legacy_views_to_user db' user.id, user)

  -- `salt` is what `secrets.token_bytes` draws.
  unfoldable pub create_user : Database → Text → Text → String → String → Database × User
  unfolding add_user
  create_user db username password role salt =
      add_user db username (some (hash_password salt password)) role

  unfoldable pub create_passwordless_user : Database → Text → Database × User
  unfolding add_user
  create_passwordless_user db username = add_user db username none "viewer"

  unfoldable pub check_user : Database → Text → String → Option User → Database × Option User
  unfolding set_password_hash
  check_user db password salt none = (db, none)
  check_user db password salt (some user) =
      if not user.is_active || not (is_some user.password_hash)
      then (db, none)
      else if not (verify_password password user.password_hash)
      then (db, none)
      else if password_needs_rehash user.password_hash
      then (
        set_password_hash db user.id (hash_password salt password),
        some (record user { password_hash = some (hash_password salt password) }),
      )
      else (db, some user)

  -- The check against a dummy hash for an unknown user changes nothing and is left out.
  unfoldable pub authenticate : Database → Text → Text → String → Database × Option User
  unfolding check_user
  authenticate db username password salt =
      check_user db password salt (find_username (normalize_username username) db.users)

  -- `none` is the ValueError for an unsupported method.
  unfoldable pub create_session : Database → User → String → String → ℕ → Option Database
  create_session db user auth_method token now =
      if contains auth_method auth_methods
      then some (record db {
        sessions =
            db.sessions
            ++ record {
              token_hash = sha256 token;
              user_id = user.id;
              expires_at = now + session_lifetime;
              auth_method = auth_method;
            }
              ∷ [];
      })
      else none

  unfoldable pub resolve_session_with_method :
      Database → String → ℕ → Database × Option (User × String)
  unfolding resolve_row
  resolve_session_with_method db token now =
      resolve_row db now (first (λ s. s.token_hash == sha256 token) db.sessions)

  unfoldable pub delete_session : Database → String → Database
  delete_session db token = record db {
    sessions = select (λ s. not (s.token_hash == sha256 token)) db.sessions;
  }

unfoldable pub delete_user_sessions : Database → ℕ → Database
delete_user_sessions db user_id = record db {
  sessions = delete (λ s. s.user_id) user_id db.sessions;
}

-- `none` is the ValueError for an unsupported method.
unfoldable pub delete_sessions_by_auth_method : Database → String → Option Database
delete_sessions_by_auth_method db auth_method =
    if contains auth_method auth_methods
    then some
        (record db { sessions = select (λ s. not (s.auth_method == auth_method)) db.sessions })
    else none

unfoldable pub cleanup_expired_sessions : Database → ℕ → Database
cleanup_expired_sessions db now = record db {
  sessions = select (λ s. not (leb s.expires_at now)) db.sessions;
}

-- `env` is the value of OSD_AUTH_DISABLED, "" where it is not set.
unfoldable pub auth_disabled_by_environment : Text → Bool
auth_disabled_by_environment env =
    contains (lower env)
      ((b'1' ∷ []) ∷ (b't' ∷ b'r' ∷ b'u' ∷ b'e' ∷ []) ∷ (b'y' ∷ b'e' ∷ b's' ∷ []) ∷ [])

unfoldable pub auth_enabled : Database → Text → Bool
auth_enabled db env =
    if auth_disabled_by_environment env
    then false
    else get_setting_value db "auth.enabled" "false" == "true"

-- The rows that `User.role == "admin", User.is_active == True` selects.
abbrev pub is_admin : User → Bool
is_admin u = u.role == "admin" && u.is_active

abbrev excludes : Option ℕ → User → Bool
excludes none u = false
excludes (some user_id) u = u.id == user_id

unfoldable pub active_admin_count : Database → Option ℕ → ℕ
active_admin_count db exclude = count (λ u. is_admin u && not (excludes exclude u)) db.users

-- Whether the identity row links the user at the provider "oidc" with the issuer.
abbrev pub links : String → ℕ → ExternalIdentity → Bool
links issuer user_id i = i.user_id == user_id && i.provider == "oidc" && i.issuer == issuer

-- The truth of `identity is not None and identity.issuer == issuer`.
abbrev pub has_issuer : String → Option ExternalIdentity → Bool
has_issuer issuer none = false
has_issuer issuer (some identity) = identity.issuer == issuer

-- The rows of the join of users and identities.
unfoldable pub active_oidc_admin_count : Database → String → Option ℕ → ℕ
active_oidc_admin_count db issuer exclude =
    sum_by
      (λ u.
        if is_admin u && not (excludes exclude u)
        then count (links issuer u.id) db.identities
        else 0)
      db.users

unfoldable pub find_external_identity :
    Database → String → String → String → Option ExternalIdentity
find_external_identity db issuer subject provider =
    first (λ i. i.provider == provider && i.issuer == issuer && i.subject == subject) db.identities

unfoldable pub find_user_external_identity : Database → ℕ → String → Option ExternalIdentity
find_user_external_identity db user_id provider =
    first (λ i. i.provider == provider && i.user_id == user_id) db.identities

pub data LinkResult : Type 0 where
  linked : Database → ExternalIdentity → LinkResult
  refused : String → LinkResult

-- The checks and the insert are one step: no other request comes between them, so the insert
-- violates no constraint.
unfoldable pub link_external_identity : Database → ℕ → String → String → String → LinkResult
unfolding find_user_external_identity find_external_identity
link_external_identity db user_id issuer subject provider =
    if is_some (find_user_external_identity db user_id provider)
    then refused "identity_already_linked"
    else if is_some (find_external_identity db issuer subject provider)
    then refused "identity_taken"
    else let identity : ExternalIdentity = record {
      user_id = user_id;
      provider = provider;
      issuer = issuer;
      subject = subject;
      last_login_at = none;
    } in
      linked (record db { identities = db.identities ++ identity ∷ [] }) identity

abbrev is_link_of : ℕ → String → ExternalIdentity → Bool
is_link_of user_id provider i = i.provider == provider && i.user_id == user_id

-- The result tells whether a row was deleted.
unfoldable pub unlink_external_identity : Database → ℕ → String → Database × Bool
unlink_external_identity db user_id provider = (
  record db { identities = select (λ i. not (is_link_of user_id provider i)) db.identities },
  ltb 0 (count (is_link_of user_id provider) db.identities),
)

unfoldable pub delete_user_external_identities : Database → ℕ → Database
delete_user_external_identities db user_id = record db {
  identities = delete (λ i. i.user_id) user_id db.identities;
}
