-- ===== src/Examples.antt =====
-- Concrete installations and requests, and the theorems at them.
mod Accounts
mod Sessions
mod Settings
mod Mail
mod SignIn
mod FirstVisit
mod Decisions
mod Providers
mod Visits
mod Work
mod Incidents
mod Hashes
use open_sec_dash.Prelude.{
  ℕ, suc, ◌+◌, ◌≤◌, ◌<◌, ◌≡◌, refl, String, true, false, some, none, List, [], ◌∷◌, ◌++◌, arith,
  ◌==◌, nat_eq, ◌&&◌, string_eq,
}
use open_sec_dash.Prelude.Text.{Text, codes}
use open_sec_dash.Prelude.Sums.{sum_by, count}
use open_sec_dash.Database.{User, Database, ExternalIdentity}
use open_sec_dash.Auth.{Platform}

count-above :
    (k : ℕ) (users : List User) → sum_by (λ u. u.id) users < k → count (λ u. u.id == k) users ≡ 0
unfolding sum_by
count-above k [] h = refl
count-above k (u ∷ users) h = ground (arith, count-above k users)

-- A hash that keeps its input, and ids above the sum of all ids.
next_id : List User → ℕ
next_id users = suc (sum_by (λ u. u.id) users)

next_id_unused : (users : List User) → count (λ u. u.id == next_id users) users ≡ 0
unfolding next_id
next_id_unused users = count-above (suc (sum_by (λ u. u.id) users)) users (omega arith)

abbrev platform : Platform
platform = record {
  sha256 = λ token. token;
  hash_password = λ salt password. salt;
  verify_password = λ password stored. true;
  password_needs_rehash = λ stored. false;
  new_user_id = next_id;
  new_user_id_unused = next_id_unused;
}

abbrev alice : User
alice = record {
  id = 1;
  username = codes "alice";
  password_hash = some "hash";
  role = "admin";
  is_active = true;
  last_login_at = none;
}

abbrev bob : User
bob = record {
  id = 2;
  username = codes "bob";
  password_hash = none;
  role = "admin";
  is_active = true;
  last_login_at = none;
}

abbrev bobs_link : ExternalIdentity
bobs_link = record {
  user_id = 2;
  provider = "oidc";
  issuer = "https://id.example";
  subject = "b-1";
  last_login_at = none;
}

-- Two administrators; password sign-in is off, and only one of them is linked to the provider.
abbrev installation : Database
installation = record {
  users = alice ∷ bob ∷ [];
  sessions = [];
  identities = bobs_link ∷ [];
  preferences = [];
  saved_views = [];
  settings =
      ("auth.oidc.enabled", "true")
      ∷ ("auth.oidc.discovery_url", "https://id.example/.well-known")
      ∷ ("auth.oidc.client_id", "dash")
      ∷ ("auth.oidc.client_secret", "secret")
      ∷ ("auth.oidc.issuer", "https://id.example")
      ∷ ("auth.password_login_enabled", "false")
      ∷ [];
}
