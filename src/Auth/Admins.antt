-- ===== src/Auth/Admins.antt =====
-- Who can administrate: the counts behind the reachability check, as sums over the users.
use open_sec_dash.Prelude.{
  ℕ, ◌≤◌, ◌≡◌, refl, String, Bool, true, ◌&&◌, none, some, List, [], ◌∷◌, arith, ◌==◌, string_eq,
  nat_eq, if◌then◌else◌, select, first, ◌≢◌,
}
use open_sec_dash.Prelude.Sums.{flag, sum_by, count, others, sum_by_congr}
use open_sec_dash.Database.{User, ExternalIdentity, Database}
use open_sec_dash.Auth.{is_admin, links, has_issuer, active_admin_count, active_oidc_admin_count}

-- The weight of a user among the active administrators, and among those that sign in at the issuer.
abbrev pub admin_weight : User → ℕ
admin_weight u = flag (is_admin u)

abbrev pub oidc_weight : String → List ExternalIdentity → User → ℕ
oidc_weight issuer identities u = if is_admin u then count (links issuer u.id) identities else 0

-- What the tables' constraints give: a primary key, and one identity of a provider for a user.
pub record IsKeyed (db : Database) : Type 0 where
  pub user_ids : (k : ℕ) → count (λ u. u.id == k) db.users ≤ 1
  pub user_links :
      (k : ℕ) (provider : String)
      → count (λ i. i.provider == provider && i.user_id == k) db.identities ≤ 1

module _ (db : Database) (k : ℕ) where
  pub active_admin_count-others :
      active_admin_count db (some k) ≡ sum_by (others (λ u. u.id) k admin_weight) db.users
  unfolding active_admin_count
  active_admin_count-others = sum_by_congr _ _ db.users (λ u. ground arith)

  pub active_oidc_admin_count-others :
      (issuer : String)
      → active_oidc_admin_count db issuer (some k)
        ≡ sum_by (others (λ u. u.id) k (oidc_weight issuer db.identities)) db.users
  unfolding active_oidc_admin_count
  active_oidc_admin_count-others issuer = sum_by_congr _ _ db.users (λ u. ground arith)

pub active_admin_count-all :
    (db : Database) → active_admin_count db none ≡ sum_by admin_weight db.users
unfolding active_admin_count
active_admin_count-all db = sum_by_congr _ _ db.users (λ u. ground arith)

pub active_oidc_admin_count-all :
    (db : Database) (issuer : String)
    → active_oidc_admin_count db issuer none ≡ sum_by (oidc_weight issuer db.identities) db.users
unfolding active_oidc_admin_count
active_oidc_admin_count-all db issuer = sum_by_congr _ _ db.users (λ u. ground arith)

count-links_none :
    (issuer : String) (k : ℕ) (identities : List ExternalIdentity)
    → count (λ i. i.provider == "oidc" && i.user_id == k) identities ≡ 0
    → count (links issuer k) identities ≡ 0
unfolding sum_by
count-links_none issuer k [] u = refl
count-links_none issuer k (i ∷ identities) u = ground (arith, count-links_none issuer k identities)

-- Deleting the links of one user leaves the links of every other.
pub count-links-select :
    (issuer : String) (k user_id : ℕ) (p : ExternalIdentity → Bool)
    → ((i : ExternalIdentity) → i.user_id ≢ user_id → p i ≡ true)
    → (identities : List ExternalIdentity) → k ≢ user_id
    → count (links issuer k) (select p identities) ≡ count (links issuer k) identities
unfolding sum_by
count-links-select issuer k user_id p keeps [] h = refl
count-links-select issuer k user_id p keeps (i ∷ identities) h =
    ground (arith, keeps i, count-links-select issuer k user_id p keeps identities h)

-- Whether the identity that the check looks up has the issuer decides whether the user counts.
pub count-links :
    (issuer : String) (k : ℕ) (identities : List ExternalIdentity)
    → count (λ i. i.provider == "oidc" && i.user_id == k) identities ≤ 1
    → count (links issuer k) identities
      ≡ flag (has_issuer issuer (first (λ i. i.provider == "oidc" && i.user_id == k) identities))
unfolding sum_by
count-links issuer k [] u = refl
count-links issuer k (i ∷ identities) u =
    ground (arith, count-links issuer k identities, count-links_none issuer k identities)
