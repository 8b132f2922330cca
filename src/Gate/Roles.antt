-- ===== src/Gate/Roles.antt =====
-- backend/app/web/permissions.py: which role a request needs, whatever its path.
use open_sec_dash.Prelude.{
  ◌≡◌, refl, subst, ◌≤◌, inl, inr, ℕ, String, Bool, true, false, not, ◌&&◌, ◌||◌, some, List, [],
  ◌∷◌, ◌==◌, nat_eq, string_eq, contains, eq_of_beq, Bool-cases, arith,
}
use open_sec_dash.Prelude.Text.{Text, text_eq, codes, upper, split}
use open_sec_dash.Database.{User, Database}
use open_sec_dash.Auth.{Platform, auth_enabled}
use open_sec_dash.Gate.{role_order, operational_paths, auth_gating_middleware, passes}
use open_sec_dash.Gate.Origins.{Wire, Request}
use open_sec_dash.Gate.Passage.{IsAdmitted, HasRank, auth_gating_middleware-IsAdmitted}
use open_sec_dash.Gate.Permissions.{
  RoutePermission, segments, is_param, matches_segments, is_route, route_permissions, permissions,
  is_reading, role_in, required_role,
}

-- Whether a rule can match a path whose first segment is `name`
leads : Text → List Text → Bool
leads name [] = false
leads name (a ∷ []) = is_param a
leads name (a ∷ b ∷ ts) = is_param a || is_param b || b == name

-- Every rule that a request of this method under `name` can match has the role.
rules_under : Text → Text → String → List RoutePermission → Bool
unfolding leads
rules_under method name role [] = true
rules_under method name role (permission ∷ permissions) =
    (not (permission.method == method && leads name (segments permission.path))
      || permission.role == role)
    && rules_under method name role permissions

settings_rules : rules_under (codes "POST") (codes "settings") "admin" route_permissions ≡ true
unfolding rules_under leads route_permissions permissions split is_param
settings_rules = refl

matches_segments-leads :
    (ts rest : List Text) (name : Text)
    → matches_segments ts ([] ∷ name ∷ rest) ≡ true
    → leads name ts ≡ true
unfolding matches_segments leads
matches_segments-leads [] rest name h = absurd (ground arith)
matches_segments-leads (a ∷ []) rest name h = elim (Bool-cases (is_param a)) [
  | inl e ↦ e
  | inr e ↦ absurd (ground arith)
]
matches_segments-leads (a ∷ b ∷ ts) rest name h = elim (Bool-cases (is_param a)) [
  | inl e ↦ rw e refl
  | inr e ↦ elim (Bool-cases (is_param b)) [ inl f ↦ rw (e, f) refl | inr f ↦ ground arith ]
]

both_left : (a b : Bool) → (a && b) ≡ true → a ≡ true
both_left true b h = refl
both_left false b h = h

both_right : (a b : Bool) → (a && b) ≡ true → b ≡ true
both_right true b h = h
both_right false b h = absurd (ground arith)

rule_role : (a b c : Bool) → a ≡ true → b ≡ true → (not (a && b) || c) ≡ true → c ≡ true
rule_role a b c ea eb h = ground arith

role_in-admin :
    (rules : List RoutePermission) (method name : Text) (rest : List Text)
    → is_reading method ≡ false
    → rules_under method name "admin" rules ≡ true
    → role_in rules method ([] ∷ name ∷ rest) ≡ "admin"
unfolding role_in rules_under
role_in-admin [] method name rest writing h = rw writing refl
role_in-admin (rule ∷ rules) method name rest writing h =
    let own = rule.method == method in
    let matched = matches_segments (segments rule.path) ([] ∷ name ∷ rest) in
    let others = rules_under method name "admin" rules in
    elim (Bool-cases (is_route method ([] ∷ name ∷ rest) rule)) [
      | inl e ↦
          let lead : leads name (segments rule.path) ≡ true =
            matches_segments-leads (segments rule.path) rest name (both_right own matched e) in
          let known =
            rule_role own (leads name (segments rule.path)) (rule.role == "admin")
              (both_left own matched e) lead (both_left _ others h) in
          rw e (eq_of_beq rule.role "admin" known)
      | inr e ↦ rw e (role_in-admin rules method name rest writing (both_right _ others h))
    ]

-- A POST to any path under /settings requires the role "admin", whatever follows.
pub required_role-settings :
    (method path : Text) (rest : List Text)
    → upper method ≡ codes "POST"
    → segments path ≡ [] ∷ codes "settings" ∷ rest
    → required_role method path ≡ "admin"
unfolding required_role
required_role-settings method path rest post under =
    rw (post, under)
      (role_in-admin route_permissions (codes "POST") (codes "settings") rest refl settings_rules)

role_order-admin :
    (role : String) (rank : ℕ) → role_order role ≡ some rank → 2 ≤ rank → role ≡ "admin"
unfolding role_order
role_order-admin role rank h above = elim (Bool-cases (role == "admin")) [
  | inl e ↦ eq_of_beq role "admin" e
  | inr e ↦ absurd (ground arith)
]

two_of_some : (n : ℕ) → some 2 ≡ some n → n ≡ 2
two_of_some n h = ground arith

two_le : (rank required : ℕ) → required ≡ 2 → required ≤ rank → 2 ≤ rank
two_le rank required same above = omega arith

-- With authentication enabled, a POST to a path under /settings that the gate hands on as a user
-- goes on as an administrator whom the gate has admitted.
pub auth_gating_middleware-IsAdmin :
    (platform : Platform) (wire : Wire) (db : Database) (environment : Text) (now : ℕ)
    (request : Request) (user : User) (method : String) (rest : List Text)
    → auth_enabled db environment ≡ true
    → contains request.path operational_paths ≡ false
    → upper request.method ≡ codes "POST"
    → segments request.path ≡ [] ∷ codes "settings" ∷ rest
    → (auth_gating_middleware platform wire db environment now request).1
      ≡ passes (some (user, method))
    → (user.role ≡ "admin") × IsAdmitted platform wire db now request user method
unfolding HasRank role_order
auth_gating_middleware-IsAdmin platform wire db environment now request user method rest on other
      post under h =
    let (origin, result) =
      auth_gating_middleware-IsAdmitted platform wire db now request environment
        (some (user, method)) on other h in
    elim result [
      | inl (nobody, reason) ↦ absurd (ground arith)
      | inr (u, m, same, admitted) ↦
          let same_user : u ≡ user = ground arith in
          let same_method : m ≡ method = ground arith in
          let own : IsAdmitted platform wire db now request user method =
            subst (λ a. IsAdmitted platform wire db now request a method) same_user
              (subst (λ b. IsAdmitted platform wire db now request u b) same_method admitted) in
          let (rank, required, of_user, of_route, above) = own.ranked in
          let needed : some 2 ≡ some required =
            subst (λ r. role_order r ≡ some required)
              (required_role-settings request.method request.path rest post under) of_route in
          (
            role_order-admin user.role rank of_user
                (two_le rank required (two_of_some required needed) above),
            own,
          )
    ]
