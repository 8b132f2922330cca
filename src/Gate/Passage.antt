-- ===== src/Gate/Passage.antt =====
-- backend/app/web/auth.py, `auth_gating_middleware`: which requests the gate hands on, and to whom.
use open_sec_dash.Prelude.{
  eq_of_beq, ◌≡◌, ◌≢◌, refl, ◌⊎◌, inl, inr, ℕ, ◌≤◌, String, Bool, true, false, not, ◌&&◌, ◌||◌,
  Option, none, some, List, [], ◌∷◌, ◌++◌, ◌==◌, ltb, contains, string_eq, if◌then◌else◌,
  Bool-cases, Option-cases, arith,
}
use open_sec_dash.Prelude.Text.{Text, text_eq, codes}
use open_sec_dash.Database.{User, Database}
use open_sec_dash.Auth.{Platform, auth_disabled_by_environment, auth_enabled}
use open_sec_dash.Auth.Sessions.{IsGenuine, resolve_session-IsGenuine}
use open_sec_dash.Gate.{
  Verdict, passes, operational_paths, legal_paths, public_paths, is_static, is_public_path,
  onboarding_state, role_order, with_ranks, gate_user, gate_session, gate_enabled, auth_hostname,
  auth_gating_middleware, or_redirect,
}
use open_sec_dash.Gate.Origins.{Wire, Request, auth_proxy_error, unsafe_request_has_invalid_origin}
use open_sec_dash.Gate.Permissions.{required_role}

-- The outcome of the middleware's tests, in their order
Outcome : Bool → Bool → Bool → Bool → (x y z u v : Database × Verdict) → Verdict → Type 0
Outcome a b c d x y z u v r =
    ((a ≡ true) × (x.1 ≡ r))
    ⊎ (b ≡ true) × (y.1 ≡ r)
    ⊎ (b ≡ false) × (c ≡ true) × (z.1 ≡ r)
    ⊎ (b ≡ false) × (d ≡ true) × (u.1 ≡ r)
    ⊎ (b ≡ false) × (d ≡ false) × (v.1 ≡ r)

outcome :
    (a b c d : Bool) (x y z u v : Database × Verdict) (r : Verdict)
    → (if a then x else if b then y else if c then z else if d then u else v).1 ≡ r
    → Outcome a b c d x y z u v r
unfolding Outcome
outcome true b c d x y z u v r h = inl (refl, h)
outcome false true c d x y z u v r h = inr (inl (refl, h))
outcome false false true d x y z u v r h = inr (inr (inl (refl, refl, h)))
outcome false false false true x y z u v r h = inr (inr (inr (inl (refl, refl, h))))
outcome false false false false x y z u v r h = inr (inr (inr (inr (refl, refl, h))))

-- `user` may do what the request asks for.
unfoldable pub HasRank : Request → User → Type 0
HasRank request user =
    (rank : ℕ) × (required : ℕ) × (role_order user.role ≡ some rank)
    × (role_order (required_role request.method request.path) ≡ some required)
    × (required ≤ rank)

or_redirect-refuses :
    (request : Request) (status : ℕ) (x : Option (User × String))
    → or_redirect request status ≢ passes x
or_redirect-refuses request status x h = ground arith

with_ranks-HasRank :
    (request : Request) (user : User) (method : String) (a b : Option ℕ)
    (x : Option (User × String))
    → role_order user.role ≡ a
    → role_order (required_role request.method request.path) ≡ b
    → with_ranks user method a b ≡ passes x
    → (x ≡ some (user, method)) × HasRank request user
unfolding with_ranks HasRank
with_ranks-HasRank request user method none b x p q h = absurd (ground arith)
with_ranks-HasRank request user method (some a) none x p q h = absurd (ground arith)
with_ranks-HasRank request user method (some a) (some b) x p q h = elim (Bool-cases (ltb a b)) [
  | inl e ↦ absurd (ground arith)
  | inr e ↦ (ground arith, (a, b, p, q, ground arith))
]

gate_user-HasRank :
    (request : Request) (resolved x : Option (User × String))
    → gate_user request resolved ≡ passes x
    → (user : User) × (method : String) × (resolved ≡ some (user, method))
      × (x ≡ some (user, method))
      × HasRank request user
unfolding gate_user
gate_user-HasRank request none x h = absurd (or_redirect-refuses request 401 x h)
gate_user-HasRank request (some (user, method)) x h =
    let (same, rank) = with_ranks-HasRank request user method _ _ x refl refl h in
    (user, method, refl, same, rank)

and_left : (a b : Bool) → (a && b) ≡ true → a ≡ true
and_left true b h = refl
and_left false b h = h

or_passes :
    (a b c : Bool) (request : Request) (x : Option (User × String))
    → (if a || b || c then passes none else or_redirect request 503) ≡ passes x
    → (x ≡ none) × ((a ≡ true) ⊎ (b ≡ true) ⊎ (c ≡ true))
or_passes true b c request x h = (ground arith, inl refl)
or_passes false true c request x h = (ground arith, inr (inl refl))
or_passes false false true request x h = (ground arith, inr (inr refl))
or_passes false false false request x h = absurd (or_redirect-refuses request 503 x h)

contains-append :
    (t : Text) (us ts : List Text) → contains t ts ≡ true → contains t (us ++ ts) ≡ true
contains-append t [] ts h = h
contains-append t (u ∷ us) ts h = elim (Bool-cases (t == u)) [
  | inl e ↦ rw e refl
  | inr e ↦ rw (e, contains-append t us ts h) refl
]

is_public_path-static : (path : Text) → is_static path ≡ true → is_public_path path ≡ true
unfolding is_public_path
is_public_path-static path h = elim (Bool-cases (contains path public_paths)) [
  | inl e ↦ rw e refl
  | inr e ↦ rw (e, h) refl
]

is_public_path-legal : (path : Text) → contains path legal_paths ≡ true → is_public_path path ≡ true
unfolding is_public_path
is_public_path-legal path h =
    let listed : contains path public_paths ≡ true =
      contains-append path
        (codes "/login"
          ∷ codes "/auth/oidc/login"
          ∷ codes "/auth/oidc/callback"
          ∷ codes "/manifest.webmanifest"
          ∷ codes "/sw.js"
          ∷ [])
        legal_paths h in
    rw listed refl

module _ (platform : Platform) (wire : Wire) (db : Database) (now : ℕ) (request : Request) where
  -- `user` has a valid session of the request's cookie and may do what the request asks for, over
  -- the configured origin.
  pub record IsAdmitted (user : User) (method : String) : Type 0 where
    pub token : String
    pub cookie : request.session_cookie ≡ some token
    pub genuine : IsGenuine db (platform.sha256 token) now user method
    pub ranked : HasRank request user
    pub transport : auth_proxy_error wire request (auth_hostname db) ≡ none
    pub origin : unsafe_request_has_invalid_origin wire request ≡ false

  gate_session-IsGenuine :
      (cookie : Option String) (user : User) (method : String)
      → (gate_session platform wire db now request cookie).1 ≡ some (user, method)
      → (token : String) × (cookie ≡ some token)
        × IsGenuine db (platform.sha256 token) now user method
  unfolding gate_session
  gate_session-IsGenuine none user method h = absurd (ground arith)
  gate_session-IsGenuine (some token) user method h = elim (Bool-cases (token == "")) [
    | inl e ↦ absurd (ground arith)
    | inr e ↦
        (token, refl, resolve_session-IsGenuine platform db token now user method (ground arith))
  ]

  -- A gate that is on hands a request on
  abbrev Enabled : Option (User × String) → Type 0
  Enabled x =
      ((x ≡ none) × (is_public_path request.path ≡ true))
      ⊎ ((user : User) × (method : String) × (x ≡ some (user, method))
          × (unsafe_request_has_invalid_origin wire request ≡ false → IsAdmitted user method))

  gate_enabled-passes :
      (x : Option (User × String))
      → (gate_enabled platform wire db now request).1 ≡ passes x
      → Enabled x
  unfolding gate_enabled
  gate_enabled-passes x h = elim (Option-cases (auth_proxy_error wire request (auth_hostname db))) [
    | inl clear ↦ elim (Bool-cases (is_public_path request.path)) [
      | inl e ↦ inl (ground arith, e)
      | inr e ↦
          let (user, method, r, same, rank) =
            gate_user-HasRank request
              (gate_session platform wire db now request request.session_cookie).1 x ground arith in
          let (token, cookie, genuine) =
            gate_session-IsGenuine request.session_cookie user method r in
          inr (
            user,
            method,
            same,
            λ origin. record {
              token = token;
              cookie = cookie;
              genuine = genuine;
              ranked = rank;
              transport = clear;
              origin = origin;
            },
          )
    ]
    | inr (error, e) ↦ absurd (ground arith)
  ]

  -- Where the request may go on without a user
  unfoldable pub IsOpen : Type 0
  IsOpen =
      (is_public_path request.path ≡ true)
      ⊎ ((onboarding_state db ≡ "pending") × (request.path ≡ codes "/onboarding"))

  abbrev setup : Verdict
  setup =
      if is_static request.path
        || contains request.path legal_paths
        || request.path == codes "/onboarding"
      then passes none
      else or_redirect request 503

  setup-passes :
      (x : Option (User × String))
      → onboarding_state db ≡ "pending"
      → setup ≡ passes x
      → (x ≡ none) × IsOpen
  unfolding IsOpen
  setup-passes x pending h =
      let (same, reason) = or_passes _ _ _ request x h in
      (
        same,
        elim reason [
          | inl a ↦ inl (is_public_path-static request.path a)
          | inr (inl b) ↦ inl (is_public_path-legal request.path b)
          | inr (inr c) ↦ inr (pending, eq_of_beq request.path (codes "/onboarding") c)
        ],
      )

  -- With authentication enabled, a request other than a health check that the gate hands on has an
  -- admissible origin. Either it goes on without a user, to a public path or, while the onboarding
  -- is pending, to its page; or it goes on as a user whose unexpired session the request's cookie
  -- names, whose rank is at least that of the route's role, and whose request came over the
  -- configured HTTPS origin.
  pub auth_gating_middleware-IsAdmitted :
      (environment : Text) (x : Option (User × String))
      → auth_enabled db environment ≡ true
      → contains request.path operational_paths ≡ false
      → (auth_gating_middleware platform wire db environment now request).1 ≡ passes x
      → (unsafe_request_has_invalid_origin wire request ≡ false)
        × (((x ≡ none) × IsOpen)
            ⊎ ((user : User) × (method : String) × (x ≡ some (user, method))
                × IsAdmitted user method))
  unfolding auth_gating_middleware Outcome IsOpen
  auth_gating_middleware-IsAdmitted environment x enabled other h =
      elim (outcome (contains request.path operational_paths)
        (unsafe_request_has_invalid_origin wire request)
        (onboarding_state db == "pending" && not (auth_disabled_by_environment environment))
        (not (auth_enabled db environment)) _ _ _ _ _ (passes x) h) [
          | inl (a, r) ↦ absurd (ground arith)
          | inr (inl (b, r)) ↦ absurd (ground arith)
          | inr (inr (inl (b, c, r))) ↦ (
            b,
            inl (setup-passes x (eq_of_beq (onboarding_state db) "pending" (and_left _ _ c)) r),
          )
          | inr (inr (inr (inl (b, d, r)))) ↦ absurd (ground arith)
          | inr (inr (inr (inr (b, d, r)))) ↦ (
            b,
            elim (gate_enabled-passes x r) [
              | inl (none', public) ↦ inl (none', inl public)
              | inr (user, method, same, admitted) ↦ inr (user, method, same, admitted b)
            ],
          )
        ]
