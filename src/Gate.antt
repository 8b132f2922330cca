-- ===== src/Gate.antt =====
-- backend/app/web/auth.py: the gate that every HTTP request passes before a route handles it.
--
-- `Origins.Wire` holds what the code asks of `urllib.parse`, `ipaddress` and the IDNA codec, for the texts
-- that `urlparse` can read. A request's query string, the headers that are added to a response and
-- the database session's opening are left out.
pub mod Permissions
pub mod Origins
pub mod Roles
pub mod Passage
use open_sec_dash.Prelude.{
  ℕ, ◌≤◌, String, Bool, true, false, not, ◌&&◌, ◌||◌, Option, none, some, List, [], ◌∷◌, ◌==◌, ◌++◌,
  nat_eq, string_eq, contains, any, length, is_some, ltb, leb, if◌then◌else◌,
}
use open_sec_dash.Prelude.Text.{Text, text_eq, codes, strip, lower, split}
use open_sec_dash.Gate.Origins.{
  Wire, Request, auth_proxy_error, unsafe_request_has_invalid_origin, websocket_origin_is_valid,
}
use open_sec_dash.Database.{User, Database, get_setting_value}
use open_sec_dash.Auth.{
  Platform, auth_disabled_by_environment, auth_enabled, resolve_session_with_method,
}
use open_sec_dash.Gate.Permissions.{required_role}

abbrev pub operational_paths : List Text
operational_paths = codes "/health" ∷ codes "/ready" ∷ []

abbrev pub legal_paths : List Text
legal_paths =
    codes "/legal"
    ∷ codes "/legal/project-license"
    ∷ codes "/legal/source"
    ∷ codes "/legal/third-party-notices"
    ∷ []

abbrev pub public_paths : List Text
public_paths =
    codes "/login"
    ∷ codes "/auth/oidc/login"
    ∷ codes "/auth/oidc/callback"
    ∷ codes "/manifest.webmanifest"
    ∷ codes "/sw.js"
    ∷ legal_paths

abbrev begins_with : Text → Text → Bool
begins_with [] value = true
begins_with (c ∷ p) [] = false
begins_with (c ∷ p) (d ∷ value) = c == d && begins_with p value

abbrev pub is_static : Text → Bool
is_static path = begins_with (codes "/static/") path

unfoldable pub is_public_path : Text → Bool
is_public_path path = contains path public_paths || is_static path

unfoldable pub onboarding_state : Database → String
onboarding_state db =
    let value = get_setting_value db "auth.onboarding_state" "complete" in
    if contains value ("pending" ∷ "legacy_review_required" ∷ "complete" ∷ [])
    then value
    else "complete"

-- The gate hands the request on, with the user and the method that it put into its state, or
-- answers it with a status. `crashes` is the KeyError for a role without a rank.
pub data Verdict : Type 0 where
  passes : Option (User × String) → Verdict
  answered : ℕ → Verdict
  crashes : Verdict

-- ROLE_ORDER
unfoldable pub role_order : String → Option ℕ
role_order role =
    if role == "viewer"
    then some 0
    else if role == "operator"
    then some 1
    else if role == "admin"
    then some 2
    else none

unfoldable pub with_ranks : User → String → Option ℕ → Option ℕ → Verdict
with_ranks user method none required = crashes
with_ranks user method (some rank) none = crashes
with_ranks user method (some rank) (some required) =
    if ltb rank required then answered 403 else passes (some (user, method))

-- JSON is refused with the status, a browser is sent to another page.
abbrev pub or_redirect : Request → ℕ → Verdict
or_redirect request status = if request.wants_json then answered status else answered 303

unfoldable pub gate_user : Request → Option (User × String) → Verdict
unfolding with_ranks
gate_user request none = or_redirect request 401
gate_user request (some (user, method)) =
    with_ranks user method (role_order user.role)
      (role_order (required_role request.method request.path))

abbrev pub auth_hostname : Database → Text
auth_hostname db = codes (get_setting_value db "auth.hostname" "")

module _ (platform : Platform) (wire : Wire) where
  unfoldable pub gate_session :
      Database → ℕ → Request → Option String → Database × Option (User × String)
  gate_session db now request none = (db, none)
  gate_session db now request (some token) =
      if token == "" then (db, none) else resolve_session_with_method platform db token now

  unfoldable pub gate_enabled : Database → ℕ → Request → Database × Verdict
  unfolding gate_user
  gate_enabled db now request =
      let (db', resolved) = gate_session db now request request.session_cookie in
      let hostname = auth_hostname db in
      if is_some (auth_proxy_error wire request hostname)
      then (db, answered 403)
      else if is_public_path request.path
      then (db, passes none)
      else (db', gate_user request resolved)

  -- `environment` is OSD_AUTH_DISABLED.
  unfoldable pub auth_gating_middleware : Database → Text → ℕ → Request → Database × Verdict
  auth_gating_middleware db environment now request =
      let break_glass = auth_disabled_by_environment environment in
      let setup =
        if is_static request.path
          || contains request.path legal_paths
          || request.path == codes "/onboarding"
        then passes none
        else or_redirect request 503 in
      if contains request.path operational_paths
      then (db, passes none)
      else if unsafe_request_has_invalid_origin wire request
      then (db, answered 403)
      else if onboarding_state db == "pending" && not break_glass
      then (db, setup)
      else if not (auth_enabled db environment)
      then (db, passes none)
      else gate_enabled db now request

  session_is_valid : Database × Option (User × String) → Database × Bool
  session_is_valid (db, resolved) = (db, is_some resolved)

  -- `_websocket_session_is_valid` of backend/app/main.py; a request without the cookie has the
  -- token "".
  unfoldable pub websocket_session_is_valid :
      Database → Text → ℕ → Request → String → Database × Bool
  unfolding session_is_valid
  websocket_session_is_valid db environment now request token =
      let hostname = auth_hostname db in
      if onboarding_state db == "pending" && not (auth_disabled_by_environment environment)
      then (db, false)
      else if not (auth_enabled db environment)
      then (db, true)
      else if is_some (auth_proxy_error wire request hostname)
          || not (websocket_origin_is_valid wire request hostname)
      then (db, false)
      else session_is_valid (resolve_session_with_method platform db token now)
