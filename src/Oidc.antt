-- ===== src/Oidc.antt =====
-- backend/app/services/oidc.py: the stored provider configuration, the password sign-in switch and
-- the check that some administrator can still sign in. Discovery over HTTP is not modelled.
pub mod Reachability
use open_sec_dash.Prelude.{
  ℕ, String, Bool, true, false, not, ◌&&◌, Option, none, some, ◌==◌, string_eq, nat_eq, is_some,
  if◌then◌else◌,
}
use open_sec_dash.Database.{User, ExternalIdentity, Database, get_setting_value}
use open_sec_dash.Auth.{
  is_admin, has_issuer, active_admin_count, active_oidc_admin_count, find_user_external_identity,
}

pub record OidcConfig : Type 0 where
  pub enabled : Bool
  pub discovery_url : String
  pub client_id : String
  pub client_secret : String
  pub jit_enabled : Bool
  pub issuer : String

-- The truth value of a string.
abbrev pub nonempty : String → Bool
nonempty s = not (s == "")

unfoldable pub complete : OidcConfig → Bool
complete c = nonempty c.discovery_url && nonempty c.client_id && nonempty c.client_secret

unfoldable pub load_config : Database → OidcConfig
load_config db = record {
  enabled = get_setting_value db "auth.oidc.enabled" "false" == "true";
  discovery_url = get_setting_value db "auth.oidc.discovery_url" "";
  client_id = get_setting_value db "auth.oidc.client_id" "";
  client_secret = get_setting_value db "auth.oidc.client_secret" "";
  jit_enabled = get_setting_value db "auth.oidc.jit_enabled" "false" == "true";
  issuer = get_setting_value db "auth.oidc.issuer" "";
}

unfoldable pub password_login_enabled : Database → Bool
password_login_enabled db = get_setting_value db "auth.password_login_enabled" "true" == "true"

unfoldable pub oidc_login_available : OidcConfig → Bool
unfolding complete
oidc_login_available config = config.enabled && complete config && nonempty config.issuer

unfoldable pub effective_password_login_enabled : Database → Bool
effective_password_login_enabled db =
    if not (oidc_login_available (load_config db)) then true else password_login_enabled db

-- The change that a request is about to make to a user: what the keyword arguments give.
pub record Change : Type 0 where
  pub role : Option String
  pub is_active : Option Bool
  pub keeps_identity : Bool
  pub deleted : Bool

abbrev pub no_change : Change
no_change = record { role = none; is_active = none; keeps_identity = true; deleted = false }

abbrev or_current {ℓ} : {A : Type ℓ} → Option A → A → A
or_current none a = a
or_current (some b) a = b

abbrev pub stays_admin : User → Change → Bool
stays_admin user change =
    or_current change.role user.role == "admin"
    && (if change.deleted then false else or_current change.is_active user.is_active)

unfoldable pub admin_reachability_error : Database → User → Change → Option String
admin_reachability_error db user change =
    let issuer = (load_config db).issuer in
    let linked = has_issuer issuer (find_user_external_identity db user.id "oidc") in
    let reachable_now = is_admin user && linked in
    let reachable_after = stays_admin user change && change.keeps_identity && linked in
    if is_admin user && not (stays_admin user change) && active_admin_count db (some user.id) == 0
    then some "last_admin"
    else if effective_password_login_enabled db
    then none
    else if reachable_now
        && not reachable_after
        && active_oidc_admin_count db issuer (some user.id) == 0
    then some "last_oidc_admin"
    else none
