-- ===== src/Sso.antt =====
-- app/modules/sso/service.py: sign-in by a tenant's own identity provider. The provider's answers, the
-- signed state of a sign-in, the Fernet box, the hash of a password and random texts are arguments.
pub mod SignIn
use tetra_host.Prelude.{
  ℕ, String, Bool, true, false, not, ◌&&◌, ◌||◌, ◌==◌, Option, none, some, List, [], ◌∷◌, Result,
  ok, err, ◌>>=◌, ◌>>◌, if◌then◌else◌, first, insert, update, delete,
}
use tetra_host.Prelude.Text.{
  strip, lower, rstrip_char, split, contains, has_char, split_once, starts_with,
}
use tetra_host.Prelude.Dict
use tetra_host.Prelude.Dict.{Dict}
use Prim.Native.Char.{Char, char}
use Prim.Native.String
use tetra_host.Models.{Db, Tenant, TenantSsoConfig, AdminUser, is_active_status}
use tetra_host.Team.{normalize_email, get_admin_by_email}
use tetra_host.Deploys.{Box}
use tetra_host.Deploys.Env.{encrypt, decrypt}

pub data SsoError : Type 0 where
  incomplete_config bad_role no_code state_expired bad_state redirect_mismatch not_enabled :
      SsoError
  inactive_workspace unreachable_provider invalid_discovery key_error rejected no_token : SsoError
  no_profile no_email unverified_email foreign_domain other_workspace deactivated : SsoError
  invalid_redirect unknown_workspace : SsoError

abbrev pub require : Bool → SsoError → Result SsoError (Unit {0})
require true e = ok tt
require false e = err e

unfoldable pub get_config : String → Db → Option TenantSsoConfig
get_config tenant_id db = first (λ c. c.tenant_id == tenant_id) db.sso

-- what a call of `upsert_config` sets
pub record ConfigForm : Type 0 where
  pub issuer : String
  pub client_id : String
  pub client_secret : Option String
  pub allowed_domains : String
  pub default_role : String
  pub provider_label : String
  pub enabled : Bool

unfoldable pub is_default_role : String → Bool
is_default_role role = contains ("member" ∷ "admin" ∷ []) role

new_secret : Box → Option String → String → String
new_secret box none kept = kept
new_secret box (some secret) kept = if secret == "" then kept else encrypt box secret

label_or : String → String
label_or label = strip (if label == "" then "OpenID Connect" else label)

unfoldable pub configured : Box → ConfigForm → TenantSsoConfig → TenantSsoConfig
unfolding new_secret label_or
configured box form c = record c {
  issuer = rstrip_char 47 (strip form.issuer);
  client_id = strip form.client_id;
  client_secret_enc = new_secret box form.client_secret c.client_secret_enc;
  allowed_domains = strip form.allowed_domains;
  default_role = form.default_role;
  provider_label = label_or form.provider_label;
  enabled = form.enabled;
}

abbrev pub fresh_config : String → String → TenantSsoConfig
fresh_config id tenant_id = record {
  id = id;
  tenant_id = tenant_id;
  provider_label = "OpenID Connect";
  issuer = "";
  client_id = "";
  client_secret_enc = "";
  allowed_domains = "";
  default_role = "member";
  enabled = false;
}

unfoldable pub saved :
    Box
    → String
    → String
    → ConfigForm
    → Option TenantSsoConfig
    → List TenantSsoConfig
    → List TenantSsoConfig
saved box id tenant_id form none rows =
    insert (configured box form (fresh_config id tenant_id)) rows
saved box id tenant_id form (some c) rows = update (λ x. x.id == c.id) (configured box form) rows

unfoldable pub upsert_config : Box → String → String → ConfigForm → Db → Result SsoError Db
upsert_config box id tenant_id form db = do
  let issuer = rstrip_char 47 (strip form.issuer)
  require (not (form.enabled && (issuer == "" || form.client_id == ""))) incomplete_config
  require (is_default_role form.default_role) bad_role
  ok (record db { sso = saved box id tenant_id form (get_config tenant_id db) db.sso })

delete_found : Option TenantSsoConfig → Db → Db
delete_found none db = db
delete_found (some c) db = record db { sso = delete (λ x. x.id == c.id) db.sso }

unfoldable pub delete_config : String → Db → Db
unfolding delete_found
delete_config tenant_id db = delete_found (get_config tenant_id db) db

lowered : List String → List String
lowered [] = []
lowered (d ∷ ds) = let rest = lowered ds in if strip d == "" then rest else lower (strip d) ∷ rest

-- TenantSSOConfig.allowed_domain_list
unfoldable pub allowed_domain_list : TenantSsoConfig → List String
unfolding lowered
allowed_domain_list c = lowered (split (char 44 tt) c.allowed_domains)
