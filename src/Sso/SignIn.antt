-- ===== src/Sso/SignIn.antt =====
-- app/modules/sso/service.py: the sign-in by the identity provider of a tenant.
pub mod Admits
use tetra_host.Prelude.{
  ℕ, String, Bool, true, false, not, ◌&&◌, ◌||◌, ◌==◌, Option, none, some, List, [], ◌∷◌, Result,
  ok, err, ◌>>=◌, ◌>>◌, if◌then◌else◌, first, insert, update, delete,
}
use tetra_host.Prelude.Text.{
  strip, lower, rstrip_char, split, contains, has_char, split_once, starts_with,
}
use tetra_host.Prelude.Dict
use tetra_host.Prelude.Dict.{Dict}
use Prim.Native.Char.{Char, char}
use Prim.Native.String
use tetra_host.Models.{Db, Tenant, TenantSsoConfig, AdminUser, is_active_status}
use tetra_host.Team.{normalize_email, get_admin_by_email}
use tetra_host.Deploys.{Box}
use tetra_host.Deploys.Env.{encrypt, decrypt}
use tetra_host.Sso.{
  SsoError, require, get_config, allowed_domain_list, incomplete_config, bad_role, no_code,
  state_expired, bad_state, redirect_mismatch, not_enabled, inactive_workspace,
  unreachable_provider, invalid_discovery, key_error, rejected, no_token, no_profile, no_email,
  unverified_email, foreign_domain, other_workspace, deactivated,
}

pub record Discovery : Type 0 where
  pub authorization_endpoint : String
  pub token_endpoint : Option String
  pub userinfo_endpoint : Option String

pub data Fetched : Type 0 where
  unreachable invalid : Fetched
  document : Discovery → Fetched

pub record Profile : Type 0 where
  pub email : String
  pub name : String
  pub email_verified : Option Bool

-- a signed state that is read back
pub data StateRead : Type 0 where
  expired forged : StateRead
  signed_for : (tenant_id redirect_uri : String) → StateRead

-- the world as a sign-in meets it
pub record Provider : Type 0 where
  pub discover : String → Fetched
  -- the token for a code, empty where the answer holds none, and nothing where the call raises
  pub exchange : (url code redirect_uri client_id client_secret : String) → Option String
  pub userinfo : (url token : String) → Option Profile
  pub read_state : String → StateRead
  pub box : Box
  -- the hash of a random password
  pub random_hash : String

fetched : Fetched → Result SsoError Discovery
fetched unreachable = err unreachable_provider
fetched invalid = err invalid_discovery
fetched (document doc) = ok doc

-- `_discovery_cache` is an argument, and given back with what was fetched.
cached :
    Provider
    → String
    → Dict Discovery
    → Option Discovery
    → Result SsoError (Discovery × Dict Discovery)
unfolding fetched
cached p issuer cache (some doc) = ok (doc, cache)
cached p issuer cache none = do
  doc ← fetched (p.discover issuer)
  ok (doc, Dict.put issuer doc cache)

unfoldable pub discover :
    Provider → String → Dict Discovery → Result SsoError (Discovery × Dict Discovery)
unfolding cached
discover p issuer cache = cached p issuer cache (Dict.get issuer cache)

unfoldable pub the {ℓ} : {A : Type ℓ} → SsoError → Option A → Result SsoError A
the e none = err e
the e (some a) = ok a

unfoldable pub read_signed : StateRead → Result SsoError (String × String)
read_signed expired = err state_expired
read_signed forged = err bad_state
read_signed (signed_for t r) = ok (t, r)

unfoldable pub is_refuted : Option Bool → Bool
is_refuted (some false) = true
is_refuted _ = false

unfoldable pub is_domain_allowed : List String → String → Bool
is_domain_allowed [] email = true
is_domain_allowed (d ∷ ds) email = contains (d ∷ ds) (split_once 64 email).1

module _ (p : Provider) (id : String) where
  unfoldable pub new_member : Tenant → TenantSsoConfig → String → String → AdminUser
  new_member tenant config email name = record {
    id = id;
    tenant_id = tenant.id;
    email = email;
    full_name = if strip name == "" then email else strip name;
    password_hash = p.random_hash;
    is_active = true;
    role = config.default_role;
    last_login_at = none;
    totp_secret = none;
    totp_enabled = false;
    totp_backup_codes = none;
  }

  unfoldable pub admit :
      Tenant
      → TenantSsoConfig
      → String
      → String
      → Option AdminUser
      → Db
      → Result SsoError (AdminUser × Db)
  admit tenant config email name (some existing) db =
      if not (existing.tenant_id == tenant.id)
      then err other_workspace
      else if not existing.is_active
      then err deactivated
      else ok (existing, db)
  admit tenant config email name none db =
      let admin = new_member tenant config email name in
      ok (admin, record db { admins = insert admin db.admins })

  -- `_provision`
  unfoldable pub provision :
      Tenant → TenantSsoConfig → String → String → Db → Result SsoError (AdminUser × Db)
  provision tenant config email name db =
      admit tenant config email name (get_admin_by_email email db) db

  -- the part of the callback that asks the provider who signs in
  unfoldable pub profile_of :
      TenantSsoConfig
      → String
      → String
      → Dict Discovery
      → Result SsoError (Profile × Dict Discovery)
  unfolding the
  profile_of config code redirect_uri cache = do
    found ← discover p config.issuer cache
    let (doc, kept) = found
    token_url ← the key_error doc.token_endpoint
    token ← the rejected (
        p.exchange token_url code redirect_uri config.client_id
          (decrypt p.box config.client_secret_enc))
    require (not (token == "")) no_token
    userinfo_url ← the key_error doc.userinfo_endpoint
    profile ← the no_profile (p.userinfo userinfo_url token)
    ok (profile, kept)

  -- the part of the callback behind the checks of the state, the settings and the tenant
  unfoldable pub sign_in :
      Tenant
      → TenantSsoConfig
      → String
      → String
      → Dict Discovery
      → Db
      → Result SsoError (AdminUser × Db × Dict Discovery)
  unfolding is_refuted
  sign_in tenant config code redirect_uri cache db = do
    answer ← profile_of config code redirect_uri cache
    let email = normalize_email answer.0.email
    require (not (email == "") && has_char 64 email) no_email
    require (not (is_refuted answer.0.email_verified)) unverified_email
    require (is_domain_allowed (allowed_domain_list config) email) foreign_domain
    admitted ← provision tenant config email answer.0.name db
    ok (admitted.0, admitted.1, answer.1)

  unfoldable pub handle_callback :
      String
      → String
      → String
      → Dict Discovery
      → Db
      → Result SsoError (AdminUser × Db × Dict Discovery)
  unfolding the
  handle_callback code state redirect_uri cache db = do
    require (not (code == "") && not (state == "")) no_code
    payload ← read_signed (p.read_state state)
    require (payload.1 == redirect_uri) redirect_mismatch
    config ← the not_enabled (get_config payload.0 db)
    require config.enabled not_enabled
    tenant ← the inactive_workspace (first (λ t. t.id == payload.0) db.tenants)
    require (is_active_status tenant.status) inactive_workspace
    sign_in tenant config code redirect_uri cache db
