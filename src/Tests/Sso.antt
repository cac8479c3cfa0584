-- ===== src/Tests/Sso.antt =====
-- Sign-in by an identity provider, and held mail.
use tetra_host.Prelude.{
  true, false, ◌≡◌, refl, none, some, [], ◌∷◌, err, count, first, select, update, delete,
  newest_first, All, inl,
}
use tetra_host.Prelude.Text.{strip, lower, contains, split, has_char, split_once, rstrip_char}
use tetra_host.Prelude.Dict.{get, put, pop}
use tetra_host.Models.{
  Db, Tenant, TenantStatus, TenantResource, TenantSsoConfig, AdminUser, no_rows, is_active_status,
  provider_mailcow, resource_type_mail_domain,
}
use tetra_host.Team.{normalize_email, get_admin_by_email}
use tetra_host.Deploys.Env.{encrypt, decrypt}
use tetra_host.Sso.{
  get_config, upsert_config, ConfigForm, is_default_role, configured, saved, allowed_domain_list,
  bad_role,
}
use tetra_host.Sso.SignIn.{
  Provider, Discovery, signed_for, document, handle_callback, sign_in, profile_of, provision, admit,
  new_member, discover, read_signed, the, is_refuted, is_domain_allowed,
}
use tetra_host.Sso.SignIn.Admits.{Admitted, Entitled, handle_callback-Admitted}
use tetra_host.Mail.{
  Mailcow, all_in_scope, is_item_in_scope, item_by_id, rcpt_in_scope, accessible_mail_scope, tidied,
  item_not_found,
}
use tetra_host.Mail.Service.{
  act_on_quarantine_for_tenant, authorize_quarantine_ids, is_empty, issue,
  list_quarantine_for_tenant,
}
use tetra_host.Mail.Quarantine.{IsShown, quarantine-IsShown}
use tetra_host.Tests.Deploys.{box}

sign_ins : Unit {0}
unfolding count first select update delete newest_first strip lower contains split has_char
    split_once rstrip_char get put pop is_active_status normalize_email get_admin_by_email encrypt
    decrypt get_config upsert_config is_default_role configured saved allowed_domain_list
    handle_callback sign_in profile_of provision admit new_member discover read_signed the
    is_refuted is_domain_allowed act_on_quarantine_for_tenant authorize_quarantine_ids all_in_scope
    is_item_in_scope item_by_id rcpt_in_scope accessible_mail_scope tidied is_empty issue
    list_quarantine_for_tenant
sign_ins = tt

abbrev doc : Discovery
doc = record {
  authorization_endpoint = "https://idp.test/auth";
  token_endpoint = some "https://idp.test/token";
  userinfo_endpoint = some "https://idp.test/me";
}

abbrev provider : Provider
provider = record {
  discover = λ _. document doc;
  exchange = λ _ _ _ _ _. some "token";
  userinfo =
      λ _ _. some (record { email = "Ada@Acme.test"; name = "Ada"; email_verified = some true });
  read_state = λ _. signed_for "t1" "https://panel.test/cb";
  box = box;
  random_hash = "hash";
}

abbrev acme : Tenant
acme = record {
  id = "t1";
  name = "Acme";
  slug = "acme";
  status = TenantStatus.active;
  plan_id = none;
  is_platform_scope = false;
  signup_ip = none;
}

abbrev config : TenantSsoConfig
config = record {
  id = "s1";
  tenant_id = "t1";
  provider_label = "IdP";
  issuer = "https://idp.test";
  client_id = "panel";
  client_secret_enc = "secret";
  allowed_domains = "acme.test, acme.example";
  default_role = "member";
  enabled = true;
}

abbrev mail_row : TenantResource
mail_row = record {
  id = "r9";
  tenant_id = "t1";
  provider = provider_mailcow;
  resource_type = resource_type_mail_domain;
  external_id = "acme.test";
  display_name = "";
  cpu_millicores = none;
  mem_mb = none;
  disk_mb = none;
}

abbrev start : Db
start = record no_rows { tenants = acme ∷ []; sso = config ∷ []; resources = mail_row ∷ [] }

abbrev ada : AdminUser
ada = record {
  id = "a1";
  tenant_id = "t1";
  email = "ada@acme.test";
  full_name = "Ada";
  password_hash = "hash";
  is_active = true;
  role = "member";
  last_login_at = none;
  totp_secret = none;
  totp_enabled = false;
  totp_backup_codes = none;
}

abbrev owner_form : ConfigForm
owner_form = record {
  issuer = "https://idp.test/";
  client_id = "panel";
  client_secret = none;
  allowed_domains = "";
  default_role = "owner";
  provider_label = "";
  enabled = true;
}

no_owner : upsert_config box "s2" "t1" owner_form start ≡ err bad_role
unfolding sign_ins
no_owner = refl

handle_callback-Admitted_example :
    (tenant : Tenant) × (c : TenantSsoConfig) × (provider.read_state "state"
      ≡ signed_for tenant.id "https://panel.test/cb")
    × (is_active_status tenant.status ≡ true)
    × (get_config tenant.id start ≡ some c)
    × (c.enabled ≡ true)
    × Entitled provider "a1" c ada.email
    × Admitted tenant c ada.email ada start (record start { admins = ada ∷ [] })
handle_callback-Admitted_example =
    handle_callback-Admitted provider "a1" "code" "state" "https://panel.test/cb" [] start
      {admin = ada} {after = record start { admins = ada ∷ [] }}
      {kept = ("https://idp.test", doc) ∷ []} (unfold sign_ins in refl)

abbrev mailcow : Mailcow
mailcow = record {
  succeeds = λ _. true;
  is_configured = true;
  aliases = [];
  quarantine =
      record { id = 7; rcpt = "Bob@Acme.test " } ∷ record { id = 8; rcpt = "eve@other.test" } ∷ [];
  app_passwords = λ _. [];
  like = λ _ _. false;
}

foreign :
    act_on_quarantine_for_tenant true mailcow (some "t1") (8 ∷ []) "release" start
    ≡ err item_not_found
unfolding sign_ins
foreign = refl

quarantine-IsShown_example : All (IsShown mailcow "t1" start) (7 ∷ [])
quarantine-IsShown_example =
    quarantine-IsShown true mailcow "t1" start (7 ∷ []) "release" (inl (unfold sign_ins in refl))
