-- ===== src/Models/People.antt =====
-- app/models/admin.py, team.py and api_token.py.
use tetra_host.Prelude.{ℕ, String, Bool, true, false, Option, none, some, ◌+◌, ◌*◌, ◌&&◌, ltb}

abbrev pub role_platform_admin : String
role_platform_admin = "platform_admin"

abbrev pub role_owner : String
role_owner = "owner"

abbrev pub role_admin : String
role_admin = "admin"

abbrev pub role_member : String
role_member = "member"

-- `totp_backup_codes` is the JSON text of the column.
pub record AdminUser : Type 0 where
  pub id : String
  pub tenant_id : String
  pub email : String
  pub full_name : String
  pub password_hash : String
  pub is_active : Bool
  pub role : String
  pub last_login_at : Option ℕ
  pub totp_secret : Option String
  pub totp_enabled : Bool
  pub totp_backup_codes : Option String

pub data InviteStatus : Type 0 where
  pending accepted revoked : InviteStatus

unfoldable pub is_pending : InviteStatus → Bool
is_pending InviteStatus.pending = true
is_pending _ = false

pub record TenantInvite : Type 0 where
  pub id : String
  pub tenant_id : String
  pub email : String
  pub role : String
  pub token_hash : String
  pub status : InviteStatus
  pub invited_by_id : Option String
  pub accepted_admin_id : Option String
  pub expires_at : Option ℕ
  pub accepted_at : Option ℕ

abbrev pub microseconds_per_day : ℕ
microseconds_per_day = 86400000000

-- default_expiry
unfoldable pub default_expiry : ℕ → ℕ
default_expiry now = now + 14 * microseconds_per_day

-- expires is None or expires > moment
unfoldable pub is_unexpired : Option ℕ → ℕ → Bool
is_unexpired none now = true
is_unexpired (some t) now = ltb now t

-- TenantInvite.is_redeemable
unfoldable pub is_redeemable : TenantInvite → ℕ → Bool
unfolding is_pending is_unexpired
is_redeemable invite now = is_pending invite.status && is_unexpired invite.expires_at now

pub record ApiToken : Type 0 where
  pub id : String
  pub tenant_id : String
  pub admin_user_id : String
  pub name : String
  pub scope : String
  pub prefix : String
  pub token_hash : String
  pub last_used_at : Option ℕ
  pub expires_at : Option ℕ
  pub revoked : Bool

-- app/models/sso.py
pub record TenantSsoConfig : Type 0 where
  pub id : String
  pub tenant_id : String
  pub provider_label : String
  pub issuer : String
  pub client_id : String
  pub client_secret_enc : String
  pub allowed_domains : String
  pub default_role : String
  pub enabled : Bool
