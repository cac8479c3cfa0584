-- ===== src/Team.antt =====
-- app/modules/team/service.py: the members of a tenant and the invitations to it. The hashes of
-- tokens and of passwords are parameters; the random token and the ids of the rows are arguments.
-- A new random token is taken to be new, and the row of an object is the one with its id.
pub mod Effects
pub mod Calls
pub mod Owners
pub mod Roles
pub mod Invites
pub mod Pending
use tetra_host.Prelude.{
  ℕ, String, Bool, true, false, not, ◌&&◌, ◌||◌, ◌==◌, Option, none, some, List, [], ◌∷◌, ◌++◌,
  Result, ok, err, ◌>>=◌, ◌>>◌, ltb, leb, if◌then◌else◌, first, insert, select, update, count,
  newest_first,
}
use tetra_host.Prelude.Text
use tetra_host.Prelude.Text.{strip, lower, contains, has_char}
use tetra_host.Models.{
  Db, AdminUser, TenantInvite, InviteStatus, is_pending, is_redeemable, default_expiry, role_owner,
  role_platform_admin, role_admin, role_member,
}

pub record TeamError : Type 0 where
  pub message : String
  pub status_code : ℕ

abbrev pub bad_request : String → TeamError
bad_request message = record { message = message; status_code = 400 }

abbrev pub invitable_roles : List String
invitable_roles = role_admin ∷ role_member ∷ []

-- AuthService.normalize_email
unfoldable pub normalize_email : String → String
normalize_email email = lower (strip email)

unfoldable pub get_admin_by_email : String → Db → Option AdminUser
unfolding normalize_email
get_admin_by_email email db = first (λ a. a.email == normalize_email email) db.admins

unfoldable pub validate_password : String → Result String (Unit {0})
validate_password password =
    if ltb (Text.length password) 10
    then err "Password must be at least 10 characters long."
    else ok tt

-- what a guard that raises lets through
abbrev pub require : Bool → TeamError → Result TeamError (Unit {0})
require true e = ok tt
require false e = err e

abbrev pub found {ℓ} : {A : Type ℓ} → Option A → TeamError → Result TeamError A
found none e = err e
found (some a) e = ok a

-- Reads
unfoldable pub list_members : String → Db → List AdminUser
list_members tenant_id db = select (λ a. a.tenant_id == tenant_id) db.admins

unfoldable pub list_invites : String → Db → List TenantInvite
list_invites tenant_id db =
    newest_first (select (λ i. i.tenant_id == tenant_id && is_pending i.status) db.invites)

abbrev pub is_active_owner : String → AdminUser → Bool
is_active_owner tenant_id a = a.tenant_id == tenant_id && a.role == role_owner && a.is_active

unfoldable pub active_owner_count : String → Db → ℕ
active_owner_count tenant_id db = count (is_active_owner tenant_id) db.admins

abbrev pub member_not_found : TeamError
member_not_found = record { message = "Member not found."; status_code = 404 }

unfoldable pub member_in_tenant : String → String → Db → Result TeamError AdminUser
member_in_tenant tenant_id member_id db =
    found (first (λ a. a.id == member_id && a.tenant_id == tenant_id) db.admins) member_not_found

-- Invites
abbrev pub invitable : String → Result TeamError (Unit {0})
invitable role =
    require (contains invitable_roles role) (bad_request "Role must be 'admin' or 'member'.")

not_registered : String → Option AdminUser → Result TeamError (Unit {0})
not_registered tenant_id none = ok tt
not_registered tenant_id (some a) = do
  require (not (a.tenant_id == tenant_id && a.is_active))
      (bad_request "That person is already on your team.")
  require (a.tenant_id == tenant_id)
      (bad_request "That email is already registered to another account.")

abbrev pub set_status : InviteStatus → TenantInvite → TenantInvite
set_status s invite = record invite { status = s }

abbrev pub is_pending_for : String → String → TenantInvite → Bool
is_pending_for tenant_id email i =
    i.tenant_id == tenant_id && i.email == email && is_pending i.status

module _ (hash_token : String → String) where
  abbrev pub new_invite : String → String → String → String → String → String → ℕ → TenantInvite
  new_invite id tenant_id email role raw_token inviter_id now = record {
    id = id;
    tenant_id = tenant_id;
    email = email;
    role = role;
    token_hash = hash_token raw_token;
    status = InviteStatus.pending;
    invited_by_id = some inviter_id;
    accepted_admin_id = none;
    expires_at = some (default_expiry now);
    accepted_at = none;
  }

  unfoldable pub create_invite :
      String
      → String
      → ℕ
      → String
      → AdminUser
      → String
      → String
      → Db
      → Result TeamError (TenantInvite × String × Db)
  unfolding not_registered
  create_invite id raw_token now tenant_id inviter email role db = do
    let role = lower (strip role)
    invitable role
    let normalized = normalize_email email
    require (not (normalized == "") && has_char 64 normalized)
        (bad_request "A valid email is required.")
    not_registered tenant_id (get_admin_by_email normalized db)
    let prior =
        update (is_pending_for tenant_id normalized) (set_status InviteStatus.revoked) db.invites
    let invite = new_invite id tenant_id normalized role raw_token inviter.id now
    ok (invite, raw_token, record db { invites = insert invite prior })

  unfoldable pub peek_invite : String → ℕ → Db → Option TenantInvite
  peek_invite raw_token now db =
      elim (first (λ i. i.token_hash == hash_token raw_token) db.invites) [
        | none ↦ none
        | some invite ↦ if is_redeemable invite now then some invite else none
      ]

  abbrev pub invalid_invite : TeamError
  invalid_invite = record {
    message = "This invite link is invalid or has expired.";
    status_code = 404;
  }

  abbrev pub account_exists : TeamError
  account_exists = record {
    message = "An account already exists for this email.";
    status_code = 409;
  }

  abbrev pub unprocessable : Result String (Unit {0}) → Result TeamError (Unit {0})
  unprocessable (ok u) = ok u
  unprocessable (err m) = err (record { message = m; status_code = 422 })

  abbrev pub is_absent {ℓ} : {A : Type ℓ} → Option A → Bool
  is_absent none = true
  is_absent (some _) = false

  -- the flush of a new account: its email and its id are unique
  add_admin : AdminUser → Db → Result TeamError Db
  add_admin admin db = do
    require (is_absent (first (λ a. a.id == admin.id || a.email == admin.email) db.admins))
        account_exists
    ok (record db { admins = insert admin db.admins })

  module _ (hash_password : String → String) where
    abbrev pub invitee : String → TenantInvite → String → String → AdminUser
    invitee id invite full_name password = record {
      id = id;
      tenant_id = invite.tenant_id;
      email = invite.email;
      full_name = (let name = strip full_name in if name == "" then invite.email else name);
      password_hash = hash_password password;
      is_active = true;
      role = invite.role;
      last_login_at = none;
      totp_secret = none;
      totp_enabled = false;
      totp_backup_codes = none;
    }

    abbrev pub set_accepted : String → ℕ → TenantInvite → TenantInvite
    set_accepted admin_id now invite = record invite {
      status = InviteStatus.accepted;
      accepted_admin_id = some admin_id;
      accepted_at = some now;
    }

    unfoldable pub accept_invite :
        String → ℕ → String → String → String → Db → Result TeamError (AdminUser × Db)
    unfolding add_admin
    accept_invite id now raw_token full_name password db = do
      invite ← found (peek_invite raw_token now db) invalid_invite
      require (is_absent (get_admin_by_email invite.email db)) account_exists
      unprocessable (validate_password password)
      let admin = invitee id invite full_name password
      db₁ ← add_admin admin db
      ok (
        admin,
        record db₁ { invites = update (λ i. i.id == invite.id) (set_accepted id now) db₁.invites },
      )

unfoldable pub revoke_invite : String → String → Db → Result TeamError Db
revoke_invite tenant_id invite_id db = do
  invite ←
      found (first (λ i. i.id == invite_id && i.tenant_id == tenant_id) db.invites)
        (record { message = "Invite not found."; status_code = 404 })
  require (is_pending invite.status) (bad_request "Invite is no longer pending.")
  ok (record db {
    invites = update (λ i. i.id == invite.id) (set_status InviteStatus.revoked) db.invites;
  })

-- Members
forbidden : String → TeamError
forbidden message = record { message = message; status_code = 403 }

-- `not (member.role == ROLE_OWNER and active owners <= 1)`
abbrev pub keeps_an_owner : String → AdminUser → Db → Bool
keeps_an_owner tenant_id member db =
    not (member.role == role_owner && leb (active_owner_count tenant_id db) 1)

abbrev pub set_role : String → AdminUser → AdminUser
set_role role a = record a { role = role }

unfoldable pub change_role : String → String → String → Db → Result TeamError (AdminUser × Db)
unfolding forbidden
change_role tenant_id member_id role db = do
  let role = lower (strip role)
  invitable role
  member ← member_in_tenant tenant_id member_id db
  require (not (member.role == role_platform_admin))
      (forbidden "Platform staff roles are managed separately.")
  require (keeps_an_owner tenant_id member db)
      (bad_request "A tenant must keep at least one owner.")
  ok (
    set_role role member,
    record db { admins = update (λ a. a.id == member.id) (set_role role) db.admins },
  )

abbrev pub deactivate : AdminUser → AdminUser
deactivate a = record a { is_active = false }

unfoldable pub remove_member : String → String → AdminUser → Db → Result TeamError (AdminUser × Db)
unfolding forbidden
remove_member tenant_id member_id acting_admin db = do
  member ← member_in_tenant tenant_id member_id db
  require (not (member.id == acting_admin.id)) (bad_request "You cannot remove yourself.")
  require (not (member.role == role_platform_admin))
      (forbidden "Platform staff are managed separately.")
  require (keeps_an_owner tenant_id member db)
      (bad_request "A tenant must keep at least one owner.")
  ok (
    deactivate member,
    record db { admins = update (λ a. a.id == member.id) deactivate db.admins },
  )
