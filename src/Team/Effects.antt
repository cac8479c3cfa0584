-- ===== src/Team/Effects.antt =====
-- What each call has written when it returns, with what it must have found first.
use tetra_host.Prelude.{
  Option-cases, inl, inr, ℕ, String, Bool, true, false, ◌≡◌, ◌==◌, ◌&&◌, ◌||◌, refl, Option, none,
  some, ok, first, insert, update, arith,
}
use tetra_host.Prelude.Text.{strip, lower, contains}
use tetra_host.Models.{Db, AdminUser, TenantInvite, InviteStatus, role_platform_admin}
use tetra_host.Team.{
  TeamError, require, found, invitable_roles, normalize_email, member_in_tenant, keeps_an_owner,
  set_role, set_status, deactivate, change_role, remove_member, create_invite, revoke_invite,
  accept_invite, peek_invite, new_invite, invitee, is_pending_for, set_accepted, add_admin,
  is_absent, not_registered,
}

require_passed : (b : Bool) (e : TeamError) {u : Unit {0}} → require b e ≡ ok u → b ≡ true
require_passed true e h = refl
require_passed false e h = cc

found-some {ℓ} : {A : Type ℓ} (o : Option A) (e : TeamError) {a : A} → found o e ≡ ok a → o ≡ some a
found-some none e h = cc
found-some (some a) e h = ground arith

-- A change of one member's row, within what keeps an owner.
pub record IsMemberChange (tenant_id : String) (f : AdminUser → AdminUser) (db after : Db)
    : Type 0 where
  pub member : AdminUser
  pub member_id : String
  pub is_found : first (λ a. a.id == member_id && a.tenant_id == tenant_id) db.admins ≡ some member
  pub is_no_staff : (member.role == role_platform_admin) ≡ false
  pub leaves_owner : keeps_an_owner tenant_id member db ≡ true
  pub is_after : after ≡ record db { admins = update (λ a. a.id == member.id) f db.admins }

pub change_role_effect :
    (tenant_id member_id role : String) (db : Db) {m : AdminUser} {after : Db}
    → change_role tenant_id member_id role db ≡ ok (m, after)
    → (contains invitable_roles (lower (strip role)) ≡ true)
      × IsMemberChange tenant_id (set_role (lower (strip role))) db after
unfolding change_role member_in_tenant
change_role_effect tenant_id member_id role db h =
    elim (Option-cases (first (λ a. a.id == member_id && a.tenant_id == tenant_id) db.admins)) [
      | inl gone ↦ ground arith
      | inr (member, here) ↦ (
        ground arith,
        record {
          member = member;
          member_id = member_id;
          is_found = here;
          is_no_staff = ground arith;
          leaves_owner = ground arith;
          is_after = ground arith;
        },
      )
    ]

pub remove_member_effect :
    (tenant_id member_id : String) (acting : AdminUser) (db : Db) {m : AdminUser} {after : Db}
    → remove_member tenant_id member_id acting db ≡ ok (m, after)
    → IsMemberChange tenant_id deactivate db after
unfolding remove_member member_in_tenant
remove_member_effect tenant_id member_id acting db h =
    elim (Option-cases (first (λ a. a.id == member_id && a.tenant_id == tenant_id) db.admins)) [
      | inl gone ↦ ground arith
      | inr (member, here) ↦ record {
        member = member;
        member_id = member_id;
        is_found = here;
        is_no_staff = ground arith;
        leaves_owner = ground arith;
        is_after = ground arith;
      }
    ]

pub revoke_invite_effect :
    (tenant_id invite_id : String) (db : Db) {after : Db}
    → revoke_invite tenant_id invite_id db ≡ ok after
    → (id : String) × (after ≡ record db {
      invites = update (λ i. i.id == id) (set_status InviteStatus.revoked) db.invites;
    })
unfolding revoke_invite
revoke_invite_effect tenant_id invite_id db h =
    elim (Option-cases (first (λ i. i.id == invite_id && i.tenant_id == tenant_id) db.invites)) [
      | inl gone ↦ ground arith
      | inr (invite, here) ↦ (invite.id, ground arith)
    ]

module _ (hash_token : String → String) where
  pub create_invite_effect :
      (id raw_token : String) (now : ℕ) (tenant_id : String) (inviter : AdminUser)
      (email role : String) (db : Db) {invite : TenantInvite} {shown : String} {after : Db}
      → create_invite hash_token id raw_token now tenant_id inviter email role db
        ≡ ok (invite, shown, after)
      → (contains invitable_roles (lower (strip role)) ≡ true)
        × (invite
            ≡ new_invite hash_token id tenant_id
                (normalize_email email)
                (lower (strip role))
                raw_token
                inviter.id
                now)
        × (shown ≡ raw_token)
        × (after ≡ record db {
          invites = insert invite (
              update
                (is_pending_for tenant_id (normalize_email email))
                (set_status InviteStatus.revoked)
                db.invites);
        })
  unfolding create_invite not_registered
  create_invite_effect id raw_token now tenant_id inviter email role db h =
      (ground arith, ground arith, ground arith, ground arith)

  module _ (hash_password : String → String) where
    pub record IsAccepted (id : String) (now : ℕ) (raw_token full_name password : String) (db : Db)
        (admin : AdminUser) (after : Db) : Type 0 where
      pub invite : TenantInvite
      pub is_shown : peek_invite hash_token raw_token now db ≡ some invite
      pub is_admin : admin ≡ invitee hash_token hash_password id invite full_name password
      pub is_new :
          is_absent hash_token (first (λ a. a.id == admin.id || a.email == admin.email) db.admins)
          ≡ true
      pub is_after : after ≡ record db {
        admins = insert admin db.admins;
        invites =
            update
              (λ i. i.id == invite.id)
              (set_accepted hash_token hash_password id now)
              db.invites;
      }

    add_admin_effect :
        (admin : AdminUser) (db : Db) {after : Db}
        → add_admin hash_token admin db ≡ ok after
        → (is_absent hash_token (first (λ a. a.id == admin.id || a.email == admin.email) db.admins)
            ≡ true)
          × (after ≡ record db { admins = insert admin db.admins })
    unfolding add_admin
    add_admin_effect admin db h = (ground arith, ground arith)

    pub accept_invite_effect :
        (id : String) (now : ℕ) (raw_token full_name password : String) (db : Db)
        {admin : AdminUser} {after : Db}
        → accept_invite hash_token hash_password id now raw_token full_name password db
          ≡ ok (admin, after)
        → IsAccepted id now raw_token full_name password db admin after
    unfolding accept_invite add_admin
    accept_invite_effect id now raw_token full_name password db h =
        elim (Option-cases (peek_invite hash_token raw_token now db)) [
          | inl gone ↦ ground arith
          | inr (invite, here) ↦ record {
            invite = invite;
            is_shown = here;
            is_admin = ground arith;
            is_new = ground arith;
            is_after = ground arith;
          }
        ]
