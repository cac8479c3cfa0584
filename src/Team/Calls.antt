-- ===== src/Team/Calls.antt =====
-- The calls of the team service in any order, each in a transaction of its own, and what one of
-- them can do to the tables.
use tetra_host.Prelude.{
  ℕ, String, true, ◌≡◌, refl, List, [], ◌∷◌, Result, ok, err, insert, update, ◌==◌,
}
use tetra_host.Prelude.Text.{strip, lower, contains}
use tetra_host.Models.{Db, AdminUser, TenantInvite, InviteStatus}
use tetra_host.Team.{
  TeamError, invitable_roles, normalize_email, set_role, set_status, deactivate, change_role,
  remove_member, create_invite, revoke_invite, accept_invite, new_invite, is_pending_for,
}
use tetra_host.Team.Effects.{
  IsMemberChange, IsAccepted, change_role_effect, remove_member_effect, revoke_invite_effect,
  create_invite_effect, accept_invite_effect,
}

pub data Request : Type 0 where
  invite :
      (id raw_token : String) (now : ℕ) (tenant_id : String) (inviter : AdminUser)
      (email role : String)
      → Request
  revoke : (tenant_id invite_id : String) → Request
  accept : (id : String) (now : ℕ) (raw_token full_name password : String) → Request
  change : (tenant_id member_id role : String) → Request
  remove : (tenant_id member_id : String) (acting_admin : AdminUser) → Request

module _ (hash_token hash_password : String → String) where
  left_invited : Db → Result TeamError (TenantInvite × String × Db) → Db
  left_invited db (ok (_, _, after)) = after
  left_invited db (err _) = db

  left_member : Db → Result TeamError (AdminUser × Db) → Db
  left_member db (ok (_, after)) = after
  left_member db (err _) = db

  left : Db → Result TeamError Db → Db
  left db (ok after) = after
  left db (err _) = db

  -- What a call leaves behind: it is rolled back if it raises.
  unfoldable pub step : Request → Db → Db
  unfolding left_invited left_member left
  step (invite id raw_token now tenant_id inviter email role) db =
      left_invited db (create_invite hash_token id raw_token now tenant_id inviter email role db)
  step (revoke tenant_id invite_id) db = left db (revoke_invite tenant_id invite_id db)
  step (accept id now raw_token full_name password) db =
      left_member db (accept_invite hash_token hash_password id now raw_token full_name password db)
  step (change tenant_id member_id role) db =
      left_member db (change_role tenant_id member_id role db)
  step (remove tenant_id member_id acting) db =
      left_member db (remove_member tenant_id member_id acting db)

  unfoldable pub run : List Request → Db → Db
  run [] db = db
  run (q ∷ qs) db = run qs (step q db)

  pub data Write (db : Db) : Db → Type 0 where
    refused : Write db db
    invited :
        (id raw_token : String) (now : ℕ) (tenant_id inviter_id email role : String)
        → contains invitable_roles role ≡ true
        → Write db (record db {
          invites =
              insert (new_invite hash_token id tenant_id email role raw_token inviter_id now) (
                update
                  (is_pending_for tenant_id email)
                  (set_status InviteStatus.revoked)
                  db.invites);
        })
    invite_revoked :
        (id : String)
        → Write db (record db {
          invites = update (λ i. i.id == id) (set_status InviteStatus.revoked) db.invites;
        })
    joined :
        (id : String) (now : ℕ) (raw_token full_name password : String) (admin : AdminUser)
        (after : Db)
        → IsAccepted hash_token hash_password id now raw_token full_name password db admin after
        → Write db after
    role_changed :
        (tenant_id role : String) (after : Db)
        → contains invitable_roles role ≡ true
        → IsMemberChange tenant_id (set_role role) db after
        → Write db after
    removed :
        (tenant_id : String) (after : Db)
        → IsMemberChange tenant_id deactivate db after
        → Write db after

  write_invited :
      (id raw_token : String) (now : ℕ) (tenant_id : String) (inviter : AdminUser)
      (email role : String) (db : Db) (r : Result TeamError (TenantInvite × String × Db))
      → create_invite hash_token id raw_token now tenant_id inviter email role db ≡ r
      → Write db (left_invited db r)
  unfolding left_invited
  write_invited id raw_token now tenant_id inviter email role db (err e) h = refused
  write_invited id raw_token now tenant_id inviter email role db (ok (row, shown, after)) h =
      let (bounded, made, told, written) =
        create_invite_effect hash_token id raw_token now tenant_id inviter email role db h in
      rw (written, made)
        (invited id raw_token now tenant_id inviter.id (normalize_email email) (lower (strip role))
          bounded)

  write_revoked :
      (tenant_id invite_id : String) (db : Db) (r : Result TeamError Db)
      → revoke_invite tenant_id invite_id db ≡ r
      → Write db (left db r)
  unfolding left
  write_revoked tenant_id invite_id db (err e) h = refused
  write_revoked tenant_id invite_id db (ok after) h =
      let (id, written) = revoke_invite_effect tenant_id invite_id db h in
      rw written (invite_revoked id)

  write_joined :
      (id : String) (now : ℕ) (raw_token full_name password : String) (db : Db)
      (r : Result TeamError (AdminUser × Db))
      → accept_invite hash_token hash_password id now raw_token full_name password db ≡ r
      → Write db (left_member db r)
  unfolding left_member
  write_joined id now raw_token full_name password db (err e) h = refused
  write_joined id now raw_token full_name password db (ok (admin, after)) h =
      joined id now raw_token full_name password admin after
        (accept_invite_effect hash_token hash_password id now raw_token full_name password db h)

  write_changed :
      (tenant_id member_id role : String) (db : Db) (r : Result TeamError (AdminUser × Db))
      → change_role tenant_id member_id role db ≡ r
      → Write db (left_member db r)
  unfolding left_member
  write_changed tenant_id member_id role db (err e) h = refused
  write_changed tenant_id member_id role db (ok (m, after)) h =
      let (bounded, changed) = change_role_effect tenant_id member_id role db h in
      role_changed tenant_id (lower (strip role)) after bounded changed

  write_removed :
      (tenant_id member_id : String) (acting : AdminUser) (db : Db)
      (r : Result TeamError (AdminUser × Db))
      → remove_member tenant_id member_id acting db ≡ r
      → Write db (left_member db r)
  unfolding left_member
  write_removed tenant_id member_id acting db (err e) h = refused
  write_removed tenant_id member_id acting db (ok (m, after)) h =
      removed tenant_id after (remove_member_effect tenant_id member_id acting db h)

  pub step-Write : (q : Request) (db : Db) → Write db (step q db)
  unfolding step
  step-Write (invite id raw_token now tenant_id inviter email role) db =
      write_invited id raw_token now tenant_id inviter email role db _ refl
  step-Write (revoke tenant_id invite_id) db = write_revoked tenant_id invite_id db _ refl
  step-Write (accept id now raw_token full_name password) db =
      write_joined id now raw_token full_name password db _ refl
  step-Write (change tenant_id member_id role) db = write_changed tenant_id member_id role db _ refl
  step-Write (remove tenant_id member_id acting) db =
      write_removed tenant_id member_id acting db _ refl

  -- An invariant of every write is an invariant of every run.
  pub run-invariant {ℓ} :
      (P : Db → Type ℓ)
      → ((db after : Db) → Write db after → P db → P after)
      → (qs : List Request) (db : Db) → P db
      → P (run qs db)
  unfolding run
  run-invariant P keeps [] db h = h
  run-invariant P keeps (q ∷ qs) db h = run-invariant P keeps qs _ (keeps db _ (step-Write q db) h)
