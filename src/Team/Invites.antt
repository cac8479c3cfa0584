-- ===== src/Team/Invites.antt =====
-- An invitation works once, and for the account that it was made for.
use tetra_host.Prelude.{
  ℕ, String, Bool, true, false, ◌≡◌, ◌≤◌, ◌<◌, ◌==◌, refl, List, [], ◌∷◌, none, some, arith, ok,
  err, first, update, insert, if◌then◌else◌, ◌∙◌, eq_refl, ltb, ◌||◌, first-append,
  first-append_none, first-update,
}
use tetra_host.Prelude.Text
use tetra_host.Prelude.Text.{contains, strip, lower}
use tetra_host.Models.{
  Db, AdminUser, TenantInvite, InviteStatus, is_redeemable, is_pending, default_expiry,
  is_unexpired,
}
use tetra_host.Team.{
  peek_invite, accept_invite, create_invite, set_status, set_accepted, is_pending_for,
  invalid_invite, new_invite, normalize_email, get_admin_by_email, add_admin, validate_password,
}
use tetra_host.Team.Effects.{accept_invite_effect, create_invite_effect}
use tetra_host.Team.Roles.{peek_found}
use tetra_host.Team.Calls.{
  Request, Write, refused, invited, invite_revoked, joined, role_changed, removed, run,
  run-invariant,
}

module _ (hash_token hash_password : String → String) where
  -- The row that a token finds is there and no longer pending.
  pub record IsSpent (raw_token : String) (db : Db) : Type 0 where
    pub row : TenantInvite
    pub is_found : first (λ i. i.token_hash == hash_token raw_token) db.invites ≡ some row
    pub is_used : is_pending row.status ≡ false

  update-IsSpent :
      (raw_token : String) (q : TenantInvite → Bool) (f : TenantInvite → TenantInvite) (db : Db)
      → ((x : TenantInvite) → ((f x).token_hash ≡ x.token_hash) × (is_pending (f x).status ≡ false))
      → IsSpent raw_token db
      → IsSpent raw_token (record db { invites = update q f db.invites })
  update-IsSpent raw_token q f db keeps spent = record {
    row = if q spent.row then f spent.row else spent.row;
    is_found =
        rw
          (
            first-update (λ i. i.token_hash == hash_token raw_token) q f db.invites
                (λ x. rw ((keeps x).0) refl),
            spent.is_found,
          )
          refl;
    is_used = ground (arith, (keeps spent.row).1, spent.is_used);
  }

  write-IsSpent :
      (raw_token : String) (db after : Db)
      → Write hash_token hash_password db after
      → IsSpent raw_token db
      → IsSpent raw_token after
  unfolding is_pending
  write-IsSpent raw_token db _ refused h = h
  write-IsSpent raw_token db _ (invited i raw now u inviter e role bounded) h =
      let revoked =
        update-IsSpent raw_token (is_pending_for u e) (set_status InviteStatus.revoked) db
          (λ x. (refl, refl)) h in
      record {
        row = revoked.row;
        is_found = first-append _ _ _ revoked.is_found;
        is_used = revoked.is_used;
      }
  write-IsSpent raw_token db _ (invite_revoked i) h =
      update-IsSpent raw_token (λ x. x.id == i) (set_status InviteStatus.revoked) db
        (λ x. (refl, refl)) h
  write-IsSpent raw_token db _ (joined i now raw name password admin after j) h =
      let accepted =
        update-IsSpent raw_token (λ x. x.id == j.invite.id)
          (set_accepted hash_token hash_password i now) db (λ x. (refl, refl)) h in
      rw j.is_after
        (record { row = accepted.row; is_found = accepted.is_found; is_used = accepted.is_used })
  write-IsSpent raw_token db _ (role_changed u role after bounded c) h =
      rw c.is_after (record { row = h.row; is_found = h.is_found; is_used = h.is_used })
  write-IsSpent raw_token db _ (removed u after c) h =
      rw c.is_after (record { row = h.row; is_found = h.is_found; is_used = h.is_used })

  peek_invite-none :
      (raw_token : String) (db : Db) (now : ℕ)
      → IsSpent raw_token db
      → peek_invite hash_token raw_token now db ≡ none
  unfolding peek_invite is_redeemable
  peek_invite-none raw_token db now spent = ground (arith, spent.is_found, spent.is_used)

  IsSpent-refused :
      (raw_token : String) (db : Db) (id : String) (now : ℕ) (full_name password : String)
      → IsSpent raw_token db
      → accept_invite hash_token hash_password id now raw_token full_name password db
        ≡ err (invalid_invite hash_token)
  unfolding accept_invite
  IsSpent-refused raw_token db id now full_name password spent =
      rw (peek_invite-none raw_token db now spent) refl

  accepted-IsSpent :
      (id : String) (now : ℕ) (raw_token full_name password : String) (db : Db) {admin : AdminUser}
      {after : Db}
      → accept_invite hash_token hash_password id now raw_token full_name password db
        ≡ ok (admin, after)
      → IsSpent raw_token after
  unfolding is_pending
  accepted-IsSpent id now raw_token full_name password db h =
      let j =
        accept_invite_effect hash_token hash_password id now raw_token full_name password db h in
      let (shown, live) = peek_found hash_token hash_password raw_token now db j.is_shown in
      rw j.is_after (record {
        row = set_accepted hash_token hash_password id now j.invite;
        is_found =
            rw
              (
                first-update (λ i. i.token_hash == hash_token raw_token) (λ i. i.id == j.invite.id)
                    (set_accepted hash_token hash_password id now) db.invites (λ x. refl),
                shown,
                eq_refl j.invite.id,
              )
              refl;
        is_used = refl;
      })

  -- An invitation is accepted once: after it was, and after any further calls, every other
  -- attempt with its token fails, with 404.
  pub accept_invite-single_use :
      (id : String) (now : ℕ) (raw_token full_name password : String) (db : Db) {admin : AdminUser}
      {after : Db} (qs : List Request) (id' : String) (later : ℕ) (full_name' password' : String)
      → accept_invite hash_token hash_password id now raw_token full_name password db
        ≡ ok (admin, after)
      → accept_invite hash_token hash_password id' later raw_token full_name' password'
          (run hash_token hash_password qs after)
        ≡ err (invalid_invite hash_token)
  accept_invite-single_use id now raw_token full_name password db qs id' later full_name' password'
        h =
      IsSpent-refused raw_token _ id' later full_name' password' (
        run-invariant hash_token hash_password (IsSpent raw_token) (write-IsSpent raw_token) qs _
          (accepted-IsSpent id now raw_token full_name password db h))

  peek_invite-new :
      (id raw_token : String) (now later : ℕ) (tenant_id inviter_id email role : String)
      (rows : List TenantInvite) (db : Db)
      → first (λ i. i.token_hash == hash_token raw_token) rows ≡ none
      → later < default_expiry now
      → (let row = new_invite hash_token id tenant_id email role raw_token inviter_id now in
          peek_invite hash_token raw_token later (record db { invites = insert row rows })
          ≡ some row)
  unfolding peek_invite is_redeemable is_pending is_unexpired first
  peek_invite-new id raw_token now later tenant_id inviter_id email role rows db fresh young =
      let row = new_invite hash_token id tenant_id email role raw_token inviter_id now in
      let found : first (λ i. i.token_hash == hash_token raw_token) (insert row rows) ≡ some row =
        first-append_none (λ i. i.token_hash == hash_token raw_token) rows (row ∷ []) fresh
        ∙ rw (eq_refl (hash_token raw_token)) refl in
      ground (arith, found)

  first-update-none :
      (p q : TenantInvite → Bool) (f : TenantInvite → TenantInvite) (rows : List TenantInvite)
      → ((x : TenantInvite) → p (f x) ≡ p x)
      → first p rows ≡ none
      → first p (update q f rows) ≡ none
  first-update-none p q f rows same h = rw (first-update p q f rows same, h) refl

  -- The link that `create_invite` shows admits, for two weeks, an account for the address and the
  -- tenant that it was made for, with the role that was asked for: where the token is new, the
  -- address has no account, the new account's id is free, and the password has ten characters.
  pub accept_invite-create_invite :
      (id raw_token : String) (now : ℕ) (tenant_id : String) (inviter : AdminUser)
      (email role : String) (db : Db) {row : TenantInvite} {shown : String} {after : Db}
      (new_id : String) (later : ℕ) (full_name password : String)
      → create_invite hash_token id raw_token now tenant_id inviter email role db
        ≡ ok (row, shown, after)
      → first (λ i. i.token_hash == hash_token raw_token) db.invites ≡ none
      → later < default_expiry now
      → get_admin_by_email (normalize_email email) db ≡ none
      → first (λ a. a.id == new_id || a.email == normalize_email email) db.admins ≡ none
      → 10 ≤ Text.length password
      → (admin : AdminUser) × (last : Db) × (accept_invite hash_token hash_password new_id later
            shown full_name password after
          ≡ ok (admin, last))
        × (admin.tenant_id ≡ tenant_id)
        × (admin.email ≡ normalize_email email)
        × (admin.role ≡ lower (strip role))
        × (admin.is_active ≡ true)
  unfolding accept_invite add_admin validate_password get_admin_by_email
  accept_invite-create_invite id raw_token now tenant_id inviter email role db new_id later
        full_name password h fresh young absent free long =
      let (bounded, made, told, written) =
        create_invite_effect hash_token id raw_token now tenant_id inviter email role db h in
      let e = normalize_email email in
      let r = lower (strip role) in
      let rows = update (is_pending_for tenant_id e) (set_status InviteStatus.revoked) db.invites in
      let seen =
        peek_invite-new id raw_token now later tenant_id inviter.id e r rows db
          (first-update-none _ _ (set_status InviteStatus.revoked) db.invites (λ x. refl) fresh)
          young in
      let policy : ltb (Text.length password) 10 ≡ false = ground arith in
      rw (told, written, made, seen, absent, policy, free) (_, _, refl, refl, refl, refl, refl)
