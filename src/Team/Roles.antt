-- ===== src/Team/Roles.antt =====
-- No call gives an account a role above `admin`: neither a new account, nor one that is there.
use tetra_host.Prelude.{
  ℕ, String, Bool, true, not, ◌≡◌, ◌≤◌, ◌==◌, ◌&&◌, List, some, arith, first, count, update,
  Option-cases, inl, inr, All, All-append, All-update, All-first, count-update_drop, count-insert,
}
use tetra_host.Prelude.Text.{contains}
use tetra_host.Models.{Db, AdminUser, TenantInvite, is_redeemable}
use tetra_host.Team.{invitable_roles, peek_invite, set_role, deactivate}
use tetra_host.Team.Calls.{
  Request, Write, refused, invited, invite_revoked, joined, role_changed, removed, run,
  run-invariant,
}

abbrev pub IsBounded : TenantInvite → Type 0
IsBounded i = contains invitable_roles i.role ≡ true

abbrev pub is_privileged : String → AdminUser → Bool
is_privileged id a = a.id == id && not (contains invitable_roles a.role)

module _ (hash_token hash_password : String → String) where
  pub peek_found :
      (raw_token : String) (now : ℕ) (db : Db) {i : TenantInvite}
      → peek_invite hash_token raw_token now db ≡ some i
      → (first (λ x. x.token_hash == hash_token raw_token) db.invites ≡ some i)
        × (is_redeemable i now ≡ true)
  unfolding peek_invite
  peek_found raw_token now db h =
      elim (Option-cases (first (λ x. x.token_hash == hash_token raw_token) db.invites)) [
        | inl gone ↦ ground arith
        | inr (x, here) ↦ (ground arith, ground arith)
      ]

  abbrev pub Unraised : String → ℕ → Db → Type 0
  Unraised id n db = All IsBounded db.invites × (count (is_privileged id) db.admins ≤ n)

  write-Unraised :
      (id : String) (n : ℕ) (db after : Db)
      → Write hash_token hash_password db after
      → Unraised id n db
      → Unraised id n after
  write-Unraised id n db _ refused h = h
  write-Unraised id n db _ (invited i raw now t inviter email role bounded) (h, k) = (
    All-append IsBounded (update _ _ db.invites) _
        (All-update IsBounded _ _ db.invites (λ x b. b) h) (bounded, tt),
    k,
  )
  write-Unraised id n db _ (invite_revoked i) (h, k) =
      (All-update IsBounded _ _ db.invites (λ x b. b) h, k)
  write-Unraised id n db _ (joined i now raw name password admin after j) (h, k) =
      let (shown, live) = peek_found raw now db j.is_shown in
      let role_bounded : IsBounded j.invite = All-first IsBounded _ db.invites h shown in
      rw (j.is_after, count-insert (is_privileged id) admin db.admins)
        (
          All-update IsBounded _ _ db.invites (λ x b. b) h,
          rw j.is_admin (rw role_bounded (ground arith)),
        )
  write-Unraised id n db _ (role_changed t role after bounded c) (h, k) = rw c.is_after (
    h,
    omega (
      arith,
      k,
      count-update_drop (is_privileged id) (λ a. a.id == c.member.id) (set_role role) db.admins
          (λ a e. ground arith),
    ),
  )
  write-Unraised id n db _ (removed t after c) (h, k) = rw c.is_after (
    h,
    omega (
      arith,
      k,
      count-update_drop (is_privileged id) (λ a. a.id == c.member.id) deactivate db.admins
          (λ a e. e),
    ),
  )

  -- Where the stored invitations offer `admin` or `member` only, no calls in any order make an
  -- account an owner or a platform admin that was none: per id, the accounts with such a role
  -- are never more than before.
  pub run-Unraised :
      (id : String) (qs : List Request) (db : Db)
      → All IsBounded db.invites
      → count (is_privileged id) (run hash_token hash_password qs db).admins
        ≤ count (is_privileged id) db.admins
  run-Unraised id qs db h =
      (run-invariant hash_token hash_password (Unraised id (count (is_privileged id) db.admins))
        (write-Unraised id _) qs db (h, omega arith)).1
