-- ===== src/Team/Pending.antt =====
-- One invitation of an address to a tenant is pending at most.
use tetra_host.Prelude.{
  String, ◌≡◌, ◌≤◌, ◌==◌, ◌&&◌, List, arith, count, update, Bool-cases, inl, inr, eq_iff,
  count-update_drop, count-update_none, count-insert,
}
use tetra_host.Models.{Db, InviteStatus, is_pending}
use tetra_host.Team.{set_status, set_accepted, is_pending_for}
use tetra_host.Team.Calls.{
  Request, Write, refused, invited, invite_revoked, joined, role_changed, removed, run,
  run-invariant,
}

module _ (hash_token hash_password : String → String) where
  abbrev pub OnePending : String → String → Db → Type 0
  OnePending t email db = count (is_pending_for t email) db.invites ≤ 1

  write-OnePending :
      (t email : String) (db after : Db)
      → Write hash_token hash_password db after
      → OnePending t email db
      → OnePending t email after
  unfolding is_pending
  write-OnePending t email db _ refused h = h
  write-OnePending t email db _ (invited i raw now u inviter e role bounded) h =
      let p = is_pending_for t email in
      rw
        (count-insert p _
          (update (is_pending_for u e) (set_status InviteStatus.revoked) db.invites))
        (elim (Bool-cases (u == t && e == email)) [
          | inl same ↦
              let tenant : u ≡ t = ground (arith, eq_iff u t) in
              let address : e ≡ email = ground (arith, eq_iff e email) in
              rw
                (
                  tenant,
                  address,
                  count-update_none p (set_status InviteStatus.revoked) db.invites
                      (λ x. ground arith),
                )
                (ground arith)
          | inr other ↦ ground (
            arith,
            count-update_drop p (is_pending_for u e) (set_status InviteStatus.revoked) db.invites
                (λ x k. ground arith),
          )
        ])
  write-OnePending t email db _ (invite_revoked i) h =
      let less =
        count-update_drop (is_pending_for t email) (λ x. x.id == i)
          (set_status InviteStatus.revoked) db.invites (λ x k. ground arith) in
      omega (arith, h, less)
  write-OnePending t email db _ (joined i now raw name password admin after j) h =
      let less =
        count-update_drop (is_pending_for t email) (λ x. x.id == j.invite.id)
          (set_accepted hash_token hash_password i now) db.invites (λ x k. ground arith) in
      rw j.is_after (omega (arith, h, less))
  write-OnePending t email db _ (role_changed u role after bounded c) h = rw c.is_after h
  write-OnePending t email db _ (removed u after c) h = rw c.is_after h

  -- Whatever the calls and their order, an address has one pending invitation to a tenant at most.
  pub run-OnePending :
      (t email : String) (qs : List Request) (db : Db)
      → count (is_pending_for t email) db.invites ≤ 1
      → count (is_pending_for t email) (run hash_token hash_password qs db).invites ≤ 1
  run-OnePending t email qs db h =
      run-invariant hash_token hash_password (OnePending t email) (write-OnePending t email) qs db h
