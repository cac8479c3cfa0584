-- ===== src/Team/Owners.antt =====
-- A tenant never loses its last active owner.
use tetra_host.Prelude.{
  ℕ, String, Bool, true, ◌≡◌, ◌≤◌, ◌==◌, ◌||◌, refl, List, [], ◌∷◌, none, arith, first, select,
  count, update, inl, inr, Bool-cases, eq_iff, All-weaken, only_row, count-update_loss,
  count-update_gain, count-update_same, first_holds, count-insert,
}
use tetra_host.Models.{Db, AdminUser}
use tetra_host.Team.{is_active_owner, active_owner_count, keeps_an_owner, set_role, deactivate}
use tetra_host.Team.Effects.{IsMemberChange, IsAccepted}
use tetra_host.Team.Calls.{
  Request, Write, refused, invited, invite_revoked, joined, role_changed, removed, run,
  run-invariant,
}

-- The primary key of the accounts.
pub record IsKeyed (db : Db) : Type 0 where
  pub unique : (id : String) → count (λ a. a.id == id) db.admins ≤ 1

-- One changed row: the owners of a tenant keep an active one.
change-HasOwner :
    (tenant_id : String) (f : AdminUser → AdminUser) (db after : Db) (t : String)
    → IsKeyed db
    → IsMemberChange tenant_id f db after
    → 1 ≤ active_owner_count t db
    → 1 ≤ active_owner_count t after
unfolding active_owner_count
change-HasOwner tenant_id f db after t keyed change owned =
    let p : AdminUser → Bool = λ a. a.id == change.member.id in
    let lost = count-update_loss (is_active_owner t) p f db.admins in
    let hit = first_holds _ db.admins change.is_found in
    let owner : keeps_an_owner tenant_id change.member db ≡ true = change.leaves_owner in
    let only =
      only_row p _ db.admins
        (λ x r. ground (
          arith,
          eq_iff x.id change.member_id,
          eq_iff change.member.id change.member_id,
          eq_iff x.id change.member.id,
        ))
        (keyed.unique change.member.id) change.is_found in
    rw (change.is_after) (elim (Bool-cases (is_active_owner t change.member)) [
      | inl mine ↦
          let same : t ≡ tenant_id =
            ground
              (arith, eq_iff change.member.tenant_id t, eq_iff change.member.tenant_id tenant_id) in
          let one = keyed.unique change.member.id in
          let two : 2 ≤ active_owner_count tenant_id db = ground arith in
          let two_of_t : 2 ≤ active_owner_count t db = rw same two in
          omega (arith, lost, one, two_of_t)
      | inr other ↦
          let more : count (is_active_owner t) db.admins
              ≤ count (is_active_owner t) (update p f db.admins) =
            count-update_gain (is_active_owner t) p f db.admins
              (All-weaken _ _ db.admins (λ x e on. rw (e on) other) only) in
          omega (arith, more, owned)
    ])

-- The calls keep the accounts' primary key.
change-IsKeyed :
    (tenant_id : String) (f : AdminUser → AdminUser) (db after : Db)
    → ((a : AdminUser) → (f a).id ≡ a.id)
    → IsKeyed db
    → IsMemberChange tenant_id f db after
    → IsKeyed after
change-IsKeyed tenant_id f db after same keyed change = record {
  unique = λ id.
      rw
        (
          change.is_after,
          count-update_same (λ a. a.id == id) (λ a. a.id == change.member.id) f db.admins
              (λ a. rw (same a) refl),
        )
        (keyed.unique id);
}

count_of_unfound :
    (p q : AdminUser → Bool) (xs : List AdminUser)
    → ((a : AdminUser) → q a ≡ true → p a ≡ true)
    → first p xs ≡ none
    → count q xs ≡ 0
unfolding first count select
count_of_unfound p q [] h e = refl
count_of_unfound p q (x ∷ xs) h e = ground (arith, count_of_unfound p q xs h, h x)

module _ (hash_token hash_password : String → String) where
  joined-IsKeyed :
      (id : String) (now : ℕ) (raw_token full_name password : String) (db : Db) (admin : AdminUser)
      (after : Db)
      → IsKeyed db
      → IsAccepted hash_token hash_password id now raw_token full_name password db admin after
      → IsKeyed after
  joined-IsKeyed id now raw_token full_name password db admin after keyed new = record {
    unique = λ i.
        rw (new.is_after, count-insert (λ a. a.id == i) admin db.admins)
          (elim (Bool-cases (admin.id == i)) [
            | inl same ↦
                let alone : count (λ a. a.id == i) db.admins ≡ 0 =
                  count_of_unfound (λ a. a.id == admin.id || a.email == admin.email)
                    (λ a. a.id == i) db.admins
                    (λ a e. ground (arith, eq_iff a.id i, eq_iff admin.id i, eq_iff a.id admin.id))
                    (ground (arith, new.is_new)) in
                rw (same, alone) (omega arith)
            | inr other ↦ rw other (omega (arith, keyed.unique i))
          ]);
  }

  abbrev pub KeepsOwner : String → Db → Type 0
  KeepsOwner t db = IsKeyed db × (1 ≤ active_owner_count t db)

  write-KeepsOwner :
      (t : String) (db after : Db)
      → Write hash_token hash_password db after
      → KeepsOwner t db
      → KeepsOwner t after
  unfolding active_owner_count
  write-KeepsOwner t db _ refused h = h
  write-KeepsOwner t db _ (invited _ _ _ _ _ _ _ _) (k, h) = (record { unique = k.unique }, h)
  write-KeepsOwner t db _ (invite_revoked _) (k, h) = (record { unique = k.unique }, h)
  write-KeepsOwner t db _ (joined id now raw name password admin after j) (k, h) = (
    joined-IsKeyed id now raw name password db admin after k j,
    rw (j.is_after, count-insert (is_active_owner t) admin db.admins) (omega (arith, h)),
  )
  write-KeepsOwner t db _ (role_changed tenant_id role after bounded c) (k, h) = (
    change-IsKeyed tenant_id (set_role role) db after (λ a. refl) k c,
    change-HasOwner tenant_id (set_role role) db after t k c h,
  )
  write-KeepsOwner t db _ (removed tenant_id after c) (k, h) = (
    change-IsKeyed tenant_id deactivate db after (λ a. refl) k c,
    change-HasOwner tenant_id deactivate db after t k c h,
  )

  -- Whatever the calls and their order, a tenant that has an active owner goes on having one.
  pub run-KeepsOwner :
      (t : String) (qs : List Request) (db : Db)
      → IsKeyed db
      → 1 ≤ active_owner_count t db
      → 1 ≤ active_owner_count t (run hash_token hash_password qs db)
  run-KeepsOwner t qs db keyed owned =
      (run-invariant hash_token hash_password (KeepsOwner t) (write-KeepsOwner t) qs db
        (keyed, owned)).1
