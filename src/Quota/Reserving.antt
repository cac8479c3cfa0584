-- ===== src/Quota/Reserving.antt =====
-- Reservations, one at a time and in any order, against the plan's limit.
use tetra_host.Prelude.{
  String, true, false, ◌≡◌, ◌≤◌, ◌+◌, none, ok, err, arith, first, delete, eq_refl, delete-append,
  delete_of_first-none, ◌↔◌, ◌⊎◌,
}
use mathlib.Core.List.{append-nil}
use tetra_host.Models.{Db}
use tetra_host.Quota.{
  Allocation, QuotaExceeded, count_apps, is_platform_scope, resolve_max_apps, check_and_reserve,
  reserve, release, is_reservation_of,
}
use tetra_host.Quota.Counting.{count_apps-reserve}

module _ (row_id t project : String) (a : Allocation) (name : String) (db : Db) where
  pub granted_cases :
      {after : Db}
      → check_and_reserve row_id t project a name db ≡ ok after
      → (after ≡ reserve row_id t project a name db)
        × ((is_platform_scope t db ≡ true) ⊎ (count_apps t db + 1 ≤ resolve_max_apps t db))
  unfolding check_and_reserve
  granted_cases granted = ground arith

  -- A tenant that is not the platform's own holds at most as many slots as its plan allows after a
  -- reservation is granted.
  pub check_and_reserve-within :
      {after : Db}
      → is_platform_scope t db ≡ false
      → check_and_reserve row_id t project a name db ≡ ok after
      → count_apps t after ≤ resolve_max_apps t db
  check_and_reserve-within billed granted =
      let (e, room) = granted_cases granted in
      rw e (ground (arith, count_apps-reserve row_id t project a name db))

  -- It is refused exactly when the tenant is billed and all its slots are in use, and the refusal
  -- carries the limit and the use.
  pub check_and_reserve-refuses :
      (q : QuotaExceeded)
      → (check_and_reserve row_id t project a name db ≡ err q) ↔ (
          (is_platform_scope t db ≡ false)
          × (resolve_max_apps t db ≤ count_apps t db)
          × (q.limit ≡ resolve_max_apps t db)
          × (q.used ≡ count_apps t db))
  unfolding check_and_reserve
  check_and_reserve-refuses q = (λ h. ground arith, λ h. ground arith)

  -- Releasing a project that held no reservation before gives the table back as it was.
  pub release-check_and_reserve :
      {after : Db}
      → first (is_reservation_of t project) db.resources ≡ none
      → check_and_reserve row_id t project a name db ≡ ok after
      → release t project after ≡ db
  unfolding release delete
  release-check_and_reserve fresh granted =
      rw
        (
          (granted_cases granted).0,
          delete-append,
          delete_of_first-none _ db.resources fresh,
          eq_refl t,
          eq_refl project,
        )
        (rw append-nil)
