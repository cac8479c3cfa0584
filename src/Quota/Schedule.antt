-- ===== src/Quota/Schedule.antt =====
-- Concurrent installs. The lock of `check_and_reserve` is held to the end of the transaction, so
-- what a set of concurrent calls can do is what some order of them does.
use tetra_host.Prelude.{
  String, false, ◌≡◌, ◌≤◌, ◌==◌, refl, List, [], ◌∷◌, Result, ok, err, arith, max, Bool-cases, inl,
  inr, eq_iff, ◌∙◌, ap,
}
use tetra_host.Models.{Db}
use tetra_host.Quota.{
  Allocation, QuotaExceeded, count_apps, is_platform_scope, resolve_plan, resolve_max_apps,
  check_and_reserve, reserve,
}
use tetra_host.Plans.{get_by_id, get_default}
use tetra_host.Quota.Counting.{count_apps-reserve, count_apps-reserve_other}
use tetra_host.Quota.Reserving.{granted_cases}

pub record Request : Type 0 where
  pub row_id : String
  pub tenant_id : String
  pub project : String
  pub allocation : Allocation
  pub display_name : String

-- A refused request is rolled back.
abbrev pub kept : Db → Result QuotaExceeded Db → Db
kept db (ok after) = after
kept db (err q) = db

abbrev pub step : Request → Db → Db
step q db =
    kept db (check_and_reserve q.row_id q.tenant_id q.project q.allocation q.display_name db)

pub run : List Request → Db → Db
run [] db = db
run (q ∷ qs) db = run qs (step q db)

-- A reservation changes neither the tenant nor its plan.
module _ (t row_id tenant_id project : String) (a : Allocation) (name : String) (db : Db) where
  is_platform_scope-reserve :
      is_platform_scope t (reserve row_id tenant_id project a name db) ≡ is_platform_scope t db
  unfolding is_platform_scope
  is_platform_scope-reserve = refl

  resolve_max_apps-reserve :
      resolve_max_apps t (reserve row_id tenant_id project a name db) ≡ resolve_max_apps t db
  unfolding resolve_max_apps resolve_plan get_by_id get_default
  resolve_max_apps-reserve = refl

granted-within :
    (row_id u project : String) (a : Allocation) (name : String) (db : Db) {after : Db} (t : String)
    → check_and_reserve row_id u project a name db ≡ ok after
    → is_platform_scope t db ≡ false
    → count_apps t (reserve row_id u project a name db)
      ≤ max (count_apps t db) (resolve_max_apps t db)
granted-within row_id u project a name db t e billed = elim (Bool-cases (t == u)) [
  | inl same ↦
      let s : t ≡ u = (eq_iff t u).0 same in
      let (after_is, room) = granted_cases row_id u project a name db e in
      let more = count_apps-reserve row_id u project a name db in
      rw s (ground (arith, ap (λ v. is_platform_scope v db) s))
  | inr other ↦
      let unchanged =
        count_apps-reserve_other row_id u project a name db t (λ s. ground (arith, eq_iff t u)) in
      omega (arith, unchanged)
]

module _ (t : String) where
  kept_cases :
      (q : Request) (db : Db) (r : Result QuotaExceeded Db)
      → check_and_reserve q.row_id q.tenant_id q.project q.allocation q.display_name db ≡ r
      → is_platform_scope t db ≡ false
      → (count_apps t (kept db r) ≤ max (count_apps t db) (resolve_max_apps t db))
        × (is_platform_scope t (kept db r) ≡ false)
        × (resolve_max_apps t (kept db r) ≡ resolve_max_apps t db)
  kept_cases q db (err x) e billed = (omega arith, billed, refl)
  kept_cases q db (ok after) e billed =
      rw (granted_cases q.row_id q.tenant_id q.project q.allocation q.display_name db e).0 (
        granted-within q.row_id q.tenant_id q.project q.allocation q.display_name db t e billed,
        is_platform_scope-reserve t q.row_id q.tenant_id q.project q.allocation q.display_name db
            ∙ billed,
        resolve_max_apps-reserve t q.row_id q.tenant_id q.project q.allocation q.display_name db,
      )

  -- Whatever the requests of whatever tenants, and whatever their order, a tenant that is not the
  -- platform's own never holds more slots than its plan allows, unless it held more before.
  pub run-within :
      (qs : List Request) (db : Db)
      → is_platform_scope t db ≡ false
      → count_apps t (run qs db) ≤ max (count_apps t db) (resolve_max_apps t db)
  unfolding run
  run-within [] db billed = omega arith
  run-within (q ∷ qs) db billed =
      let (count, same, limit) = kept_cases q db _ refl billed in
      omega (arith, run-within qs (step q db) same, count, limit)
