-- ===== src/Quota/Sharing.antt =====
-- The share of a plan's budget that one app is given.
use tetra_host.Prelude.{ℕ, zero, suc, String, ◌≡◌, ◌≤◌, ◌*◌, ◌/◌, max, arith, some}
use native.Mathlib.Nat.{mul-div-le}
use tetra_host.Models.{Db, Plan}
use tetra_host.Plans.{Settings}
use tetra_host.Plans.Coherence.{IsCoherent}
use tetra_host.Quota.{plan_allocation, resolve_plan}

share_within :
    (n fallback total : ℕ) → n * fallback ≤ total → n * max fallback (total / max n 1) ≤ total
share_within zero fallback total h = grind arith
share_within (suc n) fallback total h = grind (arith, mul-div-le total (suc n))

-- Every app is given the default size at least, and where the plan was checked for coherence the
-- shares of all its apps together stay within its processor and memory budgets.
pub plan_allocation-shares :
    (cfg : Settings) (tenant_id : String) (db : Db) (plan : Plan)
    → resolve_plan tenant_id db ≡ some plan
    → IsCoherent cfg plan
    → (cfg.default_app_cpu_millicores ≤ (plan_allocation cfg tenant_id db).cpu_millicores)
      × (cfg.default_app_mem_mb ≤ (plan_allocation cfg tenant_id db).mem_mb)
      × (cfg.default_app_disk_mb ≤ (plan_allocation cfg tenant_id db).disk_mb)
      × (plan.max_apps * (plan_allocation cfg tenant_id db).cpu_millicores ≤ plan.cpu_millicores)
      × (plan.max_apps * (plan_allocation cfg tenant_id db).mem_mb ≤ plan.mem_mb)
unfolding plan_allocation
plan_allocation-shares cfg tenant_id db plan e coherent = rw e (
  omega arith,
  omega arith,
  omega arith,
  share_within plan.max_apps _ plan.cpu_millicores coherent.cpu_fits,
  share_within plan.max_apps _ plan.mem_mb coherent.mem_fits,
)
