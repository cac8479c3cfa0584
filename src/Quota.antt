-- ===== src/Quota.antt =====
-- app/services/quota.py: the app slots of a tenant. The advisory lock makes `check_and_reserve` one
-- step, so a schedule of concurrent calls is a list of them.
pub mod Counting
pub mod Reserving
pub mod Sharing
pub mod Schedule
use tetra_host.Prelude.{
  ℕ, zero, suc, String, Bool, true, false, not, ◌&&◌, ◌+◌, ◌/◌, ◌==◌, max, Option, none, some, List,
  [], ◌∷◌, map, Result, ok, err, ltb, if◌then◌else◌, first, select, insert, delete, count,
}
use tetra_host.Prelude.Text.{contains}
use tetra_host.Models.{
  Db, Tenant, Plan, TenantResource, Deployment, resource_type_app, provider_docker, is_inflight,
}
use tetra_host.Plans.{Settings, get_default}
use tetra_host.Plans

pub record Allocation : Type 0 where
  pub cpu_millicores : ℕ
  pub mem_mb : ℕ
  pub disk_mb : ℕ

-- `reason` is always "apps"
pub record QuotaExceeded : Type 0 where
  pub limit : ℕ
  pub used : ℕ

abbrev pub default_free_max_apps : ℕ
default_free_max_apps = 1

-- an app row of the tenant
unfoldable pub is_app_of : String → TenantResource → Bool
is_app_of tenant_id r = r.tenant_id == tenant_id && r.resource_type == resource_type_app

unfoldable pub reserved_ids : String → Db → List String
reserved_ids tenant_id db = map (λ r. r.external_id) (select (is_app_of tenant_id) db.resources)

-- an in-flight deployment of the tenant whose project holds no reservation
unfoldable pub is_unreserved : String → List String → Deployment → Bool
is_unreserved tenant_id reserved d =
    d.tenant_id == tenant_id && is_inflight d.status && not (contains reserved d.project)

unfoldable pub count_apps : String → Db → ℕ
count_apps tenant_id db =
    count (is_app_of tenant_id) db.resources
    + count (is_unreserved tenant_id (reserved_ids tenant_id db)) db.deployments

find_tenant : String → Db → Option Tenant
find_tenant tenant_id db = first (λ t. t.id == tenant_id) db.tenants

scope_of : Option Tenant → Bool
scope_of none = false
scope_of (some t) = t.is_platform_scope

unfoldable pub is_platform_scope : String → Db → Bool
unfolding find_tenant scope_of
is_platform_scope tenant_id db = scope_of (find_tenant tenant_id db)

plan_by : Db → Option String → Option Plan
plan_by db none = none
plan_by db (some plan_id) = if plan_id == "" then none else Plans.get_by_id db plan_id

tenant_plan : Db → Option Tenant → Option Plan
tenant_plan db none = none
tenant_plan db (some t) = plan_by db t.plan_id

or_default : Db → Option Plan → Option Plan
or_default db none = get_default db
or_default db (some plan) = some plan

unfoldable pub resolve_plan : String → Db → Option Plan
unfolding find_tenant tenant_plan plan_by or_default
resolve_plan tenant_id db = or_default db (tenant_plan db (find_tenant tenant_id db))

max_apps_of : Option Plan → ℕ
max_apps_of none = default_free_max_apps
max_apps_of (some plan) = plan.max_apps

unfoldable pub resolve_max_apps : String → Db → ℕ
unfolding max_apps_of
resolve_max_apps tenant_id db = max_apps_of (resolve_plan tenant_id db)

allocation_of : Settings → Option Plan → Allocation
allocation_of cfg none = record {
  cpu_millicores = cfg.default_app_cpu_millicores;
  mem_mb = cfg.default_app_mem_mb;
  disk_mb = cfg.default_app_disk_mb;
}
allocation_of cfg (some plan) =
    let share = max plan.max_apps 1 in
    record {
      cpu_millicores = max cfg.default_app_cpu_millicores (plan.cpu_millicores / share);
      mem_mb = max cfg.default_app_mem_mb (plan.mem_mb / share);
      disk_mb = max cfg.default_app_disk_mb (plan.disk_mb / share);
    }

unfoldable pub plan_allocation : Settings → String → Db → Allocation
unfolding allocation_of
plan_allocation cfg tenant_id db = allocation_of cfg (resolve_plan tenant_id db)

abbrev pub reservation : String → String → String → Allocation → String → TenantResource
reservation row_id tenant_id project allocation display_name = record {
  id = row_id;
  tenant_id = tenant_id;
  provider = provider_docker;
  resource_type = resource_type_app;
  external_id = project;
  display_name = display_name;
  cpu_millicores = some allocation.cpu_millicores;
  mem_mb = some allocation.mem_mb;
  disk_mb = some allocation.disk_mb;
}

abbrev pub reserve : String → String → String → Allocation → String → Db → Db
reserve row_id tenant_id project allocation display_name db = record db {
  resources = insert (reservation row_id tenant_id project allocation display_name) db.resources;
}

-- `row_id` is the fresh id of the reservation's row.
unfoldable pub check_and_reserve :
    String → String → String → Allocation → String → Db → Result QuotaExceeded Db
check_and_reserve row_id tenant_id project allocation display_name db =
    let reserved = reserve row_id tenant_id project allocation display_name db in
    if is_platform_scope tenant_id db
    then ok reserved
    else if ltb (resolve_max_apps tenant_id db) (count_apps tenant_id db + 1)
    then err (record { limit = resolve_max_apps tenant_id db; used = count_apps tenant_id db })
    else ok reserved

abbrev pub is_reservation_of : String → String → TenantResource → Bool
is_reservation_of tenant_id project r =
    r.tenant_id == tenant_id && r.external_id == project && r.resource_type == resource_type_app

unfoldable pub release : String → String → Db → Db
release tenant_id project db = record db {
  resources = delete (is_reservation_of tenant_id project) db.resources;
}

-- `row.cpu_millicores or default`: a missing and a zero size both stand for the default
or_size : ℕ → Option ℕ → ℕ
or_size fallback none = fallback
or_size fallback (some zero) = fallback
or_size fallback (some (suc n)) = suc n

sum_sizes : (TenantResource → Option ℕ) → ℕ → List TenantResource → ℕ
unfolding or_size
sum_sizes size fallback [] = 0
sum_sizes size fallback (r ∷ rows) = or_size fallback (size r) + sum_sizes size fallback rows

pub record Usage : Type 0 where
  pub apps : ℕ
  pub cpu_millicores : ℕ
  pub mem_mb : ℕ
  pub disk_mb : ℕ

unfoldable pub usage : Settings → String → Db → Usage
unfolding sum_sizes
usage cfg tenant_id db =
    let rows = select (is_app_of tenant_id) db.resources in
    record {
      apps = count_apps tenant_id db;
      cpu_millicores = sum_sizes (λ r. r.cpu_millicores) cfg.default_app_cpu_millicores rows;
      mem_mb = sum_sizes (λ r. r.mem_mb) cfg.default_app_mem_mb rows;
      disk_mb = sum_sizes (λ r. r.disk_mb) cfg.default_app_disk_mb rows;
    }
