-- ===== src/Tests/Quota.antt =====
-- Plans and quota.
use tetra_host.Prelude.{
  false, ◌≡◌, ◌≤◌, ◌*◌, refl, none, some, List, [], ◌∷◌, ok, err, max, first, arith, select, count,
  update, delete,
}
use tetra_host.Prelude.Text.{strip, lower, contains}
use tetra_host.Models.{
  Db, Tenant, TenantStatus, Plan, Deployment, DeploymentStatus, no_rows, is_inflight,
}
use tetra_host.Plans.{
  Settings, PlanUpdate, get_by_id, get_default, validate_coherence, create, update_plan,
  apply_update, store,
}
use tetra_host.Plans.Coherence.{IsCoherent, FoundCoherent, update_plan-AllCoherent}
use tetra_host.Quota.{
  Allocation, is_app_of, is_unreserved, reserved_ids, count_apps, is_platform_scope, resolve_plan,
  resolve_max_apps, plan_allocation, check_and_reserve, reserve, release, is_reservation_of, usage,
}
use tetra_host.Quota.Sharing.{plan_allocation-shares}
use tetra_host.Quota.Schedule.{Request, run, run-within}

quota : Unit {0}
unfolding first select count update delete contains strip lower is_inflight get_by_id get_default
    validate_coherence create update_plan apply_update store is_app_of is_unreserved reserved_ids
    count_apps is_platform_scope resolve_plan resolve_max_apps plan_allocation check_and_reserve
    release usage
quota = tt

abbrev settings : Settings
settings = record {
  default_app_cpu_millicores = 500;
  default_app_mem_mb = 512;
  default_app_disk_mb = 2048;
}

abbrev duo : Plan
duo = record {
  id = "p1";
  key = "duo";
  name = "Duo";
  description = "";
  price_cents = 900;
  currency = "usd";
  max_apps = 2;
  max_domains = 1;
  cpu_millicores = 1500;
  mem_mb = 1024;
  disk_mb = 2048;
  is_archived = false;
  sort_order = 1;
}

abbrev acme : Tenant
acme = record {
  id = "t1";
  name = "Acme";
  slug = "acme";
  status = TenantStatus.active;
  plan_id = some "p1";
  is_platform_scope = false;
  signup_ip = none;
}

abbrev small : Allocation
small = record { cpu_millicores = 750; mem_mb = 512; disk_mb = 2048 }

abbrev building : Deployment
building = record {
  id = "d1";
  tenant_id = "t1";
  project = "blog";
  git_url = "";
  ref = "main";
  status = DeploymentStatus.building;
  builder = "";
  image = "";
  commit = "";
  domain = "";
  port = 80;
  log = "";
  error = "";
}

abbrev start : Db
start = record no_rows { tenants = acme ∷ []; plans = duo ∷ []; deployments = building ∷ [] }

abbrev one : Db
one = reserve "r1" "t1" "blog" small "Blog" start

abbrev two : Db
two = reserve "r2" "t1" "shop" small "Shop" one

-- The build of a project that holds a reservation is not counted twice.
counts : (count_apps "t1" start ≡ 1) × (count_apps "t1" one ≡ 1) × (count_apps "t1" two ≡ 2)
unfolding quota
counts = (refl, refl, refl)

grants : check_and_reserve "r2" "t1" "shop" small "Shop" one ≡ ok two
unfolding quota
grants = refl

billed : is_platform_scope "t1" one ≡ false
unfolding quota
billed = refl

refuses : check_and_reserve "r3" "t1" "wiki" small "Wiki" two ≡ err (record { limit = 2; used = 2 })
unfolding quota
refuses = refl

unheld : first (is_reservation_of "t1" "shop") one.resources ≡ none
unfolding quota
unheld = refl

abbrev rush : List Request
rush =
    record {
      row_id = "r1";
      tenant_id = "t1";
      project = "blog";
      allocation = small;
      display_name = "Blog";
    }
    ∷ record {
      row_id = "r2";
      tenant_id = "t1";
      project = "shop";
      allocation = small;
      display_name = "Shop";
    }
    ∷ record {
      row_id = "r3";
      tenant_id = "t1";
      project = "wiki";
      allocation = small;
      display_name = "Wiki";
    }
    ∷ []

unbilled_start : is_platform_scope "t1" start ≡ false
unfolding quota
unbilled_start = refl

run-within_example :
    count_apps "t1" (run rush start) ≤ max (count_apps "t1" start) (resolve_max_apps "t1" start)
run-within_example = run-within "t1" rush start unbilled_start

duo-IsCoherent : IsCoherent settings duo
duo-IsCoherent = record { cpu_fits = omega arith; mem_fits = omega arith }

on_duo : resolve_plan "t1" start ≡ some duo
unfolding quota
on_duo = refl

plan_allocation-shares_example :
    (500 ≤ (plan_allocation settings "t1" start).cpu_millicores)
    × (512 ≤ (plan_allocation settings "t1" start).mem_mb)
    × (2048 ≤ (plan_allocation settings "t1" start).disk_mb)
    × (2 * (plan_allocation settings "t1" start).cpu_millicores ≤ 1500)
    × (2 * (plan_allocation settings "t1" start).mem_mb ≤ 1024)
plan_allocation-shares_example =
    plan_allocation-shares settings "t1" start duo on_duo duo-IsCoherent

abbrev drafted : Plan
drafted = record duo { key = " DUO "; name = " Duo" }

created : create settings drafted no_rows ≡ ok (duo, record no_rows { plans = duo ∷ [] })
unfolding quota
created = refl

abbrev widen : PlanUpdate
widen = record {
  name = none;
  description = none;
  price_cents = none;
  currency = none;
  max_apps = some 1;
  max_domains = none;
  cpu_millicores = none;
  mem_mb = none;
  disk_mb = none;
  sort_order = none;
}

abbrev solo : Plan
solo = record duo { max_apps = 1 }

updated : update_plan settings "p1" widen start ≡ ok (some solo, record start { plans = solo ∷ [] })
unfolding quota
updated = refl

update_plan-AllCoherent_example :
    FoundCoherent settings (some solo, record start { plans = solo ∷ [] })
update_plan-AllCoherent_example =
    update_plan-AllCoherent settings "p1" widen start (duo-IsCoherent, tt) updated
