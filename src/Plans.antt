-- ===== src/Plans.antt =====
-- app/modules/plans/service.py: the subscription plans. The two defaults of the settings that a
-- plan is checked against, and the rest of them, are `Settings`.
pub mod Coherence
use tetra_host.Prelude.{
  ℕ, String, Bool, true, false, not, ◌||◌, ◌*◌, ◌==◌, Option, none, some, List, Result, ok, err,
  ◌>>◌, ltb, if◌then◌else◌, first, insert, select, update,
}
use tetra_host.Prelude.Text.{strip, lower}
use tetra_host.Models.{Db, Plan}

-- the settings of app/config.py that the plans and the quota read
pub record Settings : Type 0 where
  pub default_app_cpu_millicores : ℕ
  pub default_app_mem_mb : ℕ
  pub default_app_disk_mb : ℕ

pub data PlanError : Type 0 where
  cpu_incoherent mem_incoherent : PlanError

unfoldable pub get_by_id : Db → String → Option Plan
get_by_id db plan_id = first (λ p. p.id == plan_id) db.plans

-- the plan keyed "free"
unfoldable pub get_default : Db → Option Plan
get_default db = first (λ p. p.key == "free") db.plans

unfoldable pub validate_coherence : Settings → ℕ → ℕ → ℕ → Result PlanError (Unit {0})
validate_coherence cfg max_apps cpu_millicores mem_mb =
    if ltb cpu_millicores (max_apps * cfg.default_app_cpu_millicores)
    then err cpu_incoherent
    else if ltb mem_mb (max_apps * cfg.default_app_mem_mb)
    then err mem_incoherent
    else ok tt

-- `draft` holds the arguments; the id is the one that the row is given.
unfoldable pub create : Settings → Plan → Db → Result PlanError (Plan × Db)
create cfg draft db = do
  validate_coherence cfg draft.max_apps draft.cpu_millicores draft.mem_mb
  let plan : Plan = record draft {
    key = lower (strip draft.key);
    name = strip draft.name;
    description = strip draft.description;
    currency = lower (strip draft.currency);
    is_archived = false;
  }
  ok (plan, record db { plans = insert plan db.plans })

-- the fields of a partial update; `none` leaves the column as it is
pub record PlanUpdate : Type 0 where
  pub name : Option String
  pub description : Option String
  pub price_cents : Option ℕ
  pub currency : Option String
  pub max_apps : Option ℕ
  pub max_domains : Option ℕ
  pub cpu_millicores : Option ℕ
  pub mem_mb : Option ℕ
  pub disk_mb : Option ℕ
  pub sort_order : Option ℕ

-- setattr, where a value is given
abbrev pub or_old {ℓ} : {A : Type ℓ} → Option A → A → A
or_old none old = old
or_old (some new) old = new

unfoldable pub apply_update : PlanUpdate → Plan → Plan
apply_update f plan = record plan {
  name = or_old f.name plan.name;
  description = or_old f.description plan.description;
  price_cents = or_old f.price_cents plan.price_cents;
  currency = or_old f.currency plan.currency;
  max_apps = or_old f.max_apps plan.max_apps;
  max_domains = or_old f.max_domains plan.max_domains;
  cpu_millicores = or_old f.cpu_millicores plan.cpu_millicores;
  mem_mb = or_old f.mem_mb plan.mem_mb;
  disk_mb = or_old f.disk_mb plan.disk_mb;
  sort_order = or_old f.sort_order plan.sort_order;
}

-- A flushed row takes the place of the row that has its id.
unfoldable pub store : Plan → Db → Db
store plan db = record db { plans = update (λ p. p.id == plan.id) (λ _. plan) db.plans }

update_found : Settings → PlanUpdate → Db → Option Plan → Result PlanError (Option Plan × Db)
update_found cfg fields db none = ok (none, db)
update_found cfg fields db (some old) = do
  let plan = apply_update fields old
  validate_coherence cfg plan.max_apps plan.cpu_millicores plan.mem_mb
  ok (some plan, store plan db)

unfoldable pub update_plan :
    Settings → String → PlanUpdate → Db → Result PlanError (Option Plan × Db)
unfolding update_found
update_plan cfg plan_id fields db = update_found cfg fields db (get_by_id db plan_id)

archive_found : Db → Option Plan → Option Plan × Db
archive_found db none = (none, db)
archive_found db (some old) =
    let plan : Plan = record old { is_archived = true } in (some plan, store plan db)

unfoldable pub archive : String → Db → Option Plan × Db
unfolding archive_found
archive plan_id db = archive_found db (get_by_id db plan_id)

-- The query's order, by `sort_order` and `name`, is left out: the rows are those of the table.
unfoldable pub list_plans : Bool → Db → List Plan
list_plans include_archived db = select (λ p. include_archived || not p.is_archived) db.plans
