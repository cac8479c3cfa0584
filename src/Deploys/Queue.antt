-- ===== src/Deploys/Queue.antt =====
-- app/modules/deploys/service.py: the calls that put a deployment in the queue. Each gives the
-- arguments of the background task that it starts.
pub mod FirstDeploy
pub mod Redeploy
use tetra_host.Prelude.{
  ℕ, String, Bool, true, false, not, ◌&&◌, ◌||◌, ◌==◌, Option, none, some, List, [], ◌∷◌, Result,
  ok, err, if◌then◌else◌, first, select, insert, newest_first, take,
}
use tetra_host.Models.{Db, Deployment, DeploymentStatus, TenantResource, is_ready}
use tetra_host.Access.{tenant_key}
use tetra_host.Quota.{QuotaExceeded, check_and_reserve, plan_allocation}
use tetra_host.Deploys.{Settings, DeployError, sanitize_project_name, find_app}
use tetra_host.Deploys.Run.{Deploy}

abbrev pub queued_row : String → String → String → String → String → ℕ → Deployment
queued_row id tenant_id project git_url ref port = record {
  id = id;
  tenant_id = tenant_id;
  project = project;
  git_url = git_url;
  ref = ref;
  status = DeploymentStatus.queued;
  builder = "";
  image = "";
  commit = "";
  domain = "";
  port = port;
  log = "";
  error = "";
}

abbrev pub enqueue : Deployment → Db → Db
enqueue row db = record db { deployments = insert row db.deployments }

module _ (cfg : Settings) (id : String) (tenant_id : Option String) where
  module _ (row_id git_url ref name : String) (port : ℕ) where
    unfoldable pub reserved : Result QuotaExceeded Db → Result DeployError (Deploy × Db)
    reserved (err q) = err (DeployError.quota_exceeded q.limit q.used)
    reserved (ok db) =
        let project = sanitize_project_name name in
        ok (
          record {
            deployment_id = id;
            tenant_id = tenant_id;
            git_url = git_url;
            ref = ref;
            project = project;
            port = port;
            env_project = none;
          },
          enqueue (queued_row id (tenant_key tenant_id) project git_url ref port) db,
        )

    unfoldable pub start_unless : Option TenantResource → Db → Result DeployError (Deploy × Db)
    unfolding reserved
    start_unless (some _) db = err DeployError.already_deployed
    start_unless none db =
        let tenant = tenant_key tenant_id in
        reserved (
          check_and_reserve row_id tenant (sanitize_project_name name)
            (plan_allocation cfg.sizes tenant db) name db)

    -- `row_id` is the fresh id of the reservation, and `id` that of the deployment.
    unfoldable pub start_deploy_for_tenant : Db → Result DeployError (Deploy × Db)
    unfolding start_unless
    start_deploy_for_tenant db =
        if not cfg.enable_provider_actions
        then err DeployError.actions_disabled
        else start_unless (find_app (tenant_key tenant_id) (sanitize_project_name name) db) db

  module _ (git_url ref project : String) (port : ℕ) where
    unfoldable pub redeploy_found : Option TenantResource → Db → Result DeployError (Deploy × Db)
    redeploy_found none db = err DeployError.not_deployed
    redeploy_found (some _) db = ok (
      record {
        deployment_id = id;
        tenant_id = tenant_id;
        git_url = git_url;
        ref = ref;
        project = project;
        port = port;
        env_project = none;
      },
      enqueue (queued_row id (tenant_key tenant_id) project git_url ref port) db,
    )

    unfoldable pub redeploy_for_tenant : Db → Result DeployError (Deploy × Db)
    unfolding redeploy_found
    redeploy_for_tenant db =
        if not cfg.enable_provider_actions
        then err DeployError.actions_disabled
        else redeploy_found (find_app (tenant_key tenant_id) project db) db

unfoldable pub own_deployment : String → Option Deployment → Option Deployment
own_deployment tenant_id none = none
own_deployment tenant_id (some d) = if d.tenant_id == tenant_id then some d else none

unfoldable pub get_deployment_for_tenant : Option String → String → Db → Option Deployment
unfolding own_deployment
get_deployment_for_tenant tenant_id id db =
    own_deployment (tenant_key tenant_id) (first (λ d. d.id == id) db.deployments)

unfoldable pub list_deployments_for_tenant : Option String → ℕ → Db → List Deployment
list_deployments_for_tenant tenant_id limit db =
    take limit (newest_first (select (λ d. d.tenant_id == tenant_key tenant_id) db.deployments))
