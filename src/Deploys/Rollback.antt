-- ===== src/Deploys/Rollback.antt =====
-- app/modules/deploys/service.py: the return to the image of an earlier deployment.
pub mod Restores
pub mod Accepted
use tetra_host.Prelude.{
  ℕ, String, Bool, true, false, not, ◌&&◌, ◌||◌, ◌==◌, Option, none, some, List, [], ◌∷◌, Result,
  ok, err, if◌then◌else◌, first,
}
use tetra_host.Prelude.Text.{decimal, take_chars}
use Prim.Native.String.{◌++◌}
use tetra_host.Models.{Db, Deployment, DeploymentStatus, TenantResource, is_ready}
use tetra_host.Access.{tenant_key}
use tetra_host.Registry.{is_registry_qualified, is_enabled, image_exists, pull}
use tetra_host.Deploys.{
  Settings, World, Outcome, DeployError, returned, refused, crashed, find_app, set_deployment,
  domain_of,
}
use tetra_host.Deploys.Env.{env_map_for_deploy}
use tetra_host.Deploys.Run.{append, keep_fields, set_status, set_error, stack_text}
use tetra_host.Deploys.Queue.{queued_row, enqueue, get_deployment_for_tenant}

-- the arguments of the background task
pub record Rollback : Type 0 where
  pub deployment_id : String
  pub tenant_id : Option String
  pub project : String
  pub image : String
  pub port : ℕ

module _ (cfg : Settings) (id : String) (tenant_id : Option String) where
  unfoldable pub rollback_app :
      Deployment → Option TenantResource → Db → Result DeployError (Rollback × Db)
  rollback_app target none db = err DeployError.not_deployed
  rollback_app target (some _) db =
      let fresh =
        queued_row id (tenant_key tenant_id) target.project target.git_url target.ref target.port in
      ok (
        record {
          deployment_id = id;
          tenant_id = tenant_id;
          project = target.project;
          image = target.image;
          port = target.port;
        },
        enqueue
            (record fresh {
              image = target.image;
              commit = target.commit;
              builder = target.builder;
            })
            db,
      )

  unfoldable pub rollback_to : Option Deployment → Db → Result DeployError (Rollback × Db)
  unfolding rollback_app
  rollback_to none db = err DeployError.deployment_not_found
  rollback_to (some target) db =
      if not (is_ready target.status) || target.image == ""
      then err DeployError.not_rollbackable
      else rollback_app target (find_app (tenant_key tenant_id) target.project db) db

  unfoldable pub rollback_for_tenant : String → Db → Result DeployError (Rollback × Db)
  unfolding rollback_to
  rollback_for_tenant deployment_id db =
      if not cfg.enable_provider_actions
      then err DeployError.actions_disabled
      else rollback_to (get_deployment_for_tenant tenant_id deployment_id db) db

module _ (cfg : Settings) (world : World) (job : Rollback) where
  unfoldable pub fail_rollback : List String → String → String → Db → Db
  fail_rollback log line message db =
      set_deployment job.deployment_id (append log line) (set_error message) db

  unfoldable pub rolled_line : String → String
  rolled_line domain =
      if domain == "" then "✓ rolled back" else "✓ rolled back — live at https://" ++ domain

  unfoldable pub rolled_stack : List String → Db → Outcome (Unit {0}) → Db
  unfolding fail_rollback rolled_line
  rolled_stack log db (returned _) =
      let domain = domain_of cfg job.project in
      set_deployment job.deployment_id (append log (rolled_line domain))
        (λ d. record d {
          status = DeploymentStatus.ready;
          image = job.image;
          port = job.port;
          domain = domain;
        })
        db
  rolled_stack log db (refused m) = fail_rollback log ("✗ " ++ m) m db
  rolled_stack log db (crashed m) = fail_rollback log ("✗ unexpected: " ++ m) m db

  unfoldable pub start_rolled : List String → Db → Db
  unfolding rolled_stack
  start_rolled log db =
      let env = env_map_for_deploy world.box job.tenant_id job.project db in
      rolled_stack log db (
        world.deploy_stack job.project
          (stack_text cfg world job.tenant_id job.project job.image job.port env db))

  unfoldable pub evicted : String
  evicted =
      "Rollback image was evicted from the host and "
      ++ (if is_enabled cfg.registry
          then "predates the registry"
          else "no registry is configured to restore it")
      ++ " — redeploy from git instead."

  unfoldable pub unpulled : String
  unpulled =
      "Could not pull the rollback image from the registry — it may be outside the retention window or the registry may be unreachable; redeploy from git instead."

  unfoldable pub run_rollback : Db → Db
  unfolding fail_rollback evicted unpulled
  run_rollback db =
      let log = append [] ("→ rolling back to " ++ job.image) in
      let building =
        set_deployment job.deployment_id log (set_status DeploymentStatus.building) db in
      let pulling = append log "→ image not present locally — pulling from registry" in
      let noted = set_deployment job.deployment_id pulling keep_fields building in
      if image_exists world.docker cfg.registry job.image
      then start_rolled log building
      else if is_registry_qualified job.image
      then if pull world.docker cfg.registry job.image
        then start_rolled (append pulling "✓ pulled") noted
        else fail_rollback pulling ("✗ " ++ unpulled) unpulled noted
      else fail_rollback log ("✗ " ++ evicted) evicted building
