-- ===== src/Deploys/Run.antt =====
-- app/modules/deploys/service.py, `_run_deploy`: the background task of a deployment.
pub mod Effects
pub mod Settles
use tetra_host.Prelude.{
  ℕ, zero, suc, String, Bool, true, false, not, ◌&&◌, ◌==◌, ◌+◌, ◌-◌, Option, none, some, List, [],
  ◌∷◌, ◌++◌, leb, length, if◌then◌else◌,
}
use tetra_host.Prelude.Text.{decimal, take_chars}
use tetra_host.Prelude.Text
use tetra_host.Prelude.Dict.{Dict}
use Prim.Native.String
use tetra_host.Models.{Db, Deployment, DeploymentStatus}
use tetra_host.Access.{tenant_key}
use tetra_host.Quota.{release}
use tetra_host.Domains.{verified_hostnames_for_project}
use tetra_host.Compose.Caps.{apply_resource_limits}
use tetra_host.Compose.Edge.{apply_edge}
use tetra_host.Registry.{is_enabled, push}
use tetra_host.Notify.{dispatch, deploy_succeeded, deploy_failed}
use tetra_host.Deploys.{
  Settings, World, Outcome, BuildResult, returned, refused, crashed, compose_for_image,
  set_deployment, domain_of,
}
use tetra_host.Deploys.Env.{env_map_for_deploy, limits_for}
use tetra_host.Deploys.Retention.{prune_old_images}

infixl 65 ◌+s◌
abbrev pub ◌+s◌ : String → String → String
a +s b = String.◌++◌ a b

-- the arguments of the task; `env_project` is the parent app of a preview
pub record Deploy : Type 0 where
  pub deployment_id : String
  pub tenant_id : Option String
  pub git_url : String
  pub ref : String
  pub project : String
  pub port : ℕ
  pub env_project : Option String

abbrev pub is_preview : Deploy → Bool
is_preview job = elim job.env_project [ none ↦ false | some _ ↦ true ]

unfoldable pub or_text : Option String → String → String
or_text none other = other
or_text (some s) other = if s == "" then other else s

unfoldable pub or_port : ℕ → ℕ → ℕ
or_port zero other = other
or_port (suc n) other = suc n

-- log.append(line)
abbrev pub append : List String → String → List String
append log line = log ++ (line ∷ [])

abbrev pub keep_fields : Deployment → Deployment
keep_fields d = d

abbrev pub set_status : DeploymentStatus → Deployment → Deployment
set_status status d = record d { status = status }

abbrev pub set_error : String → Deployment → Deployment
set_error message d = record d { status = DeploymentStatus.error; error = take_chars 500 message }

module _ (cfg : Settings) (world : World) where
  unfoldable pub notified : String → String → Dict String → Db → Db
  notified tenant event payload db =
      if tenant == "" then db else (dispatch world.wire tenant event payload db).1

  unfoldable pub notify_deploy : Deploy → String → Dict String → Db → Db
  unfolding notified
  notify_deploy job event payload db =
      if is_preview job
      then db
      else notified (tenant_key job.tenant_id) event
          (("project", job.project) ∷ ("deployment_id", job.deployment_id) ∷ payload) db

  -- `_on_build_line`, over the output of the build: the row is written once a second at most
  unfoldable pub on_build_lines :
      String → ℕ → List (String × ℕ) → List String → Db → List String × Db
  on_build_lines id last_flush [] log db = (log, db)
  on_build_lines id last_flush ((line, now) ∷ rest) log db =
      let longer = append log line in
      let flushed = on_build_lines id now rest longer (set_deployment id longer keep_fields db) in
      let buffered = on_build_lines id last_flush rest longer db in
      if leb (last_flush + 1000000) now then flushed else buffered

  -- both `except` branches
  unfoldable pub fail_deploy : Deploy → List String → String → String → Db → Db
  fail_deploy job log line message db =
      let marked = set_deployment job.deployment_id (append log line) (set_error message) db in
      let released = release (tenant_key job.tenant_id) job.project marked in
      notify_deploy job deploy_failed (("status", "error") ∷ ("error", take_chars 500 message) ∷ [])
        released

  -- the reference that the deployment records, and the log afterwards
  unfoldable pub pushed_image : Deploy → BuildResult → List String → String × List String
  pushed_image job build log =
      if not (is_preview job) && is_enabled cfg.registry
      then elim (push world.docker cfg.registry build.image) [
        | some ref ↦ (ref, append log ("✓ pushed to registry as " +s ref))
        | none ↦ (
          build.image,
          append log
              "⚠ registry push failed — image is local-only (rollback may not survive pruning)",
        )
      ]
      else (build.image, log)

  -- the compose text that runs an image as the stack of a project
  unfoldable pub stack_text : Option String → String → String → ℕ → Dict String → Db → String
  stack_text tenant_id project image port env db =
      let (cpu, mem) = limits_for cfg.sizes tenant_id project db in
      apply_resource_limits world.yaml cpu mem cfg.default_app_pids_limit (
        apply_edge world.yaml cfg.edge project (decimal port)
          (verified_hostnames_for_project tenant_id project db)
          (compose_for_image world.yaml image port env))

  unfoldable pub live_line : String → String
  live_line domain = if domain == "" then "✓ running" else "✓ live at https://" +s domain

  unfoldable pub set_ready : BuildResult → String → ℕ → String → Deployment → Deployment
  set_ready build image port domain d = record d {
    status = DeploymentStatus.ready;
    image = image;
    builder = build.builder;
    commit = build.commit;
    port = port;
    domain = domain;
  }

  -- what follows the start of the stack; the images that retention deleted, and the rows
  unfoldable pub finish_deploy :
      Deploy → BuildResult → String → ℕ → List String → Db → List String × Db
  unfolding live_line set_ready
  finish_deploy job build image port log db =
      let domain = domain_of cfg job.project in
      let marked =
        set_deployment job.deployment_id (append log (live_line domain))
          (set_ready build image port domain) db in
      let told =
        notify_deploy job deploy_succeeded
          (("status", "ready") ∷ ("domain", domain) ∷ ("commit", build.commit) ∷ []) marked in
      if is_preview job then ([], told) else prune_old_images cfg job.tenant_id job.project told

  unfoldable pub after_stack :
      Deploy → BuildResult → String → ℕ → List String → Db → Outcome (Unit {0}) → List String × Db
  unfolding finish_deploy fail_deploy
  after_stack job build image port log db (returned _) = finish_deploy job build image port log db
  after_stack job build image port log db (refused m) = ([], fail_deploy job log ("✗ " +s m) m db)
  after_stack job build image port log db (crashed m) =
      ([], fail_deploy job log ("✗ unexpected: " +s m) m db)

  unfoldable pub injected : String → Dict String → List String → Db → List String × Db
  injected id [] log db = (log, db)
  injected id (var ∷ env) log db =
      let longer =
        append log ("→ injecting " +s decimal (length (var ∷ env)) +s " environment variable(s)") in
      (longer, set_deployment id longer keep_fields db)

  -- what follows the build
  unfoldable pub start_stack : Deploy → BuildResult → List String → Db → List String × Db
  unfolding or_port or_text injected after_stack
  start_stack job build log db =
      let port = or_port build.port job.port in
      let built = append log ("✓ built " +s build.image +s " via " +s build.builder) in
      let (image, pushed) = pushed_image job build built in
      let starting = append pushed ("→ starting container on port " +s decimal port) in
      let recorded =
        set_deployment job.deployment_id starting (λ d. record d { image = image }) db in
      let env =
        env_map_for_deploy world.box job.tenant_id (or_text job.env_project job.project) recorded in
      let (log, noted) = injected job.deployment_id env starting recorded in
      after_stack job build image port log noted
        (world.deploy_stack job.project (stack_text job.tenant_id job.project image port env noted))

  unfoldable pub after_build : Deploy → List String → Db → Outcome BuildResult → List String × Db
  unfolding start_stack fail_deploy
  after_build job log db (returned build) = start_stack job build log db
  after_build job log db (refused m) = ([], fail_deploy job log ("✗ " +s m) m db)
  after_build job log db (crashed m) = ([], fail_deploy job log ("✗ unexpected: " +s m) m db)

  unfoldable pub run_deploy : Deploy → Db → List String × Db
  unfolding after_build
  run_deploy job db =
      let log = append [] ("→ cloning " +s job.git_url +s " @ " +s job.ref) in
      let building =
        set_deployment job.deployment_id log (set_status DeploymentStatus.building) db in
      let (output, streamed) =
        on_build_lines job.deployment_id world.started_at world.build_lines log building in
      after_build job output streamed world.build
