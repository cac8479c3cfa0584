-- ===== src/Deploys/Run/Settles.antt =====
-- How a run ends.
use tetra_host.Prelude.{
  ℕ, String, ◌≡◌, refl, List, [], ◌∷◌, inl, inr, ◌⊎◌, Bool-cases, ◌∙◌, ap, delete,
}
use tetra_host.Models.{Db, DeploymentStatus}
use tetra_host.Access.{tenant_key}
use tetra_host.Quota.{release, is_reservation_of}
use tetra_host.Deploys.{
  Settings, World, Outcome, BuildResult, returned, refused, crashed, set_deployment, domain_of,
}
use tetra_host.Deploys.Run.{
  Deploy, is_preview, fail_deploy, finish_deploy, after_stack, start_stack, after_build, run_deploy,
  notify_deploy, pushed_image, on_build_lines, injected, append, set_error, set_ready, live_line,
  or_port, or_text, stack_text, set_status, ◌+s◌,
}
use tetra_host.Deploys.Env.{env_map_for_deploy}
use tetra_host.Prelude.Text.{decimal}
use tetra_host.Notify.{deploy_succeeded}
use tetra_host.Deploys.Run.Effects.{
  HasStatus, notify_deploy-SameRows, set_deployment-HasStatus, on_build_lines-resources,
  injected-resources, prune_old_images-keeps,
}

-- The rows of the deployment are ready and the reservations are as before, or they are failed and the
-- reservation of the project is gone.
abbrev pub Ended : Deploy → Db → Db → Type 0
Ended job before after =
    (HasStatus job.deployment_id DeploymentStatus.ready after
      × (after.resources ≡ before.resources))
    ⊎ (HasStatus job.deployment_id DeploymentStatus.error after
        × (after.resources
            ≡ delete (is_reservation_of (tenant_key job.tenant_id) job.project) before.resources))

module _ (cfg : Settings) (world : World) (job : Deploy) where
  fail_deploy-Ended :
      (log : List String) (line message : String) (db : Db)
      → Ended job db (fail_deploy cfg world job log line message db)
  unfolding fail_deploy release set_deployment
  fail_deploy-Ended log line message db =
      let (kept, same) = notify_deploy-SameRows cfg world job _ _ _ in
      inr (
        rw same (
            set_deployment-HasStatus job.deployment_id (append log line) (set_error message)
              DeploymentStatus.error db (λ d. refl)),
        kept,
      )

  finish_deploy-Ended :
      (build : BuildResult) (image : String) (port : ℕ) (log : List String) (db : Db)
      → Ended job db (finish_deploy cfg world job build image port log db).1
  unfolding finish_deploy set_deployment set_ready
  finish_deploy-Ended build image port log db =
      let domain = domain_of cfg job.project in
      let marked =
        set_deployment job.deployment_id (append log (live_line cfg world domain))
          (set_ready cfg world build image port domain) db in
      let payload = ("status", "ready") ∷ ("domain", domain) ∷ ("commit", build.commit) ∷ [] in
      let told = notify_deploy cfg world job deploy_succeeded payload marked in
      let (kept, same) = notify_deploy-SameRows cfg world job deploy_succeeded payload marked in
      let ready : HasStatus job.deployment_id DeploymentStatus.ready told = rw same (
        set_deployment-HasStatus job.deployment_id
          (append log (live_line cfg world (domain_of cfg job.project)))
          (set_ready cfg world build image port (domain_of cfg job.project)) DeploymentStatus.ready
          db (λ d. refl)) in
      elim (Bool-cases (is_preview job)) [
        | inl e ↦ inl (rw e ready, rw e kept)
        | inr e ↦
            let (rows, others) =
              prune_old_images-keeps cfg world job.deployment_id DeploymentStatus.ready
                job.tenant_id job.project told ready in
            inl (rw e rows, rw e (others ∙ kept))
      ]

  after_stack-Ended :
      (build : BuildResult) (image : String) (port : ℕ) (log : List String) (db : Db)
      (outcome : Outcome (Unit {0}))
      → Ended job db (after_stack cfg world job build image port log db outcome).1
  unfolding after_stack
  after_stack-Ended build image port log db (returned _) =
      finish_deploy-Ended build image port log db
  after_stack-Ended build image port log db (refused m) = fail_deploy-Ended log _ m db
  after_stack-Ended build image port log db (crashed m) = fail_deploy-Ended log _ m db

  -- the reservations may be compared with those of an earlier database that has the same ones
  Ended-since :
      (before mid after : Db)
      → mid.resources ≡ before.resources
      → Ended job mid after
      → Ended job before after
  Ended-since before mid after same (inl (h, e)) = inl (h, e ∙ same)
  Ended-since before mid after same (inr (h, e)) = inr (
    h,
    e ∙ ap (λ rows. delete (is_reservation_of (tenant_key job.tenant_id) job.project) rows) same,
  )

  start_stack-Ended :
      (build : BuildResult) (log : List String) (db : Db)
      → Ended job db (start_stack cfg world job build log db).1
  unfolding start_stack set_deployment
  start_stack-Ended build log db =
      let port = or_port build.port job.port in
      let built = append log ("✓ built " +s build.image +s " via " +s build.builder) in
      let (image, pushed) = pushed_image cfg world job build built in
      let starting = append pushed ("→ starting container on port " +s decimal port) in
      let recorded =
        set_deployment job.deployment_id starting (λ d. record d { image = image }) db in
      let env =
        env_map_for_deploy world.box job.tenant_id (or_text job.env_project job.project) recorded in
      let (log, noted) = injected cfg world job.deployment_id env starting recorded in
      let outcome =
        world.deploy_stack job.project
          (stack_text cfg world job.tenant_id job.project image port env noted) in
      Ended-since db noted (after_stack cfg world job build image port log noted outcome).1
        (injected-resources cfg world job.deployment_id env starting recorded)
        (after_stack-Ended build image port log noted outcome)

  after_build-Ended :
      (log : List String) (db : Db) (outcome : Outcome BuildResult)
      → Ended job db (after_build cfg world job log db outcome).1
  unfolding after_build
  after_build-Ended log db (returned build) = start_stack-Ended build log db
  after_build-Ended log db (refused m) = fail_deploy-Ended log _ m db
  after_build-Ended log db (crashed m) = fail_deploy-Ended log _ m db

  -- Whatever the builder, docker, the registry and the receivers of notifications answer, a run leaves
  -- the rows of its deployment either ready, with the reservations as they were, or failed, without
  -- the tenant's reservations of the project, and with all others as they were.
  pub run_deploy-Ended : (db : Db) → Ended job db (run_deploy cfg world job db).1
  unfolding run_deploy set_deployment
  run_deploy-Ended db =
      let log = append [] ("→ cloning " +s job.git_url +s " @ " +s job.ref) in
      let building =
        set_deployment job.deployment_id log (set_status DeploymentStatus.building) db in
      let (output, streamed) =
        on_build_lines cfg world job.deployment_id world.started_at world.build_lines log
          building in
      Ended-since db streamed (after_build cfg world job output streamed world.build).1
        (on_build_lines-resources cfg world job.deployment_id world.started_at world.build_lines log
          building)
        (after_build-Ended output streamed world.build)
