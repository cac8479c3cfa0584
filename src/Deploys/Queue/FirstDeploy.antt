-- ===== src/Deploys/Queue/FirstDeploy.antt =====
-- A first deployment, from the request to the end of its run.
use tetra_host.Prelude.{
  ℕ, String, ◌≡◌, refl, Option, none, Result, ok, err, inl, inr, ◌⊎◌, Bool-cases, Option-cases,
  first, ◌∙◌, ap, insert, delete, carry_ok,
}
use tetra_host.Models.{Db, DeploymentStatus}
use tetra_host.Access.{tenant_key}
use tetra_host.Quota.{
  QuotaExceeded, check_and_reserve, plan_allocation, reservation, is_reservation_of, release,
}
use tetra_host.Quota.Reserving.{granted_cases, release-check_and_reserve}
use tetra_host.Deploys.{Settings, World, sanitize_project_name, find_app}
use tetra_host.Deploys.Run.{Deploy, run_deploy}
use tetra_host.Deploys.Run.Effects.{HasStatus}
use tetra_host.Deploys.Run.Settles.{run_deploy-Ended}
use tetra_host.Deploys.Queue.{reserved, start_unless, start_deploy_for_tenant}

module _ (cfg : Settings) (id : String) (tenant_id : Option String)
    (row_id git_url ref name : String) (port : ℕ) where
  abbrev pub first_job : Deploy
  first_job = record {
    deployment_id = id;
    tenant_id = tenant_id;
    git_url = git_url;
    ref = ref;
    project = sanitize_project_name name;
    port = port;
    env_project = none;
  }

  reserved-ok :
      (r : Result QuotaExceeded Db) {job : Deploy} {queued : Db}
      → reserved cfg id tenant_id row_id git_url ref name port r ≡ ok (job, queued)
      → (mid : Db) × (r ≡ ok mid) × (job ≡ first_job) × (queued.resources ≡ mid.resources)
  unfolding reserved
  reserved-ok (err q) e = cc
  reserved-ok (ok mid) {job} {queued} e =
      let (same_job, same_rows) =
        carry_ok (λ out. (out.0 ≡ first_job) × (out.1.resources ≡ mid.resources)) e (refl, refl) in
      (mid, refl, same_job, same_rows)

  start_deploy_for_tenant-ok :
      (db : Db) {job : Deploy} {queued : Db}
      → start_deploy_for_tenant cfg id tenant_id row_id git_url ref name port db ≡ ok (job, queued)
      → (mid : Db) × (check_and_reserve row_id
            (tenant_key tenant_id)
            (sanitize_project_name name)
            (plan_allocation cfg.sizes (tenant_key tenant_id) db)
            name
            db
          ≡ ok mid)
        × (job ≡ first_job)
        × (queued.resources ≡ mid.resources)
  unfolding start_deploy_for_tenant start_unless
  start_deploy_for_tenant-ok db e = elim (Bool-cases cfg.enable_provider_actions) [
    | inr off ↦ let never = rw off at e in cc
    | inl on ↦
        elim (Option-cases (find_app (tenant_key tenant_id) (sanitize_project_name name) db)) [
          | inr (app, here) ↦ let never = rw (on, here) at e in cc
          | inl gone ↦ reserved-ok _ (rw (on, gone) at e)
        ]
  ]

  -- Where the tenant had no reservation of the project, and a first deployment of it was accepted,
  -- its run ends with the deployment ready and exactly the new reservation added, or with the
  -- deployment failed and the reservations as they were before the request, whatever the builder,
  -- docker, the registry and the receivers of notifications answer.
  pub first_deploy-all_or_nothing :
      (world : World) (db : Db) {job : Deploy} {queued : Db}
      → first (is_reservation_of (tenant_key tenant_id) (sanitize_project_name name)) db.resources
        ≡ none
      → start_deploy_for_tenant cfg id tenant_id row_id git_url ref name port db ≡ ok (job, queued)
      → (HasStatus id DeploymentStatus.ready (run_deploy cfg world job queued).1
          × ((run_deploy cfg world job queued).1.resources
              ≡ insert
                  (reservation row_id
                    (tenant_key tenant_id)
                    (sanitize_project_name name)
                    (plan_allocation cfg.sizes (tenant_key tenant_id) db)
                    name)
                  db.resources))
        ⊎ (HasStatus id DeploymentStatus.error (run_deploy cfg world job queued).1
            × ((run_deploy cfg world job queued).1.resources ≡ db.resources))
  unfolding release
  first_deploy-all_or_nothing world db {job} {queued} fresh accepted =
      let (mid, granted, same_job, same_rows) = start_deploy_for_tenant-ok db accepted in
      let t = tenant_key tenant_id in
      let project = sanitize_project_name name in
      let a = plan_allocation cfg.sizes t db in
      let reserved_rows =
        ap (λ x. x.resources) (granted_cases row_id t project a name db granted).0 in
      let freed =
        ap (λ x. x.resources)
          (release-check_and_reserve row_id t project a name db fresh granted) in
      rw same_job (elim (run_deploy-Ended cfg world first_job queued) [
        | inl (ready, kept) ↦ inl (ready, kept ∙ same_rows ∙ reserved_rows)
        | inr (failed, gone) ↦ inr (
          failed,
          gone ∙ ap (λ rows. delete (is_reservation_of t project) rows) same_rows ∙ freed,
        )
      ])
