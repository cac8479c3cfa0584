-- ===== src/Deploys/Queue/Redeploy.antt =====
-- A deployment of an app that exists, from the request to the end of its run.
use tetra_host.Prelude.{
  ℕ, String, ◌≡◌, refl, Option, none, List, ◌∷◌, [], ok, inl, inr, ◌⊎◌, arith, Bool-cases,
  Option-cases, first, ◌∙◌, delete, carry_ok,
}
use tetra_host.Models.{Db, DeploymentStatus, TenantResource}
use tetra_host.Access.{tenant_key}
use tetra_host.Quota.{is_reservation_of}
use tetra_host.Deploys.{Settings, World, find_app, is_app_row}
use tetra_host.Deploys.Run.{Deploy, run_deploy}
use tetra_host.Deploys.Run.Effects.{HasStatus}
use tetra_host.Deploys.Run.Settles.{run_deploy-Ended}
use tetra_host.Deploys.Queue.{redeploy_found, redeploy_for_tenant}

released-none :
    (t project : String) (rows : List TenantResource)
    → first (is_app_row t project) (delete (is_reservation_of t project) rows) ≡ none
unfolding first delete is_app_row
released-none t project [] = refl
released-none t project (r ∷ rows) = ground (arith, released-none t project rows)

module _ (cfg : Settings) (id : String) (tenant_id : Option String) (git_url ref project : String)
    (port : ℕ) where
  abbrev pub rebuild_job : Deploy
  rebuild_job = record {
    deployment_id = id;
    tenant_id = tenant_id;
    git_url = git_url;
    ref = ref;
    project = project;
    port = port;
    env_project = none;
  }

  redeploy_for_tenant-ok :
      (db : Db) {job : Deploy} {queued : Db}
      → redeploy_for_tenant cfg id tenant_id git_url ref project port db ≡ ok (job, queued)
      → (job ≡ rebuild_job) × (queued.resources ≡ db.resources)
  unfolding redeploy_for_tenant redeploy_found
  redeploy_for_tenant-ok db e = elim (Bool-cases cfg.enable_provider_actions) [
    | inr off ↦ let never = rw off at e in cc
    | inl on ↦ elim (Option-cases (find_app (tenant_key tenant_id) project db)) [
      | inl gone ↦ let never = rw (on, gone) at e in cc
      | inr (app, here) ↦
          carry_ok (λ out. (out.0 ≡ rebuild_job) × (out.1.resources ≡ db.resources))
            (rw (on, here) at e) (refl, refl)
    ]
  ]

  -- An accepted rebuild of an app ends with the deployment ready and all reservations as they were,
  -- or with the deployment failed and no reservation of the app left.
  pub redeploy_for_tenant-Ended :
      (world : World) (db : Db) {job : Deploy} {queued : Db}
      → redeploy_for_tenant cfg id tenant_id git_url ref project port db ≡ ok (job, queued)
      → (HasStatus id DeploymentStatus.ready (run_deploy cfg world job queued).1
          × ((run_deploy cfg world job queued).1.resources ≡ db.resources))
        ⊎ (HasStatus id DeploymentStatus.error (run_deploy cfg world job queued).1
            × (find_app (tenant_key tenant_id) project (run_deploy cfg world job queued).1 ≡ none))
  unfolding find_app
  redeploy_for_tenant-Ended world db {job} {queued} accepted =
      let (same_job, same_rows) = redeploy_for_tenant-ok db accepted in
      let t = tenant_key tenant_id in
      rw same_job (elim (run_deploy-Ended cfg world rebuild_job queued) [
        | inl (ready, kept) ↦ inl (ready, kept ∙ same_rows)
        | inr (failed, gone) ↦ inr (failed, rw gone (released-none t project queued.resources))
      ])
