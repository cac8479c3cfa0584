-- ===== src/Deploys/Rollback/Accepted.antt =====
-- app/modules/deploys/service.py, rollback_for_tenant: what an accepted rollback returns to.
use tetra_host.Prelude.{
  String, ◌≡◌, ◌≢◌, refl, not, ◌||◌, ◌==◌, Option, none, some, ok, inl, inr, arith, Bool-cases,
  Option-cases, eq_iff, first, carry_ok, ◌&&◌, ◌∙◌, All, Bool, false, count, ◌≤◌, first_holds,
  count_of_first, eq_refl, sym, count-insert,
}
use mathlib.Core.Path.{subst}
use tetra_host.Models.{Db, Deployment, is_ready}
use tetra_host.Access.{tenant_key}
use tetra_host.Deploys.{Settings, World, find_app}
use tetra_host.Deploys.Queue.{get_deployment_for_tenant, own_deployment}
use tetra_host.Deploys.Rollback.{
  Rollback, rollback_app, rollback_to, rollback_for_tenant, run_rollback,
}
use tetra_host.Deploys.Rollback.Restores.{Settled, works, run_rollback-Rolled}

-- a deployment that a rollback may return to
abbrev pub is_target : String → String → Rollback → Deployment → Bool
is_target tenant_id target_id job d =
    d.id == target_id
    && (d.tenant_id == tenant_id
        && (is_ready d.status
            && (not (d.image == "") && (d.image == job.image && d.project == job.project))))

own_deployment-first :
    (t : String) (found : Option Deployment) {d : Deployment}
    → own_deployment t found ≡ some d
    → (found ≡ some d) × (d.tenant_id ≡ t)
unfolding own_deployment
own_deployment-first t none e = cc
own_deployment-first t (some x) {d} e = elim (Bool-cases (x.tenant_id == t)) [
  | inl own ↦
      let same : some x ≡ some d = rw own at e in
      let owner = (eq_iff x.tenant_id t).0 own in (same, ground arith)
  | inr foreign ↦ let never = rw foreign at e in cc
]

module _ (cfg : Settings) (id : String) (tenant_id : Option String) (target_id : String)
    (db : Db) where
  fits :
      (target : Deployment)
      → get_deployment_for_tenant tenant_id target_id db ≡ some target
      → (not (is_ready target.status) || target.image == "") ≡ false
      → 1
        ≤ count
            (is_target (tenant_key tenant_id) target_id (record {
              deployment_id = id;
              tenant_id = tenant_id;
              project = target.project;
              image = target.image;
              port = target.port;
            }))
            db.deployments
  unfolding get_deployment_for_tenant
  fits target here fit =
      let (found, owner) =
        own_deployment-first (tenant_key tenant_id) (first (λ d. d.id == target_id) db.deployments)
          here in
      let named = first_holds (λ d. d.id == target_id) db.deployments found in
      count_of_first (λ d. d.id == target_id) _ db.deployments found
        (ground (
          arith,
          named,
          eq_iff target.tenant_id (tenant_key tenant_id),
          eq_refl target.image,
          eq_refl target.project,
        ))

  -- what an accepted rollback was asked for, and what it put in the queue
  accepted_rollback :
      {job : Rollback} {queued : Db}
      → rollback_for_tenant cfg id tenant_id target_id db ≡ ok (job, queued)
      → (1 ≤ count (is_target (tenant_key tenant_id) target_id job) db.deployments)
        × (find_app (tenant_key tenant_id) job.project db ≢ none)
        × (job.deployment_id ≡ id)
        × (1 ≤ count (λ d. d.id == id) queued.deployments)
        × (queued.resources ≡ db.resources)
  unfolding rollback_for_tenant rollback_to rollback_app get_deployment_for_tenant
  accepted_rollback {job} {queued} accepted = elim (Bool-cases cfg.enable_provider_actions) [
    | inr off ↦ let never = rw off at accepted in cc
    | inl on ↦ elim (Option-cases (get_deployment_for_tenant tenant_id target_id db)) [
      | inl gone ↦ let never = rw (on, gone) at accepted in cc
      | inr (target, here) ↦
          elim (Bool-cases (not (is_ready target.status) || target.image == "")) [
            | inl unfit ↦ let never = rw (on, here, unfit) at accepted in cc
            | inr fit ↦ elim (Option-cases (find_app (tenant_key tenant_id) target.project db)) [
              | inl lost ↦ let never = rw (on, here, fit, lost) at accepted in cc
              | inr (app, held) ↦
                  carry_ok
                    (λ out.
                      (1 ≤ count (is_target (tenant_key tenant_id) target_id out.0) db.deployments)
                      × (find_app (tenant_key tenant_id) out.0.project db ≢ none)
                      × (out.0.deployment_id ≡ id)
                      × (1 ≤ count (λ d. d.id == id) out.1.deployments)
                      × (out.1.resources ≡ db.resources))
                    (rw (on, here, fit, held) at accepted)
                    (
                      fits target here fit,
                      λ missing. cc,
                      refl,
                      rw (count-insert (λ d. d.id == id) _ db.deployments, eq_refl id)
                          (omega arith),
                      refl,
                    )
            ]
          ]
    ]
  ]

  -- A rollback that is accepted was asked for a ready deployment with an image, which is on record
  -- with the id given and belongs to the tenant, and the tenant still has the app of its project.
  -- Once it has run, the new deployment is on record, and it is ready, with that image, just where
  -- the image is on the host or can be pulled and its stack starts, and failed otherwise; and every
  -- reservation is as it was before the request.
  pub rollback_for_tenant-restores :
      (world : World) {job : Rollback} {queued : Db}
      → rollback_for_tenant cfg id tenant_id target_id db ≡ ok (job, queued)
      → (1 ≤ count (is_target (tenant_key tenant_id) target_id job) db.deployments)
        × (find_app (tenant_key tenant_id) job.project db ≢ none)
        × (1 ≤ count (λ d. d.id == id) (run_rollback cfg world job queued).deployments)
        × All
            (λ d. d.id ≡ id → Settled cfg job (works cfg world job queued) d)
            (run_rollback cfg world job queued).deployments
        × ((run_rollback cfg world job queued).resources ≡ db.resources)
  rollback_for_tenant-restores world {job} {queued} accepted =
      let (target, app, named, there, kept) = accepted_rollback accepted in
      let (settled, many, _, same) = run_rollback-Rolled cfg world job queued in
      (
        target,
        app,
        subst (λ i. 1 ≤ count (λ d. d.id == i) (run_rollback cfg world job queued).deployments)
            named
            (rw many
              (subst (λ i. 1 ≤ count (λ d. d.id == i) queued.deployments) (sym named) there)),
        subst
            (λ i.
              All (λ d. d.id ≡ i → Settled cfg job (works cfg world job queued) d)
                (run_rollback cfg world job queued).deployments)
            named settled,
        same ∙ kept,
      )
