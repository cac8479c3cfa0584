-- ===== src/Deploys/Run/Effects.antt =====
-- What the steps of a run leave alone, and what they write to the row of their deployment.
use tetra_host.Prelude.{
  ℕ, String, ◌≡◌, refl, ◌+◌, true, false, ◌==◌, Option, List, [], ◌∷◌, inl, inr, arith, leb, All,
  All-update, Bool-cases, eq_iff, ◌⊎◌, ◌||◌, not, eqb, update,
}
use tetra_host.Prelude.Text.{join}
use tetra_host.Prelude.Dict.{Dict}
use tetra_host.Models.{Db, Deployment, DeploymentStatus, NotificationChannel}
use tetra_host.Access.{tenant_key}
use tetra_host.Registry.{is_enabled}
use tetra_host.Notify.{Wire, deliver, deliver_all, dispatch}
use tetra_host.Deploys.{Settings, World, set_deployment, newline}
use tetra_host.Deploys.Retention.{prune_old_images, forget_images, is_busy}
use tetra_host.Deploys.Run.{
  Deploy, is_preview, notify_deploy, on_build_lines, injected, notified, append, keep_fields,
}

-- the two databases have the same reservations and the same deployments
abbrev pub SameRows : Db → Db → Type 0
SameRows a b = (a.resources ≡ b.resources) × (a.deployments ≡ b.deployments)

module _ (wire : Wire) (event : String) (payload : Dict String) where
  deliver_all-SameRows :
      (channels : List NotificationChannel) (db : Db)
      → SameRows (deliver_all wire channels event payload db) db
  unfolding deliver_all deliver
  deliver_all-SameRows [] db = (refl, refl)
  deliver_all-SameRows (c ∷ cs) db =
      let (r, d) = deliver_all-SameRows cs (deliver wire c event payload db).1 in (r, d)

-- rows of the deployment have that status
abbrev pub HasStatus : String → DeploymentStatus → Db → Type 0
HasStatus id status db = All (λ d. d.id ≡ id → d.status ≡ status) db.deployments

pub set_deployment-HasStatus :
    (id : String) (log : List String) (change : Deployment → Deployment) (status : DeploymentStatus)
    (db : Db)
    → ((d : Deployment) → (change d).status ≡ status)
    → HasStatus id status (set_deployment id log change db)
unfolding set_deployment update
set_deployment-HasStatus id log change status db marks = rows db.deployments
  where
    rows :
        (ds : List Deployment)
        → All
            (λ d. d.id ≡ id → d.status ≡ status)
            (update (λ d. d.id == id) (λ d. record (change d) { log = join newline log }) ds)
    rows [] = tt
    rows (d ∷ ds) = elim (Bool-cases (d.id == id)) [
      | inl e ↦ rw e (λ _. marks d, rows ds)
      | inr e ↦ rw e (λ same. ground (arith, eq_iff d.id id), rows ds)
    ]

module _ (cfg : Settings) (world : World) where
  pub notify_deploy-SameRows :
      (job : Deploy) (event : String) (payload : Dict String) (db : Db)
      → SameRows (notify_deploy cfg world job event payload db) db
  unfolding notify_deploy notified dispatch
  notify_deploy-SameRows job event payload db = elim (Bool-cases (is_preview job)) [
    | inl e ↦ rw e (refl, refl)
    | inr e ↦ rw e (told (Bool-cases (tenant_key job.tenant_id == "")))
  ]
    where
      told :
          ((tenant_key job.tenant_id == "") ≡ true) ⊎ ((tenant_key job.tenant_id == "") ≡ false)
          → SameRows
              (notified cfg world
                (tenant_key job.tenant_id)
                event
                (("project", job.project) ∷ ("deployment_id", job.deployment_id) ∷ payload)
                db)
              db
      told (inl e) = rw e (refl, refl)
      told (inr e) = rw e (deliver_all-SameRows world.wire event _ _ db)

  pub on_build_lines-resources :
      (id : String) (last_flush : ℕ) (lines : List (String × ℕ)) (log : List String) (db : Db)
      → (on_build_lines cfg world id last_flush lines log db).1.resources ≡ db.resources
  unfolding on_build_lines set_deployment
  on_build_lines-resources id last_flush [] log db = refl
  on_build_lines-resources id last_flush ((line, now) ∷ rest) log db =
      elim (Bool-cases (leb (last_flush + 1000000) now)) [
        | inl e ↦ rw e (
            on_build_lines-resources id now rest (append log line)
              (set_deployment id (append log line) keep_fields db))
        | inr e ↦ rw e (on_build_lines-resources id last_flush rest (append log line) db)
      ]

  pub injected-resources :
      (id : String) (env : Dict String) (log : List String) (db : Db)
      → (injected cfg world id env log db).1.resources ≡ db.resources
  unfolding injected set_deployment
  injected-resources id [] log db = refl
  injected-resources id (var ∷ env) log db = refl

  pub prune_old_images-keeps :
      (id : String) (status : DeploymentStatus) (tenant_id : Option String) (project : String)
      (db : Db)
      → HasStatus id status db
      → HasStatus id status (prune_old_images cfg tenant_id project db).1
        × ((prune_old_images cfg tenant_id project db).1.resources ≡ db.resources)
  unfolding prune_old_images forget_images
  prune_old_images-keeps id status tenant_id project db h =
      elim (Bool-cases (eqb cfg.registry_keep_images 0 || not (is_enabled cfg.registry))) [
        | inl e ↦ rw e (h, refl)
        | inr e ↦ rw e (elim (Bool-cases (is_busy (tenant_key tenant_id) project db)) [
          | inl busy ↦ rw busy (h, refl)
          | inr idle ↦ rw idle (All-update _ _ _ db.deployments (λ d k. k) h, refl)
        ])
      ]
