-- ===== src/Deploys/Rollback/Restores.antt =====
-- app/modules/deploys/service.py, _run_rollback: how the run of a rollback ends.
use tetra_host.Prelude.{
  String, ◌≡◌, refl, true, ◌||◌, ◌==◌, List, [], ◌∷◌, inl, inr, arith, Bool-cases, eq_iff, ◌&&◌,
  ◌∙◌, All, Bool, false, count, update, delete, count-update_same,
}
use Prim.Native.String.{◌++◌}
use tetra_host.Models.{Db, Deployment, DeploymentStatus}
use tetra_host.Registry.{image_exists, pull, is_registry_qualified}
use tetra_host.Deploys.{
  Settings, World, Outcome, returned, refused, crashed, set_deployment, domain_of, find_app,
}
use tetra_host.Deploys.Run.{append, set_error, set_status, keep_fields, stack_text}
use tetra_host.Deploys.Env.{env_map_for_deploy, limits_for}
use tetra_host.Domains.{verified_hostnames_for_project}
use tetra_host.Deploys.Rollback.{
  Rollback, fail_rollback, rolled_stack, rolled_line, start_rolled, run_rollback, unpulled, evicted,
}

-- What a rollback makes of its own row, where it works and where it does not.
abbrev pub Settled : Settings → Rollback → Bool → Deployment → Type 0
Settled cfg job true d =
    (d.status ≡ DeploymentStatus.ready)
    × (d.image ≡ job.image)
    × (d.port ≡ job.port)
    × (d.domain ≡ domain_of cfg job.project)
Settled cfg job false d = (d.status ≡ DeploymentStatus.error)

-- A run of a rollback leaves its own rows settled, neither more nor fewer of them, and nothing else
-- changed of the deployments and the reservations.
abbrev pub Rolled : Settings → Rollback → Bool → Db → Db → Type 0
Rolled cfg job works before after =
    All (λ d. d.id ≡ job.deployment_id → Settled cfg job works d) after.deployments
    × (count (λ d. d.id == job.deployment_id) after.deployments
        ≡ count (λ d. d.id == job.deployment_id) before.deployments)
    × (delete (λ d. d.id == job.deployment_id) after.deployments
        ≡ delete (λ d. d.id == job.deployment_id) before.deployments)
    × (after.resources ≡ before.resources)

abbrev pub is_returned : Outcome (Unit {0}) → Bool
is_returned (returned _) = true
is_returned (refused _) = false
is_returned (crashed _) = false

abbrev starts : Settings → World → Rollback → Db → Bool
starts cfg world job db = is_returned (
    world.deploy_stack job.project (
      stack_text cfg world job.tenant_id job.project job.image job.port
        (env_map_for_deploy world.box job.tenant_id job.project db) db))

-- The image is on the host, or can be pulled, and its stack starts.
abbrev pub works : Settings → World → Rollback → Db → Bool
works cfg world job db =
    (image_exists world.docker cfg.registry job.image
      || (is_registry_qualified job.image && pull world.docker cfg.registry job.image))
    && starts cfg world job db

update-All :
    (P : Deployment → Type 0) (id : String) (f : Deployment → Deployment) (ds : List Deployment)
    → ((d : Deployment) → P (f d))
    → All (λ d. d.id ≡ id → P d) (update (λ d. d.id == id) f ds)
unfolding update
update-All P id f [] marks = tt
update-All P id f (d ∷ ds) marks = elim (Bool-cases (d.id == id)) [
  | inl e ↦ rw e (λ _. marks d, update-All P id f ds marks)
  | inr e ↦ rw e (λ same. ground (arith, eq_iff d.id id), update-All P id f ds marks)
]

delete-update :
    (id : String) (f : Deployment → Deployment) (ds : List Deployment)
    → ((d : Deployment) → (f d).id ≡ d.id)
    → delete (λ d. d.id == id) (update (λ d. d.id == id) f ds) ≡ delete (λ d. d.id == id) ds
unfolding delete update
delete-update id f [] h = refl
delete-update id f (d ∷ ds) h = ground (arith, delete-update id f ds h, h d)

module _ (cfg : Settings) (world : World) (job : Rollback) where
  -- the last write of a run
  written :
      (b : Bool) (log : List String) (change : Deployment → Deployment) (db : Db)
      → ((d : Deployment) → (change d).id ≡ d.id)
      → ((d : Deployment) (log : String) → Settled cfg job b (record (change d) { log = log }))
      → Rolled cfg job b db (set_deployment job.deployment_id log change db)
  unfolding set_deployment
  written b log change db same marks = (
    update-All (Settled cfg job b) job.deployment_id _ db.deployments (λ d. marks d _),
    count-update_same (λ d. d.id == job.deployment_id) _ _ db.deployments (λ d. rw (same d) refl),
    delete-update job.deployment_id _ db.deployments same,
    refl,
  )

  -- an earlier write of a run
  before_that :
      (b : Bool) (log : List String) (change : Deployment → Deployment) (db after : Db)
      → ((d : Deployment) → (change d).id ≡ d.id)
      → Rolled cfg job b (set_deployment job.deployment_id log change db) after
      → Rolled cfg job b db after
  unfolding set_deployment
  before_that b log change db after same (marked, many, others, kept) = (
    marked,
    many
        ∙ count-update_same (λ d. d.id == job.deployment_id) _ _ db.deployments
            (λ d. rw (same d) refl),
    others ∙ delete-update job.deployment_id _ db.deployments same,
    kept,
  )

  fail_rollback-Rolled :
      (log : List String) (line message : String) (db : Db)
      → Rolled cfg job false db (fail_rollback cfg world job log line message db)
  unfolding fail_rollback
  fail_rollback-Rolled log line message db =
      written false (append log line) (set_error message) db (λ d. refl) (λ d log. refl)

  rolled_stack-Rolled :
      (log : List String) (db : Db) (outcome : Outcome (Unit {0}))
      → Rolled cfg job (is_returned outcome) db (rolled_stack cfg world job log db outcome)
  unfolding rolled_stack
  rolled_stack-Rolled log db (returned _) =
      written true (append log (rolled_line cfg world job (domain_of cfg job.project))) _ db
        (λ d. refl) (λ d log. (refl, refl, refl, refl))
  rolled_stack-Rolled log db (refused m) = fail_rollback-Rolled log ("✗ " ++ m) m db
  rolled_stack-Rolled log db (crashed m) = fail_rollback-Rolled log ("✗ unexpected: " ++ m) m db

  start_rolled-Rolled :
      (log : List String) (db : Db)
      → Rolled cfg job (starts cfg world job db) db (start_rolled cfg world job log db)
  unfolding start_rolled
  start_rolled-Rolled log db =
      let env = env_map_for_deploy world.box job.tenant_id job.project db in
      rolled_stack-Rolled log db (
        world.deploy_stack job.project
          (stack_text cfg world job.tenant_id job.project job.image job.port env db))

  -- A run of a rollback leaves the rows of its deployment ready, with its image and port and the
  -- domain of its project, just where the image is on the host or can be pulled from the registry and
  -- its stack starts, and failed otherwise; it leaves as many rows of the deployment as there were,
  -- every other deployment as it was, and every reservation.
  pub run_rollback-Rolled :
      (db : Db) → Rolled cfg job (works cfg world job db) db (run_rollback cfg world job db)
  unfolding run_rollback set_deployment env_map_for_deploy stack_text limits_for
      verified_hostnames_for_project find_app
  run_rollback-Rolled db =
      let log = append [] ("→ rolling back to " ++ job.image) in
      let building =
        set_deployment job.deployment_id log (set_status DeploymentStatus.building) db in
      let pulling = append log "→ image not present locally — pulling from registry" in
      let noted = set_deployment job.deployment_id pulling keep_fields building in
      let begun = λ (b : Bool) (after : Db) (h : Rolled cfg job b building after).
        before_that b log (set_status DeploymentStatus.building) db after (λ d. refl) h in
      let pulled_for = λ (b : Bool) (after : Db) (h : Rolled cfg job b noted after).
        begun b after (before_that b pulling keep_fields building after (λ d. refl) h) in
      elim (Bool-cases (image_exists world.docker cfg.registry job.image)) [
        | inl here ↦ rw here (
            begun (starts cfg world job db) (start_rolled cfg world job log building)
              (start_rolled-Rolled log building))
        | inr gone ↦ elim (Bool-cases (is_registry_qualified job.image)) [
          | inr local ↦
              let reason = evicted cfg world job in
              rw (gone, local)
                (begun false (fail_rollback cfg world job log ("✗ " ++ reason) reason building)
                  (fail_rollback-Rolled log ("✗ " ++ reason) reason building))
          | inl remote ↦ elim (Bool-cases (pull world.docker cfg.registry job.image)) [
            | inl pulled ↦
                let ready = append pulling "✓ pulled" in
                rw (gone, remote, pulled)
                  (pulled_for (starts cfg world job db) (start_rolled cfg world job ready noted)
                    (start_rolled-Rolled ready noted))
            | inr failed ↦
                let reason = unpulled cfg world job in
                rw (gone, remote, failed)
                  (pulled_for false
                    (fail_rollback cfg world job pulling ("✗ " ++ reason) reason noted)
                    (fail_rollback-Rolled pulling ("✗ " ++ reason) reason noted))
          ]
        ]
      ]
