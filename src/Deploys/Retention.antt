-- ===== src/Deploys/Retention.antt =====
-- app/modules/deploys/service.py, `_prune_old_images`: which images of a project are deleted.
pub mod Keeps
use tetra_host.Prelude.{
  ℕ, String, Bool, true, false, not, ◌&&◌, ◌||◌, ◌==◌, Option, none, some, List, [], ◌∷◌, ◌++◌, map,
  if◌then◌else◌, eqb, first, select, update, newest_first, take, drop,
}
use tetra_host.Prelude.Text.{contains}
use tetra_host.Models.{Db, Deployment, DeploymentStatus, is_inflight, is_ready, is_error}
use tetra_host.Access.{tenant_key}
use tetra_host.Registry.{is_enabled}
use tetra_host.Deploys.{Settings}

-- list(dict.fromkeys(xs)): the first occurrences
unfoldable pub distinct_after : List String → List String → List String
distinct_after seen [] = []
distinct_after seen (x ∷ xs) =
    let skipped = distinct_after seen xs in
    let kept = distinct_after (x ∷ seen) xs in if contains seen x then skipped else x ∷ kept

unfoldable pub distinct : List String → List String
distinct xs = distinct_after [] xs

-- [x for x in xs if x not in others]
unfoldable pub without : List String → List String → List String
without others [] = []
without others (x ∷ xs) =
    let rest = without others xs in if contains others x then rest else x ∷ rest

abbrev pub of_project : String → String → Deployment → Bool
of_project tenant_id project d = d.tenant_id == tenant_id && d.project == project

-- the images of the ready deployments, the newest first, without repetition
unfoldable pub ordered_images : String → String → Db → List String
ordered_images tenant_id project db = distinct (
    map (λ d. d.image)
      (newest_first (
        select (λ d. of_project tenant_id project d && is_ready d.status && not (d.image == ""))
          db.deployments)))

unfoldable pub error_images : String → String → Db → List String
error_images tenant_id project db =
    map (λ d. d.image)
      (select (λ d. of_project tenant_id project d && is_error d.status && not (d.image == ""))
        db.deployments)

unfoldable pub stale_images : ℕ → String → String → Db → List String
stale_images keep tenant_id project db =
    let ordered = ordered_images tenant_id project db in
    without (take keep ordered) (distinct (drop keep ordered ++ error_images tenant_id project db))

-- the images that deployments of other tenants reference
unfoldable pub shared_images : List String → String → Db → List String
shared_images stale tenant_id db =
    map (λ d. d.image)
      (select (λ d. contains stale d.image && not (d.tenant_id == tenant_id)) db.deployments)

unfoldable pub is_busy : String → String → Db → Bool
is_busy tenant_id project db =
    elim (first (λ d. of_project tenant_id project d && is_inflight d.status) db.deployments) [
      | none ↦ false
      | some _ ↦ true
    ]

unfoldable pub deleted_images : ℕ → String → String → Db → List String
deleted_images keep tenant_id project db =
    let stale = stale_images keep tenant_id project db in
    without (shared_images stale tenant_id db) stale

unfoldable pub forget_images : List String → String → String → Db → Db
forget_images deleted tenant_id project db = record db {
  deployments =
      update (λ d. of_project tenant_id project d && is_error d.status && contains deleted d.image)
        (λ d. record d { image = "" }) db.deployments;
}

-- the images deleted, on the host and in the registry, and the rows afterwards
unfoldable pub prune_old_images : Settings → Option String → String → Db → List String × Db
prune_old_images cfg tenant_id project db =
    let keep = cfg.registry_keep_images in
    let tenant = tenant_key tenant_id in
    let deleted = deleted_images keep tenant project db in
    if eqb keep 0 || not (is_enabled cfg.registry)
    then ([], db)
    else if is_busy tenant project db
    then ([], db)
    else (deleted, forget_images deleted tenant project db)
