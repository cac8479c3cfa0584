-- ===== src/Deploys/Previews.antt =====
-- app/modules/deploys/service.py: the preview environments of the branches of an app. The stack that
-- a teardown removes is among what it gives; docker's failure to remove it is passed over.
pub mod Cap
use tetra_host.Prelude.{
  ℕ, String, Bool, true, false, not, ◌&&◌, ◌||◌, ◌==◌, Option, none, some, List, [], ◌∷◌, Result,
  ok, err, leb, if◌then◌else◌, first, select, insert, update, delete, count, newest_first,
}
use tetra_host.Models.{Db, PreviewEnv, Deployment}
use tetra_host.Access.{tenant_key}
use tetra_host.Deploys.{Settings, DeployError, preview_project_name, domain_of}
use tetra_host.Deploys.Run.{Deploy}
use tetra_host.Deploys.Queue.{queued_row, enqueue}

abbrev pub is_preview_of : String → String → PreviewEnv → Bool
is_preview_of tenant_id project p = p.tenant_id == tenant_id && p.project == project

abbrev pub is_branch : String → String → String → PreviewEnv → Bool
is_branch tenant_id project branch p = is_preview_of tenant_id project p && p.branch == branch

unfoldable pub find_preview : String → String → String → Db → Option PreviewEnv
find_preview tenant_id project branch db = first (is_branch tenant_id project branch) db.previews

module _ (cfg : Settings) (row_id id : String) (tenant_id : Option String)
    (git_url branch project : String) (port : ℕ) where
  abbrev pub preview_row : PreviewEnv
  preview_row = record {
    id = row_id;
    tenant_id = tenant_key tenant_id;
    project = project;
    branch = branch;
    preview_project = preview_project_name project branch;
    domain = domain_of cfg (preview_project_name project branch);
    last_deployment_id = id;
  }

  unfoldable pub queue_preview : List PreviewEnv → Db → Result DeployError ((Deploy × String) × Db)
  queue_preview previews db =
      let stack = preview_project_name project branch in
      ok (
        (
          record {
            deployment_id = id;
            tenant_id = tenant_id;
            git_url = git_url;
            ref = branch;
            project = stack;
            port = port;
            env_project = some project;
          },
          domain_of cfg stack,
        ),
        record (enqueue (queued_row id (tenant_key tenant_id) stack git_url branch port) db) {
          previews = previews;
        },
      )

  unfoldable pub refresh : Option PreviewEnv → Db → Result DeployError ((Deploy × String) × Db)
  unfolding queue_preview
  refresh (some p) db =
      queue_preview
        (update (λ x. x.id == p.id) (λ x. record x { last_deployment_id = id }) db.previews) db
  refresh none db =
      if leb cfg.max_previews_per_project
        (count (is_preview_of (tenant_key tenant_id) project) db.previews)
      then err DeployError.preview_limit
      else queue_preview (insert preview_row db.previews) db

  -- `row_id` is the fresh id of the preview, and `id` that of the deployment.
  unfoldable pub deploy_preview_for_tenant : Db → Result DeployError ((Deploy × String) × Db)
  unfolding refresh
  deploy_preview_for_tenant db =
      if not cfg.enable_provider_actions
      then err DeployError.actions_disabled
      else refresh (find_preview (tenant_key tenant_id) project branch db) db

-- the stack to remove, where there was a preview
unfoldable pub remove_found : Option PreviewEnv → Db → Option String × Db
remove_found none db = (none, db)
remove_found (some p) db =
    (some p.preview_project, record db { previews = delete (λ x. x.id == p.id) db.previews })

unfoldable pub teardown_preview_for_branch :
    Settings → Option String → String → String → Db → Result DeployError (Option String × Db)
unfolding remove_found
teardown_preview_for_branch cfg tenant_id project branch db =
    if not cfg.enable_provider_actions
    then err DeployError.actions_disabled
    else ok (remove_found (find_preview (tenant_key tenant_id) project branch db) db)

unfoldable pub own_preview : String → Option PreviewEnv → Option PreviewEnv
own_preview tenant_id none = none
own_preview tenant_id (some p) = if p.tenant_id == tenant_id then some p else none

unfoldable pub delete_preview_for_tenant :
    Settings → Option String → String → Db → Result DeployError (Option String × Db)
unfolding remove_found own_preview
delete_preview_for_tenant cfg tenant_id preview_id db =
    if not cfg.enable_provider_actions
    then err DeployError.actions_disabled
    else ok (
        remove_found
          (own_preview (tenant_key tenant_id) (first (λ p. p.id == preview_id) db.previews)) db)

unfoldable pub list_previews_for_tenant : Option String → Option String → Db → List PreviewEnv
list_previews_for_tenant tenant_id project db = newest_first (
    select
      (λ p.
        p.tenant_id == tenant_key tenant_id
        && (tenant_key project == "" || p.project == tenant_key project))
      db.previews)
