-- ===== src/Tests/Deploys.antt =====
-- Deployments, previews, rollbacks and webhooks.
use tetra_host.Prelude.{
  true, false, ◌≡◌, ◌⊎◌, refl, none, some, [], ◌∷◌, count, first, select, update, delete, insert,
  newest_first,
}
use tetra_host.Prelude.Text.{
  strip, lower, contains, has_char, starts_with, drop_chars, take_chars, join, split, decimal,
}
use tetra_host.Prelude.Text
use Prim.Native.String
use tetra_host.Models.{
  Db, TenantStatus, TenantResource, DeploymentStatus, no_rows, is_inflight, is_ready, is_error,
}
use tetra_host.Quota.{
  check_and_reserve, plan_allocation, reservation, is_platform_scope, release, count_apps,
  resolve_max_apps, resolve_plan,
}
use tetra_host.Plans.{get_default}
use tetra_host.Domains.{verified_hostnames_for_project}
use tetra_host.Registry.{
  Docker, is_enabled, push, pull, image_exists, is_registry_qualified, ref_for,
}
use tetra_host.Notify.{Wire, dispatch, deliver_all, list_channels}
use tetra_host.Compose.{YamlLib}
use tetra_host.Compose.Edge.{apply_edge, edge_enabled}
use tetra_host.Compose.Caps.{apply_resource_limits}
use tetra_host.Deploys.{
  Settings, World, Outcome, Box, BuildResult, returned, refused, sanitize_project_name,
  preview_project_name, dash_runs, strip_left, strip_right, is_name_char, is_rim, find_app,
  is_app_row, set_deployment, compose_for_image,
}
use tetra_host.Deploys.Env.{env_map_for_deploy, limits_for, decrypt, decrypted}
use tetra_host.Deploys.Run.{
  Deploy, run_deploy, notify_deploy, fail_deploy, finish_deploy, start_stack, stack_text,
  pushed_image, on_build_lines, set_ready, or_port, or_text, injected, after_stack, after_build,
  notified, live_line,
}
use tetra_host.Deploys.Run.Effects.{HasStatus}
use tetra_host.Deploys.Run.Settles.{run_deploy-Ended, Ended}
use tetra_host.Deploys.Queue.{
  start_deploy_for_tenant, redeploy_for_tenant, reserved, start_unless, redeploy_found, queued_row,
  get_deployment_for_tenant, own_deployment,
}
use tetra_host.Deploys.Queue.FirstDeploy.{first_deploy-all_or_nothing, first_job}
use tetra_host.Deploys.Queue.Redeploy.{redeploy_for_tenant-Ended, rebuild_job}

abbrev docker : Docker
docker = record { docker_ok = λ _. true; delete_url = λ _. some 202 }

abbrev wire : Wire
wire = record {
  hmac = λ secret body. String.◌++◌ secret body;
  dumps = λ event _. event;
  post = λ _. some 200;
  now = 0;
}

abbrev yaml : YamlLib
yaml = record { load = λ _. none; dump = λ _. "compose"; str = λ _. "" }

abbrev pub box : Box
box = record { seal = λ v. v; unseal = λ v. some v }

abbrev pub settings : Settings
settings = record {
  enable_provider_actions = true;
  edge = record { edge_network = "edge"; apps_base_domain = "apps.example" };
  registry = record { host = "127.0.0.1:5000"; scheme = "http" };
  registry_keep_images = 2;
  max_previews_per_project = 1;
  default_app_pids_limit = 512;
  sizes = record {
    default_app_cpu_millicores = 500;
    default_app_mem_mb = 512;
    default_app_disk_mb = 1024;
  };
}

abbrev world_with : Outcome BuildResult → World
world_with build = record {
  started_at = 0;
  build_lines = ("step 1", 400000) ∷ ("step 2", 1500000) ∷ [];
  build = build;
  docker = docker;
  deploy_stack = λ _ _. returned tt;
  yaml = yaml;
  box = box;
  wire = wire;
}

abbrev pub built : World
built =
    world_with (
      returned
        (record { image = "tetra-blog:abc"; builder = "nixpacks"; commit = "abc"; port = 0 }))

abbrev unbuilt : World
unbuilt = world_with (refused "no Dockerfile")

deploys : Unit {0}
unfolding count first select update delete newest_first strip lower contains has_char drop_chars
    take_chars join split decimal Text.length is_inflight is_ready is_error check_and_reserve
    plan_allocation is_platform_scope release count_apps verified_hostnames_for_project is_enabled
    push pull image_exists is_registry_qualified ref_for dispatch deliver_all list_channels
    apply_edge edge_enabled apply_resource_limits sanitize_project_name preview_project_name
    dash_runs strip_left strip_right is_name_char is_rim find_app is_app_row set_deployment
    compose_for_image env_map_for_deploy limits_for decrypt decrypted run_deploy notify_deploy
    fail_deploy finish_deploy start_stack stack_text pushed_image on_build_lines set_ready or_port
    or_text injected after_stack after_build notified live_line start_deploy_for_tenant
    redeploy_for_tenant reserved start_unless redeploy_found get_deployment_for_tenant
    own_deployment resolve_max_apps resolve_plan get_default
deploys = tt

names :
    (sanitize_project_name " My App! " ≡ "my-app")
    × (sanitize_project_name "--" ≡ "app")
    × (preview_project_name "blog" "feat/login" ≡ "blog-git-feat-login")
unfolding deploys
names = (refl, refl, refl)

abbrev pub app : TenantResource
app =
    reservation "r1" "t1" "blog" (record { cpu_millicores = 500; mem_mb = 512; disk_mb = 1024 })
      "Blog"

abbrev pub with_app : Db
with_app = record no_rows { resources = app ∷ [] }

abbrev first_blog : Deploy
first_blog = first_job settings "d1" (some "t1") "r1" "git" "main" "Blog" 3000

abbrev queued_blog : Db
queued_blog = record with_app { deployments = queued_row "d1" "t1" "blog" "git" "main" 3000 ∷ [] }

-- The reservation of an app that was running is gone after a rebuild that failed.
freed :
    (run_deploy settings unbuilt
      (rebuild_job settings "d1" (some "t1") "git" "main" "blog" 3000)
      queued_blog).1.resources
    ≡ []
unfolding deploys
freed = refl

run_deploy-Ended_example :
    Ended first_blog queued_blog (run_deploy settings built first_blog queued_blog).1
run_deploy-Ended_example = run_deploy-Ended settings built first_blog queued_blog

abbrev free_plan : Db
free_plan = record no_rows {
  tenants =
      record {
        id = "t1";
        name = "Acme";
        slug = "acme";
        status = TenantStatus.active;
        plan_id = none;
        is_platform_scope = false;
        signup_ip = none;
      }
      ∷ [];
}

abbrev accepted : Db
accepted = record free_plan {
  resources = app ∷ [];
  deployments = queued_row "d1" "t1" "blog" "git" "main" 3000 ∷ [];
}

first_deploy-all_or_nothing_example :
    (HasStatus "d1" DeploymentStatus.ready (run_deploy settings unbuilt first_blog accepted).1
      × ((run_deploy settings unbuilt first_blog accepted).1.resources
          ≡ insert
              (reservation "r1" "t1"
                (sanitize_project_name "Blog")
                (plan_allocation settings.sizes "t1" free_plan)
                "Blog")
              free_plan.resources))
    ⊎ (HasStatus "d1" DeploymentStatus.error (run_deploy settings unbuilt first_blog accepted).1
        × ((run_deploy settings unbuilt first_blog accepted).1.resources ≡ free_plan.resources))
first_deploy-all_or_nothing_example =
    first_deploy-all_or_nothing settings "d1" (some "t1") "r1" "git" "main" "Blog" 3000 unbuilt
      free_plan {job = first_blog} {queued = accepted} (unfold deploys in refl)
      (unfold deploys in refl)

redeploy_for_tenant-Ended_example :
    (HasStatus "d1" DeploymentStatus.ready
        (run_deploy settings unbuilt
          (rebuild_job settings "d1" (some "t1") "git" "main" "blog" 3000)
          queued_blog).1
      × ((run_deploy settings unbuilt
            (rebuild_job settings "d1" (some "t1") "git" "main" "blog" 3000)
            queued_blog).1.resources
          ≡ with_app.resources))
    ⊎ (HasStatus "d1" DeploymentStatus.error
          (run_deploy settings unbuilt
            (rebuild_job settings "d1" (some "t1") "git" "main" "blog" 3000)
            queued_blog).1
        × (find_app "t1" "blog"
              (run_deploy settings unbuilt
                (rebuild_job settings "d1" (some "t1") "git" "main" "blog" 3000)
                queued_blog).1
            ≡ none))
redeploy_for_tenant-Ended_example =
    redeploy_for_tenant-Ended settings "d1" (some "t1") "git" "main" "blog" 3000 unbuilt with_app
      {job = rebuild_job settings "d1" (some "t1") "git" "main" "blog" 3000} {queued = queued_blog}
      (unfold deploys in refl)
