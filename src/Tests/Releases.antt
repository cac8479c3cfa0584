-- ===== src/Tests/Releases.antt =====
-- Retention, log streams, previews, rollbacks and webhooks.
use tetra_host.Prelude.{
  String, true, false, ◌≡◌, ◌≤◌, ◌≢◌, ◌++◌, ◌==◌, refl, Option, none, some, List, [], ◌∷◌, arith,
  count, first, select, update, delete, newest_first, take, max, All,
}
use tetra_host.Prelude.Text.{strip, contains, starts_with, drop_chars, join, split}
use tetra_host.Prelude.Text
use tetra_host.Models.{
  Db, Deployment, DeploymentStatus, DeployHook, no_rows, is_inflight, is_ready, is_error,
}
use tetra_host.Registry.{is_enabled}
use tetra_host.Deploys.{newline, find_app, is_app_row}
use tetra_host.Deploys.Env.{decrypt}
use tetra_host.Deploys.Queue.{
  queued_row, redeploy_for_tenant, redeploy_found, get_deployment_for_tenant, own_deployment,
}
use tetra_host.Deploys.Queue.Redeploy.{rebuild_job}
use tetra_host.Deploys.Retention.{
  prune_old_images, distinct, distinct_after, without, ordered_images, error_images, stale_images,
  shared_images, is_busy, deleted_images, forget_images, of_project,
}
use tetra_host.Deploys.Retention.Keeps.{prune_old_images-spares}
use tetra_host.Deploys.LogStream.{
  Poll, stream_deploy_log_events, stream_from, is_terminal, log_lines, line_events, status_events,
}
use tetra_host.Deploys.LogStream.Spells.{emitted, stream_deploy_log_events-spells}
use tetra_host.Deploys.LogStream.Ends.{stream_deploy_log_events-stops}
use tetra_host.Deploys.Rollback.{Rollback, rollback_for_tenant, rollback_to, rollback_app}
use tetra_host.Deploys.Rollback.Restores.{Rolled, Settled, works, run_rollback-Rolled}
use tetra_host.Deploys.Rollback.Accepted.{is_target, rollback_for_tenant-restores}
use tetra_host.Deploys.Rollback.{run_rollback}
use tetra_host.Deploys.Previews.{is_preview_of}
use tetra_host.Deploys.Previews.Cap.{
  PreviewCall, deploy_preview, teardown_branch, run, run-Within_cap,
}
use tetra_host.Deploys.Hooks.{get_hook, sign, verify_signature, branch_from_ref}
use tetra_host.Deploys.Webhook.{
  Payload, Call, Reply, github_webhook, on_hook, on_payload, on_push, redeployed,
}
use tetra_host.Deploys.Webhook.Authentic.{github_webhook-authentic}
use tetra_host.Tests.Deploys.{settings, built, box, with_app, app}

releases : Unit {0}
unfolding count first select update delete newest_first contains split join is_inflight is_ready
    is_error is_enabled find_app is_app_row decrypt redeploy_for_tenant redeploy_found
    get_deployment_for_tenant own_deployment prune_old_images distinct distinct_after without
    ordered_images error_images stale_images shared_images is_busy deleted_images forget_images
    stream_deploy_log_events stream_from is_terminal log_lines line_events status_events emitted
    rollback_for_tenant rollback_to rollback_app get_hook sign verify_signature branch_from_ref
    github_webhook on_hook on_payload on_push redeployed drop_chars Text.length
releases = tt

abbrev ready_row : String → String → Deployment
ready_row id image = record (queued_row id "t1" "blog" "git" "main" 3000) {
  status = DeploymentStatus.ready;
  image = image;
}

abbrev three_images : Db
three_images = record no_rows {
  deployments = ready_row "d1" "one" ∷ ready_row "d2" "two" ∷ ready_row "d3" "three" ∷ [];
}

oldest : (prune_old_images settings (some "t1") "blog" three_images).0 ≡ "one" ∷ []
unfolding releases
oldest = refl

prune_old_images-spares_example :
    (contains (take 2 (ordered_images "t1" "blog" three_images)) "one" ≡ false)
    × All (λ d. d.image ≡ "one" → d.tenant_id ≡ "t1") three_images.deployments
    × All
        (λ d. of_project "t1" "blog" d ≡ true → is_inflight d.status ≡ false)
        three_images.deployments
prune_old_images-spares_example =
    prune_old_images-spares settings (some "t1") "blog" three_images "one" (unfold releases in refl)

abbrev going : List Poll
going =
    Poll.fetched DeploymentStatus.building "clone"
    ∷ Poll.fetched DeploymentStatus.building "clone\nbuild"
    ∷ []

stream_deploy_log_events-spells_example :
    join newline (
      emitted (
        stream_deploy_log_events 1 900
          (going ++ (Poll.fetched DeploymentStatus.ready "clone\nbuild\nlive" ∷ []))))
    ≡ "clone\nbuild\nlive"
stream_deploy_log_events-spells_example =
    stream_deploy_log_events-spells 1 900 DeploymentStatus.ready "clone\nbuild\nlive" going
      (unfold releases in (refl, (refl, tt))) (unfold releases in refl)
      (unfold releases in (("clone" ∷ [], refl), (("build" ∷ [], refl), (("live" ∷ [], refl), tt))))
      (omega arith)

stream_deploy_log_events-stops_example :
    stream_deploy_log_events 1 2 (going ++ going) ≡ stream_deploy_log_events 1 2 going
stream_deploy_log_events-stops_example =
    stream_deploy_log_events-stops 1 2 going going (omega arith) (omega arith)

abbrev to_one : Rollback
to_one = record {
  deployment_id = "d4";
  tenant_id = some "t1";
  project = "blog";
  image = "one";
  port = 3000;
}

abbrev with_row : Db
with_row = record three_images {
  deployments =
      three_images.deployments
      ++ (record (queued_row "d4" "t1" "blog" "git" "main" 3000) { image = "one" } ∷ []);
}

run_rollback-Rolled_example :
    Rolled settings to_one
      (works settings built to_one with_row)
      with_row
      (run_rollback settings built to_one with_row)
run_rollback-Rolled_example = run_rollback-Rolled settings built to_one with_row

abbrev deployed : Db
deployed = record three_images { resources = app ∷ [] }

abbrev put_back : Db
put_back = record deployed {
  deployments =
      deployed.deployments
      ++ (record (queued_row "d4" "t1" "blog" "git" "main" 3000) { image = "one" } ∷ []);
}

rollback_for_tenant-restores_example :
    (1 ≤ count (is_target "t1" "d1" to_one) deployed.deployments)
    × (find_app "t1" "blog" deployed ≢ none)
    × (1 ≤ count (λ d. d.id == "d4") (run_rollback settings built to_one put_back).deployments)
    × All
        (λ d. d.id ≡ "d4" → Settled settings to_one (works settings built to_one put_back) d)
        (run_rollback settings built to_one put_back).deployments
    × ((run_rollback settings built to_one put_back).resources ≡ deployed.resources)
rollback_for_tenant-restores_example =
    rollback_for_tenant-restores settings "d4" (some "t1") "d1" deployed built {job = to_one}
      {queued = put_back} (unfold releases in refl)

abbrev branches : List PreviewCall
branches =
    deploy_preview "p1" "d5" (some "t1") "git" "login" "blog" 3000
    ∷ deploy_preview "p2" "d6" (some "t1") "git" "search" "blog" 3000
    ∷ teardown_branch (some "t1") "blog" "login"
    ∷ []

run-Within_cap_example :
    count (is_preview_of "t1" "blog") (run settings branches with_app).previews
    ≤ max settings.max_previews_per_project (count (is_preview_of "t1" "blog") with_app.previews)
run-Within_cap_example = run-Within_cap settings "t1" "blog" branches with_app

abbrev hook : DeployHook
hook = record {
  id = "h1";
  tenant_id = "t1";
  project = "blog";
  git_url = "git";
  ref = "main";
  port = 3000;
  secret = "s3cret";
  enabled = true;
  previews = true;
}

abbrev hooked : Db
hooked = record with_app { hooks = hook ∷ [] }

abbrev hmac : String → String → String
hmac secret body = secret

abbrev pushed : Call
pushed = record { body = "push"; signature = some "sha256=s3cret"; event = "push" }

abbrev json : String → Option Payload
json body = some (record { ref = "refs/heads/main"; ref_type = ""; deleted = false })

github_webhook-authentic_example :
    (h : DeployHook) × (get_hook "h1" hooked ≡ some h)
    × (h.enabled ≡ true)
    × (decrypt box h.secret ≢ "")
    × (some "sha256=s3cret" ≡ some (sign hmac (decrypt box h.secret) "push"))
github_webhook-authentic_example =
    github_webhook-authentic settings box hmac json "p1" "d7" "h1" pushed hooked
      {reply = Reply.redeploying (rebuild_job settings "d7" (some "t1") "git" "main" "blog" 3000)}
      {after = record hooked { deployments = queued_row "d7" "t1" "blog" "git" "main" 3000 ∷ [] }}
      (unfold releases in refl)
