-- ===== src/Deploys/Webhook.antt =====
-- app/api/routes.py, `api_github_webhook`: a call of GitHub, and what it does to the rows.
pub mod Authentic
use tetra_host.Prelude.{
  ℕ, String, Bool, true, false, not, ◌&&◌, ◌||◌, ◌==◌, Option, none, some, Result, ok, err,
  if◌then◌else◌,
}
use tetra_host.Models.{Db, DeployHook}
use tetra_host.Deploys.{Settings, Box, DeployError}
use tetra_host.Deploys.Env.{decrypt}
use tetra_host.Deploys.Run.{Deploy}
use tetra_host.Deploys.Queue.{redeploy_for_tenant}
use tetra_host.Deploys.Previews.{deploy_preview_for_tenant, teardown_preview_for_branch}
use tetra_host.Deploys.Hooks.{get_hook, verify_signature, branch_from_ref}

-- what the handler reads of a payload, each text empty where it is absent or no text
pub record Payload : Type 0 where
  pub ref : String
  pub ref_type : String
  -- whether `deleted` is true
  pub deleted : Bool

pub record Call : Type 0 where
  pub body : String
  -- X-Hub-Signature-256
  pub signature : Option String
  -- X-GitHub-Event
  pub event : String

pub data HookError : Type 0 where
  hook_not_found invalid_signature invalid_json : HookError
  engine : DeployError → HookError

pub data Reply : Type 0 where
  pong ignored : Reply
  -- the stack that was torn down, if there was one
  preview_removed : Option String → Reply
  redeploying : Deploy → Reply
  previewing : Deploy → String → Reply

-- the random ids, the Fernet box, the HMAC and the JSON library
module _ (cfg : Settings) (box : Box) (hmac : String → String → String)
    (json : String → Option Payload) (row_id id : String) where
  unfoldable pub torn : Result DeployError (Option String × Db) → Result HookError (Reply × Db)
  torn (ok (stack, db)) = ok (Reply.preview_removed stack, db)
  torn (err e) = err (HookError.engine e)

  unfoldable pub redeployed : Result DeployError (Deploy × Db) → Result HookError (Reply × Db)
  redeployed (ok (job, db)) = ok (Reply.redeploying job, db)
  redeployed (err e) = err (HookError.engine e)

  unfoldable pub previewed :
      Result DeployError ((Deploy × String) × Db) → Result HookError (Reply × Db)
  previewed (ok ((job, domain), db)) = ok (Reply.previewing job domain, db)
  previewed (err e) = err (HookError.engine e)

  unfoldable pub on_delete : DeployHook → Payload → Db → Result HookError (Reply × Db)
  unfolding torn
  on_delete hook payload db =
      if not (payload.ref_type == "branch") || not hook.previews
      then ok (Reply.ignored, db)
      else torn (teardown_preview_for_branch cfg (some hook.tenant_id) hook.project payload.ref db)

  unfoldable pub on_push : DeployHook → Payload → Db → Result HookError (Reply × Db)
  unfolding torn redeployed previewed
  on_push hook payload db =
      let branch = branch_from_ref payload.ref in
      let tenant = some hook.tenant_id in
      if branch == ""
      then ok (Reply.ignored, db)
      else if branch == hook.ref
      then if payload.deleted
        then ok (Reply.ignored, db)
        else redeployed
            (redeploy_for_tenant cfg id tenant hook.git_url hook.ref hook.project hook.port db)
      else if not hook.previews
      then ok (Reply.ignored, db)
      else if payload.deleted
      then torn (teardown_preview_for_branch cfg tenant hook.project branch db)
      else previewed (
          deploy_preview_for_tenant cfg row_id id tenant hook.git_url branch hook.project hook.port
            db)

  unfoldable pub on_payload :
      DeployHook → String → Option Payload → Db → Result HookError (Reply × Db)
  unfolding on_delete on_push
  on_payload hook event none db = err HookError.invalid_json
  on_payload hook event (some payload) db =
      if event == "delete" then on_delete hook payload db else on_push hook payload db

  unfoldable pub on_hook : Call → Option DeployHook → Db → Result HookError (Reply × Db)
  unfolding on_payload
  on_hook call none db = err HookError.hook_not_found
  on_hook call (some hook) db =
      if not hook.enabled
      then err HookError.hook_not_found
      else if not (verify_signature hmac (decrypt box hook.secret) call.body call.signature)
      then err HookError.invalid_signature
      else if call.event == "ping"
      then ok (Reply.pong, db)
      else if not (call.event == "push") && not (call.event == "delete")
      then ok (Reply.ignored, db)
      else on_payload hook call.event (json call.body) db

  unfoldable pub github_webhook : String → Call → Db → Result HookError (Reply × Db)
  unfolding on_hook
  github_webhook hook_id call db = on_hook call (get_hook hook_id db) db
