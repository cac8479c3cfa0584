-- ===== src/Deploys/Hooks.antt =====
-- app/modules/deploys/service.py and app/services/github_webhook.py: the webhooks that GitHub calls
-- on a push, and the signature of a call. The HMAC of a body is an argument.
use tetra_host.Prelude.{
  ℕ, String, Bool, true, false, not, ◌||◌, ◌==◌, Option, none, some, List, if◌then◌else◌, first,
  select, insert, delete, newest_first,
}
use tetra_host.Prelude.Text.{starts_with, drop_chars, length}
use Prim.Native.String.{◌++◌}
use tetra_host.Models.{Db, DeployHook}
use tetra_host.Access.{tenant_key}
use tetra_host.Deploys.{Box}
use tetra_host.Deploys.Env.{encrypt}

-- The ciphertext is stored; `raw_secret` is the random secret that is shown once.
unfoldable pub create_hook_for_tenant :
    Box
    → String
    → String
    → Option String
    → String
    → String
    → String
    → ℕ
    → Bool
    → Db
    → (DeployHook × String) × Db
create_hook_for_tenant box id raw_secret tenant_id project git_url ref port previews db =
    let hook : DeployHook = record {
      id = id;
      tenant_id = tenant_key tenant_id;
      project = project;
      git_url = git_url;
      ref = ref;
      port = port;
      secret = encrypt box raw_secret;
      enabled = true;
      previews = previews;
    } in
    ((hook, raw_secret), record db { hooks = insert hook db.hooks })

unfoldable pub list_hooks_for_tenant : Option String → Db → List DeployHook
list_hooks_for_tenant tenant_id db =
    newest_first (select (λ h. h.tenant_id == tenant_key tenant_id) db.hooks)

unfoldable pub get_hook : String → Db → Option DeployHook
get_hook hook_id db = first (λ h. h.id == hook_id) db.hooks

delete_found : Option String → Option DeployHook → Db → Bool × Db
delete_found tenant_id none db = (false, db)
delete_found tenant_id (some h) db =
    if h.tenant_id == tenant_key tenant_id
    then (true, record db { hooks = delete (λ x. x.id == h.id) db.hooks })
    else (false, db)

unfoldable pub delete_hook_for_tenant : Option String → String → Db → Bool × Db
unfolding delete_found
delete_hook_for_tenant tenant_id hook_id db = delete_found tenant_id (get_hook hook_id db) db

module _ (hmac : String → String → String) where
  unfoldable pub sign : String → String → String
  sign secret body = "sha256=" ++ hmac secret body

  unfoldable pub verify_signature : String → String → Option String → Bool
  verify_signature secret body none = false
  verify_signature secret body (some header) =
      if secret == "" || header == "" || not (starts_with header "sha256=")
      then false
      else sign secret body == header

abbrev branch_prefix : String
branch_prefix = "refs/heads/"

unfoldable pub branch_from_ref : String → String
branch_from_ref ref =
    if starts_with ref branch_prefix then drop_chars (length branch_prefix) ref else ""
