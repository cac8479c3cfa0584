-- ===== src/Deploys.antt =====
-- app/modules/deploys/service.py: builds of git repositories, run as apps. What the builder, docker,
-- the registry, the clock and the receivers of notifications answer is part of a `World`, which is an
-- argument; ids are arguments too. A background task runs its transactions one after the other.
pub mod Env
pub mod Run
pub mod Queue
pub mod Retention
pub mod Rollback
pub mod Previews
pub mod Hooks
pub mod LogStream
pub mod Webhook
use tetra_host.Prelude.{
  ℕ, zero, suc, String, Bool, true, false, not, ◌&&◌, ◌||◌, ◌==◌, ◌+◌, Option, none, some, List, [],
  ◌∷◌, eqb, leb, if◌then◌else◌, first, update,
}
use tetra_host.Prelude.Text.{strip, lower, join, decimal}
use tetra_host.Prelude.Dict.{Dict}
use Prim.Native.Char.{Char, char, code}
use Prim.Native.String
use Prim.Native.String.{◌++◌}
use tetra_host.Models.{
  Db, Deployment, DeploymentStatus, TenantResource, provider_docker, resource_type_app,
}
use tetra_host.Plans
use tetra_host.Compose.{YamlLib, Yaml, Items, end, item, bare, field}
use tetra_host.Compose.Edge.{EdgeSettings}
use tetra_host.Registry.{Docker, Registry}
use tetra_host.Notify.{Wire}

pub record Settings : Type 0 where
  pub enable_provider_actions : Bool
  pub edge : EdgeSettings
  pub registry : Registry
  pub registry_keep_images : ℕ
  pub max_previews_per_project : ℕ
  pub default_app_pids_limit : ℕ
  pub sizes : Plans.Settings

-- what a call gives: its value, a `BuildError` or a `DockerEngineError`, or any other exception
pub data Outcome {ℓ} (A : Type ℓ) : Type ℓ where
  returned : A → Outcome A
  refused crashed : String → Outcome A

pub record BuildResult : Type 0 where
  pub image : String
  pub builder : String
  pub commit : String
  pub port : ℕ

-- the Fernet box: a token that it did not seal opens to nothing
pub record Box : Type 0 where
  pub seal : String → String
  pub unseal : String → Option String

pub record World : Type 0 where
  -- the instant at which the build starts, and its output with the instants, in microseconds
  pub started_at : ℕ
  pub build_lines : List (String × ℕ)
  pub build : Outcome BuildResult
  pub docker : Docker
  -- a stack of that project started from that compose text
  pub deploy_stack : String → String → Outcome (Unit {0})
  pub yaml : YamlLib
  pub box : Box
  pub wire : Wire

pub data DeployError : Type 0 where
  actions_disabled already_deployed not_deployed deployment_not_found not_rollbackable : DeployError
  preview_limit : DeployError
  quota_exceeded : ℕ → ℕ → DeployError

abbrev pub newline : Char
newline = char 10 tt

-- [a-z0-9_-]
unfoldable pub is_name_char : Char → Bool
is_name_char c =
    leb 97 (code c) && leb (code c) 122
    || leb 48 (code c) && leb (code c) 57
    || eqb (code c) 95
    || eqb (code c) 45

-- "-" or "_"
unfoldable pub is_rim : Char → Bool
is_rim c = eqb (code c) 45 || eqb (code c) 95

-- _PROJECT_SANITIZE.sub("-", s), with whether the scan is in a run of other characters
unfoldable pub dash_runs : Bool → String → String
dash_runs in_run String.[] = ""
dash_runs in_run (String.◌∷◌ c s) =
    let kept = dash_runs false s in
    let skipped = dash_runs true s in
    if is_name_char c
    then String.◌∷◌ c kept
    else if in_run
    then skipped
    else String.◌∷◌ (char 45 tt) skipped

unfoldable pub strip_left : String → String
strip_left String.[] = ""
strip_left (String.◌∷◌ c s) = let rest = strip_left s in if is_rim c then rest else String.◌∷◌ c s

unfoldable pub strip_right : String → String
strip_right String.[] = ""
strip_right (String.◌∷◌ c s) =
    let rest = strip_right s in if rest == "" && is_rim c then "" else String.◌∷◌ c rest

-- app/services/docker_engine.py
unfoldable pub sanitize_project_name : String → String
sanitize_project_name name =
    let slug = strip_right (strip_left (dash_runs false (lower (strip name)))) in
    if slug == "" then "app" else slug

unfoldable pub preview_project_name : String → String → String
preview_project_name project branch = sanitize_project_name (project ++ "-git-" ++ branch)

environment : Dict String → Items
environment [] = end
environment ((key, value) ∷ env) =
    let rest = environment env in
    if key == "PORT" then rest else item (Yaml.text (key ++ "=" ++ value)) rest

compose_doc : String → ℕ → Dict String → Yaml
unfolding environment
compose_doc image port env =
    let app = Yaml.mapping (
      field "image" (Yaml.text image) (
        field "restart" (Yaml.text "unless-stopped") (
          field "environment"
            (Yaml.sequence (item (Yaml.text ("PORT=" ++ decimal port)) (environment env)))
            (field "expose" (Yaml.sequence (item (Yaml.text (decimal port)) end)) bare)))) in
    Yaml.mapping (field "services" (Yaml.mapping (field "app" app bare)) bare)

unfoldable pub compose_for_image : YamlLib → String → ℕ → Dict String → String
unfolding compose_doc
compose_for_image yaml image port env = yaml.dump (compose_doc image port env)

-- the row of the reservation of an app
unfoldable pub is_app_row : String → String → TenantResource → Bool
is_app_row tenant_id project r =
    r.tenant_id == tenant_id
    && r.provider == provider_docker
    && r.resource_type == resource_type_app
    && r.external_id == project

unfoldable pub find_app : String → String → Db → Option TenantResource
find_app tenant_id project db = first (is_app_row tenant_id project) db.resources

-- `_set`, where `change` assigns the status and the fields that the call names
unfoldable pub set_deployment : String → List String → (Deployment → Deployment) → Db → Db
set_deployment id log change db = record db {
  deployments =
      update (λ d. d.id == id) (λ d. record (change d) { log = join newline log }) db.deployments;
}

abbrev pub domain_of : Settings → String → String
domain_of cfg project =
    let base = cfg.edge.apps_base_domain in if base == "" then "" else project ++ "." ++ base
