-- ===== src/Deploys/Env.antt =====
-- app/modules/deploys/service.py and app/services/secrets.py: the environment variables of an app,
-- encrypted at rest, and its caps.
use tetra_host.Prelude.{
  ℕ, zero, suc, String, Bool, true, false, ◌&&◌, ◌==◌, Option, none, some, List, [], ◌∷◌,
  if◌then◌else◌, first, select, insert, update, delete,
}
use tetra_host.Prelude.Dict.{Dict, assign}
use tetra_host.Models.{Db, AppEnvVar, TenantResource}
use tetra_host.Access.{tenant_key}
use tetra_host.Plans
use tetra_host.Deploys.{Box, find_app}

unfoldable pub encrypt : Box → String → String
encrypt box value = box.seal value

or_empty : Option String → String
or_empty none = ""
or_empty (some value) = value

unfoldable pub decrypt : Box → String → String
unfolding or_empty
decrypt box token = if token == "" then "" else or_empty (box.unseal token)

abbrev pub is_var : Option String → String → String → AppEnvVar → Bool
is_var tenant_id project key v =
    v.tenant_id == tenant_key tenant_id && v.project == project && v.key == key

set_found : Option AppEnvVar → AppEnvVar → List AppEnvVar → List AppEnvVar
set_found none new rows = insert new rows
set_found (some found) new rows =
    update (λ v. v.id == found.id)
      (λ v. record v {
        value = new.value;
        is_secret = new.is_secret;
        is_build_time = new.is_build_time;
      })
      rows

unfoldable pub set_env_for_tenant :
    Box → String → Option String → String → String → String → Bool → Bool → Db → Db
unfolding set_found
set_env_for_tenant box id tenant_id project key value is_secret is_build_time db = record db {
  envs =
      set_found (first (is_var tenant_id project key) db.envs)
        (record {
          id = id;
          tenant_id = tenant_key tenant_id;
          project = project;
          key = key;
          value = encrypt box value;
          is_secret = is_secret;
          is_build_time = is_build_time;
        })
        db.envs;
}

-- the rows are sorted by their keys, which is left out
unfoldable pub list_env_for_tenant : Option String → String → Db → List AppEnvVar
list_env_for_tenant tenant_id project db =
    select (λ v. v.tenant_id == tenant_key tenant_id && v.project == project) db.envs

delete_found : Option AppEnvVar → Db → Bool × Db
delete_found none db = (false, db)
delete_found (some v) db = (true, record db { envs = delete (λ x. x.id == v.id) db.envs })

unfoldable pub delete_env_for_tenant : Option String → String → String → Db → Bool × Db
unfolding delete_found
delete_env_for_tenant tenant_id project key db =
    delete_found (first (is_var tenant_id project key) db.envs) db

-- {row.key: decrypt(row.value) for row in rows}
unfoldable pub decrypted : Box → List AppEnvVar → Dict String → Dict String
decrypted box [] env = env
decrypted box (v ∷ vs) env = decrypted box vs (assign v.key (decrypt box v.value) env)

unfoldable pub env_map_for_deploy : Box → Option String → String → Db → Dict String
env_map_for_deploy box tenant_id project db =
    decrypted box
      (select (λ v. v.tenant_id == tenant_key tenant_id && v.project == project) db.envs) []

size_or : ℕ → Option ℕ → ℕ
size_or fallback none = fallback
size_or fallback (some zero) = fallback
size_or fallback (some (suc n)) = suc n

limits_of : Plans.Settings → Option TenantResource → ℕ × ℕ
unfolding size_or
limits_of cfg none = (cfg.default_app_cpu_millicores, cfg.default_app_mem_mb)
limits_of cfg (some r) = (
  size_or cfg.default_app_cpu_millicores r.cpu_millicores,
  size_or cfg.default_app_mem_mb r.mem_mb,
)

unfoldable pub limits_for : Plans.Settings → Option String → String → Db → ℕ × ℕ
unfolding limits_of
limits_for cfg tenant_id project db = limits_of cfg (find_app (tenant_key tenant_id) project db)
