-- ===== src/Compose/Caps.antt =====
-- app/services/limits.py: caps on the resources of every service of a stack.
use tetra_host.Prelude.{ℕ, String, Bool, not, ◌&&◌, Option, none, some, if◌then◌else◌, eqb}
use tetra_host.Prelude.Text.{decimal}
use tetra_host.Compose.{Yaml, Fields, YamlLib, bare, field, get, has, assign}
use tetra_host.Compose.Yaml.{text, number, thousandths, mapping}
use Prim.Native.String.{◌++◌}

-- what to do where a cap was given and the service has none
abbrev pub fill : Bool → String → Yaml → Fields → Fields
fill wanted key cap svc = if wanted && not (has key svc) then assign key cap svc else svc

unfoldable pub cap_service : ℕ → ℕ → ℕ → Fields → Fields
cap_service cpu mem pids svc =
    let with_cpu =
      fill (not (eqb cpu 0) && not (has "cpu_count" svc)) "cpus" (thousandths cpu) svc in
    let with_mem = fill (not (eqb mem 0)) "mem_limit" (text (decimal mem ++ "m")) with_cpu in
    fill (not (eqb pids 0)) "pids_limit" (number pids) with_mem

cap_value : ℕ → ℕ → ℕ → Yaml → Yaml
unfolding cap_service
cap_value cpu mem pids (mapping svc) = mapping (cap_service cpu mem pids svc)
cap_value cpu mem pids other = other

unfoldable pub cap_services : ℕ → ℕ → ℕ → Fields → Fields
unfolding cap_value
cap_services cpu mem pids bare = bare
cap_services cpu mem pids (field name svc rest) =
    field name (cap_value cpu mem pids svc) (cap_services cpu mem pids rest)

capped : ℕ → ℕ → ℕ → Yaml → Option Yaml
unfolding get
capped cpu mem pids (mapping doc) = elim (get "services" doc) [
  | some (mapping services) ↦
      some (mapping (assign "services" (mapping (cap_services cpu mem pids services)) doc))
  | _ ↦ none
]
capped cpu mem pids _ = none

capped_text : YamlLib → String → Option Yaml → String
capped_text yaml unchanged none = unchanged
capped_text yaml unchanged (some doc) = yaml.dump doc

read_capped : ℕ → ℕ → ℕ → Option Yaml → Option Yaml
unfolding capped
read_capped cpu mem pids none = none
read_capped cpu mem pids (some doc) = capped cpu mem pids doc

-- `pids_limit` is the argument or, without it, the setting `default_app_pids_limit`.
unfoldable pub apply_resource_limits : YamlLib → ℕ → ℕ → ℕ → String → String
unfolding capped_text read_capped
apply_resource_limits yaml cpu_millicores mem_mb pids compose =
    capped_text yaml compose (read_capped cpu_millicores mem_mb pids (yaml.load compose))
