-- ===== src/Compose/Layers.antt =====
-- What a service has under the caps.
use tetra_host.Prelude.{
  ap, ◌∙◌, Option, ℕ, String, ◌≡◌, refl, Bool, true, false, not, ◌&&◌, ◌==◌, none, some,
  if◌then◌else◌, eqb, arith, eq_iff, Option-cases,
}
use tetra_host.Prelude.Text.{decimal}
use Prim.Native.String.{◌++◌}
use tetra_host.Compose.{Yaml, Fields, bare, field, get, has, assign}
use tetra_host.Compose.Yaml.{text, number, thousandths}
use tetra_host.Compose.Caps.{cap_service, fill}

pub get-assign :
    (key other : String) (v : Yaml) (fs : Fields)
    → get other (assign key v fs) ≡ (if key == other then some v else get other fs)
unfolding get assign
get-assign key other v bare = ground arith
get-assign key other v (field k w fs) =
    ground (arith, get-assign key other v fs, eq_iff k key, eq_iff k other, eq_iff key other)

abbrev is_there : Option Yaml → Bool
is_there none = false
is_there (some _) = true

abbrev filled : Bool → Yaml → Option Yaml → Option Yaml
filled wanted limit o = if is_there o then o else if wanted then some limit else none

-- What a service has under a name once it was filled in.
get-fill :
    (wanted : Bool) (key other : String) (limit : Yaml) (svc : Fields)
    → get other (fill wanted key limit svc) ≡ filled (key == other && wanted) limit (get other svc)
unfolding has
get-fill wanted key other limit svc = ground (
  arith,
  get-assign key other limit svc,
  eq_iff key other,
  Option-cases (get other svc),
  Option-cases (get key svc),
)

filled_off : (limit : Yaml) (o : Option Yaml) → filled false limit o ≡ o
filled_off limit none = refl
filled_off limit (some v) = refl

abbrev both : Bool → Bool → Bool
both p q = p && q

one_of :
    (p q r cpu mem pids : Bool) (x y z : Yaml) (o : Option Yaml)
    → both p q ≡ false
    → both p r ≡ false
    → both q r ≡ false
    → filled (r && pids) z (filled (q && mem) y (filled (p && cpu) x o)) ≡ (
        if is_there o
        then o
        else if p
        then if cpu then some x else none
        else if q
        then if mem then some y else none
        else if r
        then if pids then some z else none
        else none)
one_of true true r cpu mem pids x y z o h k l = cc
one_of true false true cpu mem pids x y z o h k l = cc
one_of false true true cpu mem pids x y z o h k l = cc
one_of true false false cpu mem pids x y z o h k l =
    filled_off z (filled false y (filled cpu x o)) ∙ filled_off y (filled cpu x o)
one_of false true false cpu mem pids x y z o h k l =
    filled_off z (filled mem y (filled false x o)) ∙ ap (filled mem y) (filled_off x o)
one_of false false true cpu mem pids x y z o h k l =
    ap (filled pids z) (filled_off y (filled false x o) ∙ filled_off x o)
one_of false false false cpu mem pids x y z none h k l = refl
one_of false false false cpu mem pids x y z (some v) h k l = refl

distinct : (a b key : String) → (a == b) ≡ false → both (a == key) (b == key) ≡ false
distinct a b key h = ground (arith, eq_iff a key, eq_iff b key, eq_iff a b)

-- A field that a service has, it keeps under the caps. What it has not is its limit of processors,
-- where a size of them is given and the service has no count of them; its limit of memory, and that
-- of processes, where a size is given; and nothing under any other name.
pub get-cap_service :
    (cpu mem pids : ℕ) (svc : Fields) (key : String)
    → get key (cap_service cpu mem pids svc) ≡ (
        if has key svc
        then get key svc
        else if "cpus" == key
        then if not (eqb cpu 0) && not (has "cpu_count" svc) then some (thousandths cpu) else none
        else if "mem_limit" == key
        then if not (eqb mem 0) then some (text (decimal mem ++ "m")) else none
        else if "pids_limit" == key
        then if not (eqb pids 0) then some (number pids) else none
        else none)
unfolding cap_service has
get-cap_service cpu mem pids svc key =
    let cpu_wanted = not (eqb cpu 0) && not (has "cpu_count" svc) in
    let mem_cap = text (decimal mem ++ "m") in
    let with_cpu = fill cpu_wanted "cpus" (thousandths cpu) svc in
    let with_mem = fill (not (eqb mem 0)) "mem_limit" mem_cap with_cpu in
    get-fill (not (eqb pids 0)) "pids_limit" key (number pids) with_mem
    ∙ ap (filled ("pids_limit" == key && not (eqb pids 0)) (number pids)) (
        get-fill (not (eqb mem 0)) "mem_limit" key mem_cap with_cpu
        ∙ ap (filled ("mem_limit" == key && not (eqb mem 0)) mem_cap)
            (get-fill cpu_wanted "cpus" key (thousandths cpu) svc))
    ∙ one_of ("cpus" == key) ("mem_limit" == key) ("pids_limit" == key) cpu_wanted (not (eqb mem 0))
        (not (eqb pids 0)) (thousandths cpu) mem_cap (number pids) (get key svc)
        (distinct "cpus" "mem_limit" key refl) (distinct "cpus" "pids_limit" key refl)
        (distinct "mem_limit" "pids_limit" key refl)
