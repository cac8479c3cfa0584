-- ===== src/Tests/Domains.antt =====
-- Hostnames and monitors.
use tetra_host.Prelude.{
  ℕ, String, true, false, ◌≡◌, ◌≤◌, ◌⊎◌, ◌==◌, refl, none, some, List, [], ◌∷◌, ok, err, arith,
  count, first, select, update, delete, length, if◌then◌else◌,
}
use tetra_host.Prelude.Text.{strip, lower, rstrip_char, contains, ends_with}
use tetra_host.Models.{
  Db, Domain, DomainStatus, TenantResource, UptimeMonitor, UptimeStatus, no_rows, is_verified,
  provider_docker, resource_type_app,
}
use tetra_host.Domains.{
  Settings, is_hostname, line_length, matches_labels, normalize_hostname, add_for_tenant,
  verify_for_tenant, get_for_tenant, delete_for_tenant, serves, is_hostname_verified, is_app_owned,
  invalid_name, assigned_automatically,
}
use tetra_host.Domains.Calls.{Request, add_one, verify_one, left, step, run}
use tetra_host.Domains.Claims.{run-claims}
use tetra_host.Domains.Serving.{IsProof, step-serving}
use tetra_host.Uptime.{
  Outcome, responded, failed, crashed, app_down, app_up, probe, probed, should_alert, check_monitor,
  check_one, run_all_due, run_uptime_checks,
}
use tetra_host.Uptime.Alerts.{Check, watch, watched, Alternates, watch-Alternates}

domains : Unit {0}
unfolding count first select update delete strip lower rstrip_char contains ends_with is_verified
    is_hostname line_length matches_labels normalize_hostname add_for_tenant verify_for_tenant
    get_for_tenant delete_for_tenant is_hostname_verified is_app_owned left step run
domains = tt

abbrev settings : Settings
settings = record {
  apps_base_domain = "apps.example";
  cloudflare_saas_zone_id = "";
  has_cloudflare = false;
}

names :
    (normalize_hostname settings " WWW.Acme.test. " ≡ ok "www.acme.test")
    × (normalize_hostname settings "acme" ≡ err invalid_name)
    × (normalize_hostname settings "-a.test" ≡ err invalid_name)
    × (normalize_hostname settings "a-.test" ≡ err invalid_name)
    × (normalize_hostname settings "acme.t3st" ≡ err invalid_name)
    × (normalize_hostname settings "blog.apps.example" ≡ err assigned_automatically)
unfolding domains
names = (refl, refl, refl, refl, refl, refl)

abbrev app : TenantResource
app = record {
  id = "r1";
  tenant_id = "t1";
  provider = provider_docker;
  resource_type = resource_type_app;
  external_id = "blog";
  display_name = "";
  cpu_millicores = none;
  mem_mb = none;
  disk_mb = none;
}

abbrev start : Db
start = record no_rows { resources = app ∷ [] }

abbrev proof : Request
proof = verify_one (λ name. "tok" ∷ []) none (some "t1") "d1"

abbrev calls : List Request
calls =
    add_one "d1" "tok" (some "t1") "blog" "www.acme.test"
    ∷ add_one "d2" "tok2" (some "t1") "blog" "WWW.acme.test"
    ∷ verify_one (λ name. []) none (some "t1") "d1"
    ∷ verify_one (λ name. "tok" ∷ []) none (some "t2") "d1"
    ∷ []

abbrev claim : Domain
claim = record {
  id = "d1";
  tenant_id = "t1";
  project = "blog";
  hostname = "www.acme.test";
  status = DomainStatus.pending;
  token = "tok";
  cf_hostname_id = "";
}

abbrev claimed : Db
claimed = record start { domains = claim ∷ [] }

-- One claim stands, and neither the wrong answer nor another tenant verified it.
claims_once : run settings calls start ≡ claimed
unfolding domains
claims_once = refl

serves_then : is_hostname_verified "www.acme.test." (step settings proof claimed) ≡ true
unfolding domains
serves_then = refl

none_at_start : count (λ d. d.hostname == "www.acme.test") start.domains ≤ 1
unfolding domains
none_at_start = omega arith

run-claims_example :
    count (λ d. d.hostname == "www.acme.test") (run settings calls start).domains ≤ 1
run-claims_example = run-claims settings "www.acme.test" calls start none_at_start

keyed : (id : String) → count (λ d. d.id == id) claimed.domains ≤ 1
unfolding domains
keyed id = ground arith

served : 1 ≤ count (serves "www.acme.test") (step settings proof claimed).domains
unfolding domains
served = omega arith

step-serving_example :
    (1 ≤ count (serves "www.acme.test") claimed.domains)
    ⊎ IsProof settings "www.acme.test" claimed proof
step-serving_example = step-serving settings "www.acme.test" proof claimed keyed served

abbrev monitor : UptimeMonitor
monitor = record {
  id = "m1";
  tenant_id = "t1";
  name = "site";
  url = "https://www.acme.test/";
  enabled = true;
  status = UptimeStatus.unknown;
  last_checked_at = none;
  last_latency_ms = 0;
  last_detail = "";
}

abbrev check_at : ℕ → Outcome → Check
check_at now outcome = record { commits = true; now = now; outcome = outcome }

abbrev checks : List Check
checks =
    check_at 1 (responded 200 12)
    ∷ check_at 2 (responded 503 7)
    ∷ check_at 3 (failed "timed out" 10000)
    ∷ check_at 4 (responded 302 9)
    ∷ check_at 5 (responded 404 9)
    ∷ []

sends : watch checks monitor ≡ app_down ∷ app_up ∷ app_down ∷ []
unfolding watch watched check_monitor probed probe should_alert
sends = refl

watch-Alternates_example : Alternates monitor.status (watch checks monitor)
watch-Alternates_example =
    watch-Alternates checks monitor (refl, (refl, (refl, (refl, (refl, tt)))))

-- The probe of a later monitor raises in each of two sweeps, and the alert of the first is sent twice.
abbrev two_monitors : Db
two_monitors = record no_rows {
  monitors = monitor ∷ (record monitor { id = "m2"; url = "http://acme.test:x" }) ∷ [];
}

abbrev meets : String → Outcome
meets url = if url == "http://acme.test:x" then crashed else responded 503 7

repeats :
    (let first_sweep = run_uptime_checks 1 meets two_monitors in
      let second_sweep = run_uptime_checks 2 meets first_sweep.1 in
      (length first_sweep.0 ≡ 1) × (length second_sweep.0 ≡ 1))
unfolding run_uptime_checks run_all_due check_one check_monitor probed probe should_alert select
    update
repeats = (refl, refl)
