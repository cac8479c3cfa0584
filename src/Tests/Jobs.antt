-- ===== src/Tests/Jobs.antt =====
-- Schedules, jobs, the caps of a service, and requests across sites.
use tetra_host.Prelude.{
  true, false, ◌≡◌, ◌+◌, not, ◌&&◌, ◌==◌, if◌then◌else◌, eqb, refl, none, some, List, [], ◌∷◌,
  count, first, select, update, delete,
}
use tetra_host.Prelude.Text.{
  strip, upper, lower, contains, split, words, replace_char, is_digits, is_digit_char, drop_chars,
  has_char, split_once, starts_with_any, take_chars, decimal,
}
use tetra_host.Prelude.Numerals.{int_of, digits_value}
use tetra_host.Models.{Db, ScheduledJob, no_rows}
use tetra_host.Cron.{
  When, match_field, part_matches, any_part, cron_matches, is_valid_cron, is_valid_part,
  all_are_digits, at_least, at_most, is_number, on_step,
}
use tetra_host.Jobs.{
  Tick, responded, create, update_job, delete_job, owned, is_allowed_method, is_http_url, execute,
  run_job, run_all, run_due_jobs, tick_jobs, crashed,
}
use tetra_host.Jobs.Orphans.{
  JobCall, tick_call, delete_call, create_call, run, NoOrphans, run-NoOrphans,
}
use tetra_host.Jobs.Runs.{runs_of, fires, escaping, tick_jobs-runs}
use tetra_host.Compose.{Yaml, Fields, bare, field, get, has, assign}
use tetra_host.Compose.Caps.{cap_service}
use tetra_host.Compose.Layers.{get-cap_service}
use Prim.Native.String.{◌++◌}
use tetra_host.Csrf.{Request, is_let_through, is_exempt, is_same_origin, allowed_hosts}

jobs : Unit {0}
unfolding strip upper lower contains split words replace_char is_digits int_of digits_value
    is_digit_char drop_chars has_char split_once starts_with_any take_chars decimal count first
    select update delete match_field part_matches any_part cron_matches is_valid_cron is_valid_part
    all_are_digits at_least at_most is_number on_step create update_job delete_job owned
    is_allowed_method is_http_url execute run_job run_all run_due_jobs tick_jobs get has assign
    cap_service is_let_through is_exempt is_same_origin allowed_hosts
jobs = tt

abbrev sunday : When
sunday = record { minute = 30; hour = 6; day = 1; month = 3; isoweekday = 7 }

schedules :
    (cron_matches "*/15 6 * * *" sunday ≡ true)
    × (cron_matches "0,30 0-8 1 3 0" sunday ≡ true)
    × (cron_matches "* * * * 7" sunday ≡ true)
    × (cron_matches "* * * * 1-7" sunday ≡ false)
    × (is_valid_cron "*/5 * * * 1-5" ≡ true)
    × (is_valid_cron "a * * * *" ≡ false)
unfolding jobs
schedules = (refl, refl, refl, refl, refl, refl)

abbrev morning : ScheduledJob
morning = record {
  id = "j1";
  tenant_id = "t1";
  name = "ping";
  cron = "30 6 * * *";
  url = "https://acme.test";
  method = "GET";
  enabled = true;
  last_run_at = none;
  last_status = "";
  last_detail = "";
}

abbrev with_job : Db
with_job = record no_rows { jobs = morning ∷ [] }

abbrev half_past : Tick
half_past = record { at = sunday; now = 0; call = λ _. responded 503 20; run_id = λ _. "r1" }

fired : runs_of "j1" "t1" "error" (tick_jobs half_past with_job) ≡ 1
unfolding jobs
fired = refl

-- a second job, whose call meets an exception, takes the first one's run with it
abbrev with_two : Db
with_two = record no_rows {
  jobs = morning ∷ (record morning { id = "j2"; url = "http://acme.test:x" }) ∷ [];
}

abbrev half_crashed : Tick
half_crashed = record half_past { call = λ j. if j.id == "j2" then crashed else responded 200 5 }

rolled_back : runs_of "j1" "t1" "ok" (tick_jobs half_crashed with_two) ≡ 0
unfolding jobs
rolled_back = refl

tick_jobs-runs_example :
    runs_of "j1" "t1" "error" (tick_jobs half_past with_job)
    ≡ runs_of "j1" "t1" "error" with_job
      + (if eqb (escaping half_past with_job) 0
          then fires half_past "j1" "t1" "error" with_job
          else 0)
tick_jobs-runs_example = tick_jobs-runs half_past "j1" "t1" "error" with_job

abbrev calls : List JobCall
calls =
    tick_call half_past
    ∷ create_call "j2" (some "t1") "two" "* * * * *" "https://acme.test" "post"
    ∷ delete_call (some "t1") "j1"
    ∷ []

run-NoOrphans_example : NoOrphans (run calls with_job)
run-NoOrphans_example = run-NoOrphans calls with_job tt

abbrev strict : Fields
strict = field "mem_limit" (Yaml.text "64m") bare

get-cap_service_example : get "mem_limit" (cap_service 500 512 100 strict) ≡ (
    if has "mem_limit" strict
    then get "mem_limit" strict
    else if "cpus" == "mem_limit"
    then if not (eqb 500 0) && not (has "cpu_count" strict)
      then some (Yaml.thousandths 500)
      else none
    else if "mem_limit" == "mem_limit"
    then if not (eqb 512 0) then some (Yaml.text (decimal 512 ++ "m")) else none
    else if "pids_limit" == "mem_limit"
    then if not (eqb 100 0) then some (Yaml.number 100) else none
    else none)
get-cap_service_example = get-cap_service 500 512 100 strict "mem_limit"

abbrev form : Request
form = record {
  method = "POST";
  path = "/login";
  authorization = "";
  sec_fetch_site = "";
  origin = "https://evil.test";
  host = "panel.test:443";
}

crossing :
    (is_let_through [] (λ _. "evil.test") form ≡ false)
    × (is_let_through [] (λ _. "panel.test") form ≡ true)
unfolding jobs
crossing = (refl, refl)
