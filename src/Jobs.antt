-- ===== src/Jobs.antt =====
-- app/modules/jobs/service.py and app/services/scheduler.py: HTTP calls on a schedule. What a call
-- meets, the instant and the fresh ids are arguments.
pub mod Orphans
pub mod Runs
use tetra_host.Prelude.{
  ℕ, String, ◌≡◌, refl, Bool, true, false, not, ◌&&◌, ◌||◌, ◌==◌, Option, none, some, List, [], ◌∷◌,
  ◌++◌, map, Result, ok, err, ◌>>=◌, ◌>>◌, ltb, if◌then◌else◌, first, select, insert, update,
  delete, newest_first, length, take,
}
use tetra_host.Prelude.Text.{strip, upper, starts_with, take_chars, decimal, contains}
use Prim.Native.String
use tetra_host.Models.{Db, ScheduledJob, JobRun}
use tetra_host.Access.{tenant_key}
use tetra_host.Cron.{When, cron_matches, is_valid_cron}

-- the calls that raise a `JobError`
pub data JobError : Type 0 where
  job_not_found tenant_required name_required invalid_cron invalid_url invalid_method : JobError

abbrev pub require : Bool → JobError → Result JobError (Unit {0})
require true e = ok tt
require false e = err e

unfoldable pub is_allowed_method : String → Bool
is_allowed_method method = contains ("GET" ∷ "POST" ∷ "HEAD" ∷ []) method

unfoldable pub is_http_url : String → Bool
is_http_url url = starts_with url "https://" || starts_with url "http://"

unfoldable pub list_for_tenant : Option String → Db → List ScheduledJob
list_for_tenant tenant_id db =
    newest_first (select (λ j. j.tenant_id == tenant_key tenant_id) db.jobs)

own_job : String → Option ScheduledJob → Result JobError ScheduledJob
own_job tenant_id none = err job_not_found
own_job tenant_id (some j) = if j.tenant_id == tenant_id then ok j else err job_not_found

unfoldable pub owned : Option String → String → Db → Result JobError ScheduledJob
unfolding own_job
owned tenant_id job_id db = own_job (tenant_key tenant_id) (first (λ j. j.id == job_id) db.jobs)

unfoldable pub create :
    String
    → Option String
    → String
    → String
    → String
    → String
    → Db
    → Result JobError (ScheduledJob × Db)
create id tenant_id name cron url method db = do
  require (not (tenant_key tenant_id == "")) tenant_required
  require (not (strip name == "")) name_required
  require (is_valid_cron cron) invalid_cron
  require (is_http_url url) invalid_url
  require (is_allowed_method (upper method)) invalid_method
  let job : ScheduledJob = record {
    id = id;
    tenant_id = tenant_key tenant_id;
    name = strip name;
    cron = strip cron;
    url = strip url;
    method = upper method;
    enabled = true;
    last_run_at = none;
    last_status = "";
    last_detail = "";
  }
  ok (job, record db { jobs = insert job db.jobs })

with_cron : Option String → ScheduledJob → Result JobError ScheduledJob
with_cron none j = ok j
with_cron (some cron) j =
    if is_valid_cron cron then ok (record j { cron = strip cron }) else err invalid_cron

with_url : Option String → ScheduledJob → Result JobError ScheduledJob
with_url none j = ok j
with_url (some url) j =
    if is_http_url url then ok (record j { url = strip url }) else err invalid_url

with_method : Option String → ScheduledJob → Result JobError ScheduledJob
with_method none j = ok j
with_method (some method) j =
    if is_allowed_method (upper method)
    then ok (record j { method = upper method })
    else err invalid_method

with_enabled : Option Bool → ScheduledJob → ScheduledJob
with_enabled none j = j
with_enabled (some b) j = record j { enabled = b }

-- The job is written back over the row of its id.
unfoldable pub update_job :
    Option String
    → String
    → Option String
    → Option String
    → Option String
    → Option Bool
    → Db
    → Result JobError (ScheduledJob × Db)
unfolding with_cron with_url with_method with_enabled
update_job tenant_id job_id cron url method enabled db = do
  j ← owned tenant_id job_id db
  with_new_cron ← with_cron cron j
  with_new_url ← with_url url with_new_cron
  with_new_method ← with_method method with_new_url
  let after = with_enabled enabled with_new_method
  ok (
    after,
    record db {
      jobs =
          update (λ x. x.id == j.id)
            (λ x. record x {
              cron = after.cron;
              url = after.url;
              method = after.method;
              enabled = after.enabled;
            })
            db.jobs;
    },
  )

unfoldable pub delete_job : Option String → String → Db → Result JobError Db
delete_job tenant_id job_id db = do
  j ← owned tenant_id job_id db
  ok (record db {
    runs = delete (λ r. r.job_id == j.id) db.runs;
    jobs = delete (λ x. x.id == j.id) db.jobs;
  })

unfoldable pub list_runs : Option String → String → ℕ → Db → Result JobError (List JobRun)
list_runs tenant_id job_id limit db = do
  _ ← owned tenant_id job_id db
  ok (take limit (newest_first (select (λ r. r.job_id == job_id) db.runs)))

-- what a call meets: a status code or an `HTTPError` with its message, and the milliseconds it
-- took; or an exception of another kind, such as httpx.InvalidURL
pub data Answer : Type 0 where
  responded : ℕ → ℕ → Answer
  failed : String → ℕ → Answer
  crashed : Answer

-- nothing where the exception escapes
unfoldable pub execute : Answer → Option (String × String × ℕ)
execute (responded code duration) = some (
    if ltb code 400
    then ("ok", decimal code, duration)
    else ("error", take_chars 500 (String.◌++◌ "HTTP " (decimal code)), duration))
execute (failed message duration) = some ("error", take_chars 500 message, duration)
execute crashed = none

abbrev pub is_due : When → ScheduledJob → Bool
is_due at j = j.enabled && cron_matches j.cron at

-- the clock, what the call of a job meets, and the fresh id of its run
pub record Tick : Type 0 where
  pub at : When
  pub now : ℕ
  pub call : ScheduledJob → Answer
  pub run_id : ScheduledJob → String

-- the rest of a tick, where no exception escaped
abbrev pub and_then : Option Db → (Db → Option Db) → Option Db
and_then none rest = none
and_then (some db) rest = rest db

module _ (tick : Tick) where
  abbrev pub run_of : ScheduledJob → String × String × ℕ → JobRun
  run_of j (status, detail, duration) = record {
    id = tick.run_id j;
    job_id = j.id;
    tenant_id = j.tenant_id;
    status = status;
    detail = detail;
    duration_ms = duration;
  }

  unfoldable pub run_job : ScheduledJob → String × String × ℕ → Db → Db
  run_job j (status, detail, duration) db = record db {
    runs = insert (run_of j (status, detail, duration)) db.runs;
    jobs =
        update (λ x. x.id == j.id)
          (λ x. record x {
            last_run_at = some tick.now;
            last_status = status;
            last_detail = detail;
          })
          db.jobs;
  }

  run_job_or_raise : ScheduledJob → Option (String × String × ℕ) → Db → Option Db
  run_job_or_raise j none db = none
  run_job_or_raise j (some answer) db = some (run_job j answer db)

  unfoldable pub run_all : List ScheduledJob → Db → Option Db
  unfolding run_job_or_raise
  run_all [] db = some db
  run_all (j ∷ js) db =
      and_then (run_job_or_raise j (execute (tick.call j)) db) (λ db₁. run_all js db₁)

  abbrev counted : ℕ → Option Db → Option (ℕ × Db)
  counted n none = none
  counted n (some db) = some (n, db)

  -- how many jobs fired, and the rows; nothing where an exception escapes
  unfoldable pub run_due_jobs : Db → Option (ℕ × Db)
  run_due_jobs db =
      let due = select (is_due tick.at) db.jobs in counted (length due) (run_all due db)

  -- what a tick of `scheduler_loop` commits: an exception rolls back every run of the tick
  unfoldable pub tick_jobs : Db → Db
  tick_jobs db = elim (run_due_jobs db) [ none ↦ db | some fired ↦ fired.1 ]

  -- what a transaction leaves
  abbrev pub committed : Db → Option Db → Db
  committed before none = before
  committed before (some after) = after

  pub tick_jobs-committed :
      (db : Db) → tick_jobs db ≡ committed db (run_all (select (is_due tick.at) db.jobs) db)
  unfolding tick_jobs run_due_jobs
  tick_jobs-committed db = ran (run_all (select (is_due tick.at) db.jobs) db)
    where
      ran :
          (o : Option Db)
          → elim (counted (length (select (is_due tick.at) db.jobs)) o) [
            | none ↦ db
            | some fired ↦ fired.1
          ]
            ≡ committed db o
      ran none = refl
      ran (some after) = refl
