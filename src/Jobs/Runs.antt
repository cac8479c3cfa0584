-- ===== src/Jobs/Runs.antt =====
-- What a tick of the scheduler puts on record.
use tetra_host.Prelude.{
  ℕ, String, Bool, true, false, ◌≡◌, ◌≢◌, eqb, refl, ◌+◌, ◌==◌, ◌&&◌, inl, inr, Option, none, some,
  List, [], ◌∷◌, arith, count, select, count-insert, count_cons, Bool-cases, Option-cases,
  if◌then◌else◌, ltb,
}
use mathlib.Core.Path.{subst}
use tetra_host.Models.{Db, ScheduledJob}
use tetra_host.Cron.{cron_matches}
use tetra_host.Jobs.{
  Tick, Answer, responded, failed, crashed, execute, run_job, run_all, tick_jobs, is_due, run_of,
  tick_jobs-committed, committed,
}

-- the runs on record of one job, as one tenant's, with one status
abbrev pub runs_of : String → String → String → Db → ℕ
runs_of job_id tenant_id status db =
    count (λ r. r.job_id == job_id && r.tenant_id == tenant_id && r.status == status) db.runs

abbrev pub status_of : Answer → String
status_of (responded code _) = if ltb code 400 then "ok" else "error"
status_of (failed _ _) = "error"
status_of crashed = ""

abbrev pub escapes : Answer → Bool
escapes crashed = true
escapes (responded _ _) = false
escapes (failed _ _) = false

-- the enabled jobs that the instant matches, with that id and tenant, whose call gives that status
abbrev pub fires : Tick → String → String → String → Db → ℕ
fires tick job_id tenant_id status db =
    count
      (λ j.
        (j.id == job_id && j.tenant_id == tenant_id && status_of (tick.call j) == status)
        && (j.enabled && cron_matches j.cron tick.at))
      db.jobs

-- the enabled jobs that the instant matches, whose call meets an exception other than `HTTPError`
abbrev pub escaping : Tick → Db → ℕ
escaping tick db =
    count (λ j. escapes (tick.call j) && (j.enabled && cron_matches j.cron tick.at)) db.jobs

count-select :
    (p q : ScheduledJob → Bool) (js : List ScheduledJob)
    → count p (select q js) ≡ count (λ j. p j && q j) js
unfolding count select
count-select p q [] = refl
count-select p q (j ∷ js) = ground (arith, count-select p q js)

abbrev Ended : Answer → Option (String × String × ℕ) → Type 0
Ended a none = (escapes a ≡ true)
Ended a (some (s, d, n)) = (escapes a ≡ false) × (status_of a ≡ s)

execute-Ended : (a : Answer) → Ended a (execute a)
unfolding execute
execute-Ended (responded code m) =
    (refl, elim (Bool-cases (ltb code 400)) [ inl e ↦ rw e refl | inr e ↦ rw e refl ])
execute-Ended (failed m k) = (refl, refl)
execute-Ended crashed = refl

module _ (tick : Tick) (job_id tenant_id status : String) where
  abbrev mine : ScheduledJob → Bool
  mine j = j.id == job_id && j.tenant_id == tenant_id && status_of (tick.call j) == status

  -- what the jobs of a list come to
  abbrev Ran : List ScheduledJob → Db → Option Db → Type 0
  Ran js db none = (count (λ j. escapes (tick.call j)) js ≢ 0)
  Ran js db (some after) =
      (count (λ j. escapes (tick.call j)) js ≡ 0)
      × (runs_of job_id tenant_id status after ≡ runs_of job_id tenant_id status db + count mine js)

  Ran-cons :
      (j : ScheduledJob) (js : List ScheduledJob) (s d : String) (n : ℕ) (db : Db) (o : Option Db)
      → escapes (tick.call j) ≡ false
      → status_of (tick.call j) ≡ s
      → Ran js (run_job tick j (s, d, n) db) o
      → Ran (j ∷ js) db o
  unfolding run_job
  Ran-cons j js s d n db none safe ended h =
      rw (count_cons (λ j. escapes (tick.call j)) j js) (λ none_of. h (ground arith))
  Ran-cons j js s d n db (some after) safe ended (all_safe, more) = (
    ground (arith, count_cons (λ j. escapes (tick.call j)) j js),
    ground (
      arith,
      count_cons mine j js,
      more,
      count-insert (λ r. r.job_id == job_id && r.tenant_id == tenant_id && r.status == status)
          (run_of tick j (s, d, n)) db.runs,
    ),
  )

  run_all-Ran : (js : List ScheduledJob) (db : Db) → Ran js db (run_all tick js db)
  unfolding run_all count select
  run_all-Ran [] db = (refl, ground arith)
  run_all-Ran (j ∷ js) db = elim (Option-cases (execute (tick.call j))) [
    | inl escaped ↦
        let raises : escapes (tick.call j) ≡ true =
          subst (Ended (tick.call j)) escaped (execute-Ended (tick.call j)) in
        rw escaped (λ none_of. ground (arith, count_cons (λ j. escapes (tick.call j)) j js))
    | inr ((s, d, n), ended) ↦
        let (safe, same) : Ended (tick.call j) (some (s, d, n)) =
          subst (Ended (tick.call j)) ended (execute-Ended (tick.call j)) in
        rw ended (
          Ran-cons j js s d n db (run_all tick js (run_job tick j (s, d, n) db)) safe same
            (run_all-Ran js (run_job tick j (s, d, n) db)))
  ]

  -- A tick of the scheduler that no exception other than an `HTTPError` meets adds to the runs on
  -- record of a job, as a tenant's and with a status, one for each enabled job with that id and
  -- tenant whose expression matches the instant and whose call gives that status; a tick that such an
  -- exception meets, at any job, adds none.
  pub tick_jobs-runs :
      (db : Db)
      → runs_of job_id tenant_id status (tick_jobs tick db)
        ≡ runs_of job_id tenant_id status db
          + (if eqb (escaping tick db) 0 then fires tick job_id tenant_id status db else 0)
  tick_jobs-runs db =
      let due = select (is_due tick.at) db.jobs in
      rw (tick_jobs-committed tick db) (settled (run_all tick due db) (run_all-Ran due db))
    where
      settled :
          (o : Option Db)
          → Ran (select (is_due tick.at) db.jobs) db o
          → runs_of job_id tenant_id status (committed tick db o)
            ≡ runs_of job_id tenant_id status db
              + (if eqb (escaping tick db) 0 then fires tick job_id tenant_id status db else 0)
      settled none h =
          ground (arith, h, count-select (λ j. escapes (tick.call j)) (is_due tick.at) db.jobs)
      settled (some after) (safe, more) = ground (
        arith,
        safe,
        more,
        count-select (λ j. escapes (tick.call j)) (is_due tick.at) db.jobs,
        count-select mine (is_due tick.at) db.jobs,
      )
