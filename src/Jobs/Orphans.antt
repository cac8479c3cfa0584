-- ===== src/Jobs/Orphans.antt =====
-- The runs on record, against the jobs that they are of.
use tetra_host.Prelude.{
  String, ◌≡◌, ◌≤◌, refl, sym, Bool, false, ◌==◌, Option, List, [], ◌∷◌, ◌++◌, Result, ok, err, inl,
  inr, arith, All, All-weaken, All-append, All-select, All-delete, Bool-cases, eq_iff, eq_refl,
  count, count_cons, count-insert, count-update_same, select-delete_other, delete, Ensures,
  Ensures->>, Ensures->>=, update, insert, ℕ, none, some, select, Option-cases,
}
use mathlib.Core.Path.{subst}
use tetra_host.Models.{Db, ScheduledJob, JobRun}
use tetra_host.Jobs.{
  JobError, Tick, create, update_job, delete_job, run_job, run_all, tick_jobs, tick_jobs-committed,
  committed, execute, is_due,
}

-- some job has the id
abbrev pub Known : String → List ScheduledJob → Type 0
Known id jobs = 1 ≤ count (λ j. j.id == id) jobs

-- every run on record is of a job that exists
abbrev pub NoOrphans : Db → Type 0
NoOrphans db = All (λ r. Known r.job_id db.jobs) db.runs

Known-each : (jobs : List ScheduledJob) → All (λ j. Known j.id jobs) jobs
Known-each [] = tt
Known-each (j ∷ jobs) =
    let mine = count_cons (λ x. x.id == j.id) j jobs in
    let same = eq_refl j.id in
    (
      rw (mine, same) (ground arith),
      All-weaken (λ k. Known k.id jobs) (λ k. Known k.id (j ∷ jobs)) jobs
          (λ k known. let c = count_cons (λ x. x.id == k.id) j jobs in rw c (ground arith))
          (Known-each jobs),
    )

Known-insert :
    (id : String) (job : ScheduledJob) (jobs : List ScheduledJob)
    → Known id jobs
    → Known id (jobs ++ (job ∷ []))
Known-insert id job jobs known = rw (count-insert (λ j. j.id == id) job jobs) (ground arith)

Known-update :
    (id : String) (p : ScheduledJob → Bool) (f : ScheduledJob → ScheduledJob)
    (jobs : List ScheduledJob)
    → ((j : ScheduledJob) → (f j).id ≡ j.id)
    → Known id jobs
    → Known id (update p f jobs)
Known-update id p f jobs same known =
    rw (count-update_same (λ j. j.id == id) p f jobs (λ j. rw (same j) refl)) known

Known-delete :
    (id gone : String) (jobs : List ScheduledJob)
    → (id == gone) ≡ false
    → Known id jobs
    → Known id (delete (λ x. x.id == gone) jobs)
unfolding count
Known-delete id gone jobs other known =
    rw
      (select-delete_other (λ x. x.id == gone) (λ j. j.id == id) jobs
        (λ x hit. ground (arith, eq_iff x.id gone, eq_iff x.id id, eq_iff id gone)))
      known

delete_left : (p : JobRun → Bool) (runs : List JobRun) → All (λ r. p r ≡ false) (delete p runs)
unfolding delete
delete_left p [] = tt
delete_left p (r ∷ runs) = elim (Bool-cases (p r)) [
  | inl e ↦ rw e (delete_left p runs)
  | inr e ↦ rw e (e, delete_left p runs)
]

All-both {κ ι} :
    (P : JobRun → Type κ) (Q : JobRun → Type ι) (runs : List JobRun)
    → All P runs
    → All Q runs
    → All (λ r. P r × Q r) runs
All-both P Q [] h k = tt
All-both P Q (r ∷ runs) (p, h) (q, k) = ((p, q), All-both P Q runs h k)

delete-NoOrphans :
    (id : String) (db : Db)
    → NoOrphans db
    → All
        (λ r. Known r.job_id (delete (λ x. x.id == id) db.jobs))
        (delete (λ r. r.job_id == id) db.runs)
delete-NoOrphans id db h =
    let gone : JobRun → Bool = λ r. r.job_id == id in
    All-weaken _ _ (delete gone db.runs)
      (λ r both. let (known, other) = both in Known-delete r.job_id id db.jobs other known)
      (All-both _ _ (delete gone db.runs) (All-delete (λ r. Known r.job_id db.jobs) gone db.runs h)
        (delete_left gone db.runs))

module _ (tick : Tick) where
  run_job-keeps :
      (id : String) (j : ScheduledJob) (answer : String × String × ℕ) (db : Db)
      → Known id db.jobs
      → Known id (run_job tick j answer db).jobs
  unfolding run_job
  run_job-keeps id j (status, detail, duration) db known =
      Known-update id (λ x. x.id == j.id) _ db.jobs (λ x. refl) known

  run_job-NoOrphans :
      (j : ScheduledJob) (answer : String × String × ℕ) (db : Db)
      → Known j.id db.jobs
      → NoOrphans db
      → NoOrphans (run_job tick j answer db)
  unfolding run_job
  run_job-NoOrphans j (status, detail, duration) db known h =
      All-append _ db.runs _
        (All-weaken _ _ db.runs (λ r k. run_job-keeps r.job_id j (status, detail, duration) db k) h)
        (run_job-keeps j.id j (status, detail, duration) db known, tt)

  -- what a tick that returns leaves
  abbrev Kept : Option Db → Type 0
  Kept none = Unit
  Kept (some after) = NoOrphans after

  run_all-NoOrphans :
      (js : List ScheduledJob) (db : Db)
      → All (λ j. Known j.id db.jobs) js
      → NoOrphans db
      → Kept (run_all tick js db)
  unfolding run_all
  run_all-NoOrphans [] db known h = h
  run_all-NoOrphans (j ∷ js) db (k, known) h = elim (Option-cases (execute (tick.call j))) [
    | inl escaped ↦ rw escaped tt
    | inr (answer, ended) ↦ rw ended (
        run_all-NoOrphans js (run_job tick j answer db)
          (All-weaken _ _ js (λ x kx. run_job-keeps x.id j answer db kx) known)
          (run_job-NoOrphans j answer db k h))
  ]

  tick_jobs-NoOrphans : (db : Db) → NoOrphans db → NoOrphans (tick_jobs tick db)
  tick_jobs-NoOrphans db h =
      let due = select (is_due tick.at) db.jobs in
      subst NoOrphans (sym (tick_jobs-committed tick db)) (
        committed_lem (run_all tick due db)
          (run_all-NoOrphans due db (All-select _ (is_due tick.at) db.jobs (Known-each db.jobs)) h))
    where
      committed_lem : (o : Option Db) → Kept o → NoOrphans (committed tick db o)
      committed_lem none _ = h
      committed_lem (some after) k = k

-- a call of the service, or a tick of the scheduler
pub data JobCall : Type 0 where
  create_call : (id : String) (tenant_id : Option String) (name cron url method : String) → JobCall
  update_call :
      (tenant_id : Option String) (job_id : String) (cron url method : Option String)
      (enabled : Option Bool)
      → JobCall
  delete_call : (tenant_id : Option String) (job_id : String) → JobCall
  tick_call : Tick → JobCall

-- what a call commits
settled {ℓ} : {A : Type ℓ} → Db → (A → Db) → Result {0, ℓ} JobError A → Db
settled before rows (ok a) = rows a
settled before rows (err e) = before

unfoldable pub step : JobCall → Db → Db
unfolding settled
step (create_call id tenant_id name cron url method) db =
    settled db (λ r. r.1) (create id tenant_id name cron url method db)
step (update_call tenant_id job_id cron url method enabled) db =
    settled db (λ r. r.1) (update_job tenant_id job_id cron url method enabled db)
step (delete_call tenant_id job_id) db = settled db (λ r. r) (delete_job tenant_id job_id db)
step (tick_call tick) db = tick_jobs tick db

unfoldable pub run : List JobCall → Db → Db
run [] db = db
run (c ∷ cs) db = run cs (step c db)

-- what a chain of calls commits is what a property of its result says
settled_lem {ℓ κ} :
    {A : Type ℓ} (P : Db → Type κ) (before : Db) (rows : A → Db) (r : Result {0, ℓ} JobError A)
    → P before
    → Ensures (λ a. P (rows a)) r
    → P (settled before rows r)
unfolding settled
settled_lem P before rows (ok a) h k = k
settled_lem P before rows (err e) h k = h

abbrev Left : ScheduledJob × Db → Type 0
Left out = NoOrphans out.1

insert-NoOrphans :
    (job : ScheduledJob) (db : Db)
    → NoOrphans db
    → Left (job, record db { jobs = insert job db.jobs })
insert-NoOrphans job db h = All-weaken _ _ db.runs (λ r k. Known-insert r.job_id job db.jobs k) h

write-NoOrphans :
    (id : String) (out j : ScheduledJob) (db : Db)
    → NoOrphans db
    → Left (
      out,
      record db {
        jobs =
            update
              (λ x. x.id == id)
              (λ x. record x { cron = j.cron; url = j.url; method = j.method; enabled = j.enabled })
              db.jobs;
      },
    )
write-NoOrphans id out j db h =
    All-weaken _ _ db.runs (λ r k. Known-update r.job_id (λ x. x.id == id) _ db.jobs (λ x. refl) k)
      h

create-NoOrphans :
    (id : String) (tenant_id : Option String) (name cron url method : String) (db : Db)
    → NoOrphans db
    → Ensures Left (create id tenant_id name cron url method db)
unfolding create
create-NoOrphans id tenant_id name cron url method db h =
    search (Ensures->>, insert-NoOrphans) depth 8

update_job-NoOrphans :
    (tenant_id : Option String) (job_id : String) (cron url method : Option String)
    (enabled : Option Bool) (db : Db)
    → NoOrphans db
    → Ensures Left (update_job tenant_id job_id cron url method enabled db)
unfolding update_job
update_job-NoOrphans tenant_id job_id cron url method enabled db h =
    search (Ensures->>=, write-NoOrphans)

delete_job-NoOrphans :
    (tenant_id : Option String) (job_id : String) (db : Db)
    → NoOrphans db
    → Ensures NoOrphans (delete_job tenant_id job_id db)
unfolding delete_job
delete_job-NoOrphans tenant_id job_id db h = search (Ensures->>=, delete-NoOrphans)

step-NoOrphans : (call : JobCall) (db : Db) → NoOrphans db → NoOrphans (step call db)
unfolding step
step-NoOrphans (tick_call tick) db h = tick_jobs-NoOrphans tick db h
step-NoOrphans (create_call id tenant_id name cron url method) db h =
    settled_lem NoOrphans db (λ r. r.1) (create id tenant_id name cron url method db) h
      (create-NoOrphans id tenant_id name cron url method db h)
step-NoOrphans (update_call tenant_id job_id cron url method enabled) db h =
    settled_lem NoOrphans db (λ r. r.1) (update_job tenant_id job_id cron url method enabled db) h
      (update_job-NoOrphans tenant_id job_id cron url method enabled db h)
step-NoOrphans (delete_call tenant_id job_id) db h =
    settled_lem NoOrphans db (λ r. r) (delete_job tenant_id job_id db) h
      (delete_job-NoOrphans tenant_id job_id db h)

-- Where every run on record is of a job that exists, the same holds after any calls of the service
-- and ticks of the scheduler, in any order.
pub run-NoOrphans : (calls : List JobCall) (db : Db) → NoOrphans db → NoOrphans (run calls db)
unfolding run
run-NoOrphans [] db h = h
run-NoOrphans (c ∷ cs) db h = run-NoOrphans cs (step c db) (step-NoOrphans c db h)
