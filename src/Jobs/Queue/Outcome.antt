-- ===== src/Jobs/Queue/Outcome.antt =====
-- What `process_normalization_job` leaves in the row of the job that it ran.
use mathlib.Core.Option
use revtern.Prelude.{
  ℕ, String, true, ◌≡◌, refl, ap, ◌∙◌, some, find, update_where, Option-cases, inl, inr,
}
use revtern.Prelude.Rows.{find-update_where}
use revtern.Runtime.{Instant, Runtime}
use revtern.Jobs.Tables.{Db, Job}
use revtern.Jobs.Exec.{Result, ok, err, Error, ◌>>=◌}
use revtern.Jobs.Process.{process_raw_event}
use revtern.Jobs.Invariants.{process_raw_event-Keeps, jobs_frame}
use revtern.Jobs.Queue.{
  has_job_id, claimed, completed, failed, claim, settle, error_text, set_jobs, run_claimed,
  process_normalization_job, finish_job,
}
use revtern.Jobs.Queue.Claims.{AtMostOne, claims, claimed_row}

-- `completed` after a success, `failed` or `dead` with the text of the error after a failure.
abbrev pub ended : Instant → (Error → String) → Result (Unit {0}) → Job → Job
ended now text (ok done) job = completed job
ended now text (err e) job = failed now (text e) job

has_job_id-ended :
    (now : Instant) (text : Error → String) (r : Result (Unit {0})) (id : String) (job : Job)
    → has_job_id id job ≡ true
    → has_job_id id (ended now text r job) ≡ true
unfolding completed failed
has_job_id-ended now text (ok done) id job h = h
has_job_id-ended now text (err e) id job h = h

settle-jobs :
    {V : Type 0} (now : Instant) (text : Error → String) (id : String) (r : Result (Unit {0}))
    (db : Db V)
    → ((settle now text id r db).0 ≡ r)
      × ((settle now text id r db).1.jobs ≡ update_where (has_job_id id) (ended now text r) db.jobs)
unfolding settle finish_job
settle-jobs now text id (ok done) db = (refl, refl)
settle-jobs now text id (err e) db = (refl, refl)

module _ (rt : Runtime) (now : Instant) (clock : ℕ → Instant) where
  open rt use {Value}

  run_claimed-row :
      (id raw : String) (db : Db Value) (row : Job)
      → find (has_job_id id) db.jobs ≡ some row
      → find (has_job_id id) (run_claimed rt now clock id raw db).1.jobs
        ≡ some (ended now (error_text rt) (run_claimed rt now clock id raw db).0 row)
  unfolding run_claimed
  run_claimed-row id raw db row here =
      let run = process_raw_event rt now clock raw db in
      let same : run.1.jobs ≡ db.jobs =
        (process_raw_event-Keeps rt (jobs_frame rt (λ jobs. jobs ≡ db.jobs)) now clock raw).after db
          refl in
      let (result, jobs) = settle-jobs now (error_text rt) id run.0 run.1 in
      rw result (
        rw jobs (
          rw same (
            find-update_where (has_job_id id) (ended now (error_text rt) run.0) db.jobs
              (λ x h. has_job_id-ended now (error_text rt) run.0 id x h)
            ∙ ap (Option.map (ended now (error_text rt) run.0)) here)))

  -- If `process_normalization_job` claims a job whose payload names a raw event, and only one row
  -- has the job's id, then whatever the run does to the other tables, the row ends as the claimed
  -- job marked `completed` if the call returns, and as the claimed job marked `failed` or `dead`,
  -- with the text of the error, if the call fails.
  pub process_normalization_job-ended :
      (db : Db Value) (job_id worker_id raw_event_id : String) (job : Job)
      → AtMostOne job_id db.jobs
      → (claim now job_id worker_id db).0 ≡ ok job
      → job.raw_event_id ≡ some raw_event_id
      → find (has_job_id job_id) (process_normalization_job rt now clock job_id worker_id db).1.jobs
        ≡ some (
            ended now
              (error_text rt)
              (process_normalization_job rt now clock job_id worker_id db).0
              (claimed now worker_id job))
  unfolding process_normalization_job claim claimed ◌>>=◌
  process_normalization_job-ended db job_id worker_id raw_event_id job one given payload =
      elim (Option-cases (find (claims now job_id) db.jobs)) [
        | inl none_found ↦ cc (rw none_found at given)
        | inr found ↦
            let own : found.0 ≡ job = cc (rw (found.1) at given) in
            let here : find (claims now job_id) db.jobs ≡ some job = found.1 ∙ ap some own in
            let row =
              run_claimed-row job_id raw_event_id
                (set_jobs (update_where (claims now job_id) (claimed now worker_id) db.jobs) db)
                (claimed now worker_id job)
                (claimed_row now now job_id worker_id db.jobs job one here) in
            rw here (rw payload (rw payload at row))
      ]
