-- ===== src/Jobs/Queue.antt =====
-- The job queue: `enqueue_normalization`, `process_normalization_job` and `process_next_job`.
pub mod Claims
pub mod Order
pub mod Outcome
pub mod Lifecycle
pub mod Runs
pub mod Retries
use mathlib.Core.Option
use revtern.Prelude.{
  ℕ, ◌+◌, ◌*◌, String, Bool, true, false, ◌&&◌, ◌||◌, Option, none, some, List, [], ◌∷◌, ◌++◌,
  if◌then◌else◌, str_eq, ltb, leb, nat_eq, min, find, update_where,
}
use revtern.Runtime.{Instant, Runtime}
use revtern.Core.{one_of}
use revtern.Jobs.Tables.{Db, Job, RawEvent}
use revtern.Jobs.Exec.{
  Exec, Error, Result, ok, err, row_not_found, out_of_range, missing_raw_event_id, app_not_assigned,
  some_or, continue, ◌>>=◌, ◌>>◌, pure, lift, gets, modify, draw_id,
}
use revtern.Jobs.Process.{has_raw_id, process_raw_event}

-- Times are in microseconds, as the database stores them.
abbrev pub lock_timeout : ℕ
lock_timeout = 300_000_000

abbrev pub retry_unit : ℕ
retry_unit = 30_000_000

-- `locked_at < now() - interval '5 minutes'`; `null` is not less than anything.
abbrev pub is_stale : Instant → Option Instant → Bool
is_stale now none = false
is_stale now (some locked_at) = ltb (locked_at + lock_timeout) now

-- `status in ('queued', 'failed') or (status = 'running' and …)`.
unfoldable pub is_claimable : Instant → Job → Bool
is_claimable now job =
    one_of job.status ("queued" ∷ "failed" ∷ [])
    || str_eq job.status "running" && is_stale now job.locked_at

abbrev pub has_job_id : String → Job → Bool
has_job_id id job = str_eq job.id id

-- `set status = 'running', …`.
unfoldable pub claimed : Instant → String → Job → Job
claimed now worker_id job = record job {
  status = "running";
  locked_at = some now;
  locked_by = some worker_id;
  attempts = job.attempts + 1;
}

unfoldable pub completed : Job → Job
completed job = record job {
  status = "completed";
  locked_at = none;
  locked_by = none;
  last_error = none;
}

-- `dead` once the attempts are used up, and otherwise `failed`, to be run again later.
unfoldable pub failed : Instant → String → Job → Job
failed now error_text job = record job {
  status = if leb job.max_attempts job.attempts then "dead" else "failed";
  locked_at = none;
  locked_by = none;
  last_error = some error_text;
  run_after = now + min job.attempts 6 * retry_unit;
}

-- `order by run_after asc, created_at asc`.
abbrev pub runs_before : Job → Job → Bool
runs_before a b =
    ltb a.run_after b.run_after || nat_eq a.run_after b.run_after && leb a.created_at b.created_at

abbrev pub is_due : Instant → Job → Bool
is_due now job = leb job.run_after now && is_claimable now job

abbrev pub earlier : Job → Option Job → Job
earlier job none = job
earlier job (some best) = if runs_before job best then job else best

-- The select of `process_next_job`, over the rows of the table.
unfoldable pub next_job : Instant → List Job → Option Job
next_job now [] = none
next_job now (job ∷ jobs) =
    let best = next_job now jobs in if is_due now job then some (earlier job best) else best

module _ {V : Type 0} where
  abbrev pub set_jobs : List Job → Db V → Db V
  set_jobs jobs db = record db { jobs = jobs }

  -- The `update … returning payload` with `fetch_one`: the row as it was, to be claimed.
  abbrev pub claimable_job : Instant → String → Db V → Option Job
  claimable_job now job_id db = find (λ job. has_job_id job_id job && is_claimable now job) db.jobs

  abbrev claim_found : Instant → String → String → Db V → Option Job → Result Job × Db V
  claim_found now job_id worker_id db none = (err row_not_found, db)
  claim_found now job_id worker_id db (some job) = (
    ok job,
    set_jobs
        (update_where (λ job. has_job_id job_id job && is_claimable now job) (claimed now worker_id)
          db.jobs)
        db,
  )

  unfoldable pub claim : Instant → String → String → Exec V Job
  unfolding is_claimable claimed
  claim now job_id worker_id db = claim_found now job_id worker_id db (claimable_job now job_id db)

  unfoldable pub finish_job : (Job → Job) → String → Exec V (Unit {0})
  finish_job change job_id =
      modify λ db. set_jobs (update_where (has_job_id job_id) change db.jobs) db

  -- The two arms of `match process_raw_event(…)`.
  unfoldable pub settle :
      Instant → (Error → String) → String → Result (Unit {0}) → Exec V (Unit {0})
  unfolding finish_job completed failed
  settle now text job_id (ok done) db = finish_job completed job_id db
  settle now text job_id (err e) db = (err e, (finish_job (failed now (text e)) job_id db).1)

module _ (rt : Runtime) where
  open rt use {Value, row_not_found_text, out_of_range_text}

  -- `error.to_string()`; the driver words its own errors.
  abbrev pub error_text : Error → String
  error_text row_not_found = row_not_found_text
  error_text out_of_range = out_of_range_text
  error_text missing_raw_event_id = "job payload missing raw_event_id"
  error_text app_not_assigned = "data source is not assigned to an app"

  abbrev job_for : String → String → Instant → RawEvent Value → Job
  job_for id raw_event_id now raw = record {
    id = id;
    workspace_id = raw.workspace_id;
    app_id = raw.app_id;
    queue = "default";
    job_type = "normalize_raw_event";
    raw_event_id = some raw_event_id;
    status = "queued";
    run_after = now;
    attempts = 0;
    max_attempts = 5;
    locked_at = none;
    locked_by = none;
    last_error = none;
    created_at = now;
  }

  -- `insert … select … from raw_events re where re.id = …`: no row if there is no such event.
  abbrev pub insert_job : String → String → Instant → Option (RawEvent Value) → Db Value → Db Value
  insert_job id raw_event_id now none db = db
  insert_job id raw_event_id now (some raw) db =
      set_jobs (db.jobs ++ job_for id raw_event_id now raw ∷ []) db

  unfoldable pub enqueue_normalization : Instant → String → Exec Value String
  enqueue_normalization now raw_event_id = do
    id ← draw_id rt "job"
    modify (λ db. insert_job id raw_event_id now (find (has_raw_id raw_event_id) db.raw_events) db)
    pure id

  module _ (now : Instant) (clock : ℕ → Instant) where
    -- `process_raw_event`, and then the arm that its result selects.
    unfoldable pub run_claimed : String → String → Exec Value (Unit {0})
    run_claimed job_id raw_event_id db =
        let (result, db') = process_raw_event rt now clock raw_event_id db in
        settle now error_text job_id result db'

    unfoldable pub process_normalization_job : String → String → Exec Value (Unit {0})
    process_normalization_job job_id worker_id = do
      job ← claim now job_id worker_id
      raw_event_id ← lift (some_or missing_raw_event_id job.raw_event_id)
      run_claimed job_id raw_event_id

    -- A missing row counts as nothing to do.
    abbrev answer : Result (Unit {0}) → Result Bool
    answer (ok done) = ok true
    answer (err row_not_found) = ok false
    answer (err out_of_range) = err out_of_range
    answer (err missing_raw_event_id) = err missing_raw_event_id
    answer (err app_not_assigned) = err app_not_assigned

    abbrev run_next : String → Option Job → Exec Value Bool
    run_next worker_id none db = (ok false, db)
    run_next worker_id (some job) db =
        let (result, db') = process_normalization_job job.id worker_id db in (answer result, db')

    unfoldable pub process_next_job : String → Exec Value Bool
    process_next_job worker_id db = run_next worker_id (next_job now db.jobs) db
