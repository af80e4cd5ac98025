-- ===== src/Jobs/Queue/Retries.antt =====
-- What a failed run leaves of its job: spent, or to be run again; and `retry_job` of
-- crates/api/src/routes.rs, which puts it back.
use revtern.Prelude.{
  ℕ, ◌+◌, ◌≤◌, ◌<◌, String, true, false, none, some, ◌≡◌, refl, ◌∙◌, leb, find, arith,
}
use mathlib.Core.Bool.{and-false}
use revtern.Runtime.{Instant, Runtime}
use revtern.Jobs.Tables.{Db, Job}
use revtern.Jobs.Exec.{ok, err, Error, row_not_found, ◌>>=◌}
use revtern.Jobs.Queue.{
  has_job_id, is_claimable, is_due, claimed, failed, claim, error_text, process_normalization_job,
}
use revtern.Jobs.Queue.Claims.{AtMostOne, only_row}
use revtern.Jobs.Queue.Outcome.{process_normalization_job-ended}

-- The update of `retry_job`: the attempts stay.
unfoldable pub requeued : Instant → Job → Job
requeued now job = record job {
  status = "queued";
  run_after = now;
  locked_at = none;
  locked_by = none;
  last_error = none;
}

module _ (rt : Runtime) where
  open rt use {Value}

  -- No run takes the row, whoever asks and when, in any database that has it as the only one of its
  -- id, nor is it ever selected; put back, it can be claimed at once, and if that run fails too it is
  -- dead again.
  pub record IsDead (job_id : String) (row : Job) : Type 0 where
    pub status : row.status ≡ "dead"
    pub is_left :
        (later : Instant) (clock : ℕ → Instant) (worker_id : String) (since : Db Value)
        → AtMostOne job_id since.jobs
        → find (has_job_id job_id) since.jobs ≡ some row
        → process_normalization_job rt later clock job_id worker_id since
          ≡ (err row_not_found, since)
    pub is_never_due : (later : Instant) → is_due later row ≡ false
    pub is_put_back : (at_time later : Instant) → is_claimable later (requeued at_time row) ≡ true
    pub dies_again :
        (at_time later ends : Instant) (worker_id text : String)
        → (failed ends text (claimed later worker_id (requeued at_time row))).status ≡ "dead"

  -- The row is selected once its time has come, and a run that asks for it is given it.
  pub record IsWaiting (row : Job) : Type 0 where
    pub status : row.status ≡ "failed"
    pub is_open : (later : Instant) → is_claimable later row ≡ true
    pub is_due_later : (later : Instant) → row.run_after ≤ later → is_due later row ≡ true

  spent-leb : (m n : ℕ) → m ≤ n → leb m n ≡ true
  spent-leb m n h = ground arith

  left-leb : (m n : ℕ) → n < m → leb m n ≡ false
  left-leb m n h = ground arith

  not_given :
      (job_id : String) (row : Job)
      → row.status ≡ "dead"
      → (later : Instant) (clock : ℕ → Instant) (worker_id : String) (since : Db Value)
      → AtMostOne job_id since.jobs
      → find (has_job_id job_id) since.jobs ≡ some row
      → process_normalization_job rt later clock job_id worker_id since ≡ (err row_not_found, since)
  unfolding process_normalization_job claim is_claimable ◌>>=◌
  not_given job_id row dead later clock worker_id since one here =
      rw (only_row later job_id since.jobs row one here (rw dead refl))

  IsDead-row :
      (now : Instant) (worker_id text job_id : String) (job : Job)
      → job.max_attempts ≤ job.attempts + 1
      → IsDead job_id (failed now text (claimed now worker_id job))
  unfolding failed claimed is_claimable requeued
  IsDead-row now worker_id text job_id job h =
      let spent = spent-leb job.max_attempts (job.attempts + 1) h in
      let more =
        spent-leb job.max_attempts (job.attempts + 1 + 1)
          (one_more job.max_attempts job.attempts h) in
      rw spent (record {
        status = refl;
        is_left = not_given job_id _ refl;
        is_never_due = λ later. and-false _;
        is_put_back = λ at_time later. refl;
        dies_again = λ at_time later ends worker text. rw more;
      })
    where
      one_more : (m n : ℕ) → m ≤ n + 1 → m ≤ n + 1 + 1
      one_more m n h = omega arith

  IsWaiting-row :
      (now : Instant) (worker_id text : String) (job : Job)
      → job.attempts + 1 < job.max_attempts
      → IsWaiting (failed now text (claimed now worker_id job))
  unfolding failed claimed is_claimable
  IsWaiting-row now worker_id text job h =
      rw (left-leb job.max_attempts (job.attempts + 1) h) (record {
        status = refl;
        is_open = λ later. refl;
        is_due_later = λ later due. rw (spent-leb _ later due);
      })

  -- A run of `process_normalization_job` that claims the only row of a job with a raw event and then
  -- fails leaves the row dead if this was its last attempt, and waiting to be run again if it was
  -- not. A row that is dead is run by no one until `retry_job` puts it back, which does not give it
  -- new attempts: it is dead again as soon as that run fails.
  pub process_normalization_job-IsRetried :
      (now : Instant) (clock : ℕ → Instant) (db : Db Value) (job_id worker_id raw_event_id : String)
      (job : Job) (e : Error)
      → AtMostOne job_id db.jobs
      → (claim now job_id worker_id db).0 ≡ ok job
      → job.raw_event_id ≡ some raw_event_id
      → (process_normalization_job rt now clock job_id worker_id db).0 ≡ err e
      → (row : Job) × (find
            (has_job_id job_id)
            (process_normalization_job rt now clock job_id worker_id db).1.jobs
          ≡ some row)
        × (job.max_attempts ≤ job.attempts + 1 → IsDead job_id row)
        × (job.attempts + 1 < job.max_attempts → IsWaiting row)
  process_normalization_job-IsRetried now clock db job_id worker_id raw_event_id job e one given
        payload error =
      (
        failed now (error_text rt e) (claimed now worker_id job),
        process_normalization_job-ended rt now clock db job_id worker_id raw_event_id job one given
              payload
            ∙ rw error,
        IsDead-row now worker_id (error_text rt e) job_id job,
        IsWaiting-row now worker_id (error_text rt e) job,
      )
