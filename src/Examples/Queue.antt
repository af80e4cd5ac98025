-- ===== src/Examples/Queue.antt =====
-- The theorems on the job queue, at a failed job that waits to be run again.
use revtern.Prelude.{◌≤◌, ◌<◌, true, ◌≡◌, refl, some, [], ◌∷◌, arith, find}
use revtern.Jobs.Exec
use revtern.Jobs.Tables.{Db, Job}
use revtern.Examples.Platform.{Json}
use revtern.Jobs.Exec.{err, row_not_found}
use revtern.Jobs.Queue.{
  is_claimable, next_job, claimed, claim, has_job_id, error_text, process_normalization_job,
  run_claimed, settle, process_next_job, enqueue_normalization,
}
use revtern.Jobs.Queue.Claims.{AtMostOne, claim-claim}
use revtern.Jobs.Queue.Order.{Answers, next_job-Answers}
use revtern.Jobs.Queue.Outcome.{ended, process_normalization_job-ended}
use revtern.Jobs.Process.{process_raw_event, fetch_raw_event}
use revtern.Jobs.Queue.Retries.{IsDead, IsWaiting, process_normalization_job-IsRetried}
use revtern.Jobs.Queue.Lifecycle.{HasSoundJobs, process_next_job-HasSound}
use revtern.Examples.Platform.{small_platform}
use revtern.Examples.Rows.{today, still, waiting_job, other_job, after_renewal}

jobs_apart : AtMostOne "job" after_renewal.jobs
jobs_apart = (λ h. (refl, tt), (λ h. tt, tt))

next_job-Answers_example :
    Answers 450 (waiting_job ∷ other_job ∷ []) (next_job 450 (waiting_job ∷ other_job ∷ []))
next_job-Answers_example = next_job-Answers 450 (waiting_job ∷ other_job ∷ [])

claim-claim_example :
    let after = (claim 600 "job" "worker" after_renewal).1 in
    (is_claimable 600 waiting_job ≡ true)
    × (find (has_job_id "job") after.jobs ≡ some (claimed 600 "worker" waiting_job))
    × (claim 700 "job" "other" after ≡ (err row_not_found, after))
    × ((since : Db Json)
        → AtMostOne "job" since.jobs
        → find (has_job_id "job") since.jobs ≡ some (claimed 600 "worker" waiting_job)
        → claim 700 "job" "other" since ≡ (err row_not_found, since))
unfolding claim find is_claimable
claim-claim_example =
    claim-claim 600 700 "job" "worker" "other" after_renewal waiting_job (omega arith) jobs_apart
      refl

process_normalization_job-ended_example :
    find
      (has_job_id "job")
      (process_normalization_job small_platform today still "job" "worker" after_renewal).1.jobs
    ≡ some (
        ended today
          (error_text small_platform)
          (process_normalization_job small_platform today still "job" "worker" after_renewal).0
          (claimed today "worker" waiting_job))
unfolding claim find is_claimable
process_normalization_job-ended_example =
    process_normalization_job-ended small_platform today still after_renewal "job" "worker" "raw"
      waiting_job jobs_apart refl refl

sound_jobs : HasSoundJobs after_renewal
sound_jobs = (
  record { known = refl; locked = refl; failed_left = λ h. omega arith; dead_spent = λ h. cc h },
  (record { known = refl; locked = refl; failed_left = λ h. cc h; dead_spent = λ h. cc h }, tt),
)

process_next_job-HasSound_example :
    HasSoundJobs (process_next_job small_platform today still "worker" after_renewal).1
    × HasSoundJobs (enqueue_normalization small_platform today "raw" after_renewal).1
process_next_job-HasSound_example =
    process_next_job-HasSound small_platform today still "worker" "raw" after_renewal sound_jobs

-- The raw event is gone, so the last attempt fails.
abbrev last_attempt : Job
last_attempt = record waiting_job { attempts = 4 }

abbrev without_event : Db Json
without_event = record after_renewal { raw_events = []; jobs = last_attempt ∷ other_job ∷ [] }

process_normalization_job-IsRetried_example :
    (row : Job) × (find
        (has_job_id "job")
        (process_normalization_job small_platform today still "job" "worker" without_event).1.jobs
      ≡ some row)
    × (5 ≤ 5 → IsDead small_platform "job" row)
    × (5 < 5 → IsWaiting small_platform row)
unfolding claim find is_claimable process_normalization_job Exec.◌>>=◌ run_claimed process_raw_event
    settle fetch_raw_event
process_normalization_job-IsRetried_example =
    process_normalization_job-IsRetried small_platform today still without_event "job" "worker"
      "raw" last_attempt row_not_found jobs_apart refl refl refl
