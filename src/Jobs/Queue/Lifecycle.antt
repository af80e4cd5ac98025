-- ===== src/Jobs/Queue/Lifecycle.antt =====
-- The states that a job goes through, whatever the events that it processes do.
use revtern.Prelude.{
  ℕ, ◌≤◌, ◌<◌, ◌+◌, String, Bool, true, false, ◌≡◌, refl, Option, none, some, List, [], ◌∷◌, arith,
  if◌then◌else◌, All, str_eq, leb, is_some,
}
use revtern.Prelude.Rows.{All-update_where, All-append}
use revtern.Runtime.{Instant, Runtime}
use revtern.Core.{one_of}
use revtern.Jobs.Tables.{Db, Job, RawEvent}
use revtern.Jobs.Exec.{Result, ok, err, Error, draw_id, ◌>>=◌}
use revtern.Jobs.Keeps.{Keeps, keeps_rules}
use revtern.Jobs.Process.{process_raw_event}
use revtern.Jobs.Invariants.{process_raw_event-Keeps, jobs_frame}
use revtern.Jobs.Queue.{
  claimed, completed, failed, claimable_job, claim_found, claim, settle, error_text, run_claimed,
  process_normalization_job, run_next, process_next_job, next_job, insert_job,
  enqueue_normalization, finish_job,
}

abbrev pub job_states : List String
job_states = "queued" ∷ "running" ∷ "completed" ∷ "failed" ∷ "dead" ∷ []

-- A job is in one of the five states; it is locked exactly while it runs; a failed one has
-- attempts left, and a dead one has none.
pub record IsSound (job : Job) : Type 0 where
  pub known : one_of job.status job_states ≡ true
  pub locked : is_some job.locked_at ≡ str_eq job.status "running"
  pub failed_left : str_eq job.status "failed" ≡ true → job.attempts < job.max_attempts
  pub dead_spent : str_eq job.status "dead" ≡ true → job.max_attempts ≤ job.attempts

claimed-IsSound : (now : Instant) (w : String) (job : Job) → IsSound (claimed now w job)
unfolding claimed
claimed-IsSound now w job = record {
  known = refl;
  locked = refl;
  failed_left = λ h. cc h;
  dead_spent = λ h. cc h;
}

completed-IsSound : (job : Job) → IsSound (completed job)
unfolding completed
completed-IsSound job = record {
  known = refl;
  locked = refl;
  failed_left = λ h. cc h;
  dead_spent = λ h. cc h;
}

ended-IsSound :
    (job : Job) (spent : Bool)
    → leb job.max_attempts job.attempts ≡ spent
    → IsSound (record job { status = if spent then "dead" else "failed"; locked_at = none })
ended-IsSound job true e = record {
  known = refl;
  locked = refl;
  failed_left = λ h. cc h;
  dead_spent = λ _. ground (arith, e);
}
ended-IsSound job false e = record {
  known = refl;
  locked = refl;
  failed_left = λ _. ground (arith, e);
  dead_spent = λ h. cc h;
}

failed-IsSound : (now : Instant) (text : String) (job : Job) → IsSound (failed now text job)
unfolding failed
failed-IsSound now text job =
    let ended = ended-IsSound job (leb job.max_attempts job.attempts) refl in
    record {
      known = ended.known;
      locked = ended.locked;
      failed_left = ended.failed_left;
      dead_spent = ended.dead_spent;
    }

-- The database with such jobs only.
abbrev pub HasSoundJobs : {V : Type 0} → Db V → Type 0
HasSoundJobs db = All IsSound db.jobs

claim_found-HasSoundJobs :
    {V : Type 0} (now : Instant) (id w : String) (db : Db V) (o : Option Job)
    → HasSoundJobs db
    → HasSoundJobs (claim_found now id w db o).1
claim_found-HasSoundJobs now id w db none h = h
claim_found-HasSoundJobs now id w db (some job) h =
    All-update_where IsSound _ (claimed now w) db.jobs h (λ x sound. claimed-IsSound now w x)

claim-Keeps :
    {V : Type 0} (now : Instant) (id w : String) → Keeps {V = V} HasSoundJobs (claim now id w)
unfolding claim
claim-Keeps now id w = record {
  after = λ db h. claim_found-HasSoundJobs now id w db (claimable_job now id db) h;
}

settle-HasSoundJobs :
    {V : Type 0} (now : Instant) (text : Error → String) (id : String) (r : Result (Unit {0}))
    (db : Db V)
    → HasSoundJobs db
    → HasSoundJobs (settle now text id r db).1
unfolding settle finish_job
settle-HasSoundJobs now text id (ok done) db h =
    All-update_where IsSound _ completed db.jobs h (λ x sound. completed-IsSound x)
settle-HasSoundJobs now text id (err e) db h =
    All-update_where IsSound _ (failed now (text e)) db.jobs h
      (λ x sound. failed-IsSound now (text e) x)

module _ (rt : Runtime) (now : Instant) (clock : ℕ → Instant) where
  open rt use {Value}

  run_claimed-Keeps : (id raw : String) → Keeps HasSoundJobs (run_claimed rt now clock id raw)
  unfolding run_claimed
  run_claimed-Keeps id raw = record {
    after = λ db h.
        settle-HasSoundJobs now (error_text rt) id (process_raw_event rt now clock raw db).0
          (process_raw_event rt now clock raw db).1
          ((process_raw_event-Keeps rt (jobs_frame rt (All IsSound)) now clock raw).after db h);
  }

  process_normalization_job-Keeps :
      (id w : String) → Keeps HasSoundJobs (process_normalization_job rt now clock id w)
  unfolding process_normalization_job
  process_normalization_job-Keeps id w =
      search (keeps_rules, claim-Keeps {V = Value}, run_claimed-Keeps) depth 8

  run_next-HasSoundJobs :
      (w : String) (o : Option Job) (db : Db Value)
      → HasSoundJobs db
      → HasSoundJobs (run_next rt now clock w o db).1
  run_next-HasSoundJobs w none db h = h
  run_next-HasSoundJobs w (some job) db h = (process_normalization_job-Keeps job.id w).after db h

  process_next_job-HasSoundJobs :
      (w : String) (db : Db Value)
      → HasSoundJobs db
      → HasSoundJobs (process_next_job rt now clock w db).1
  unfolding process_next_job
  process_next_job-HasSoundJobs w db h = run_next-HasSoundJobs w (next_job now db.jobs) db h

  insert_job-HasSoundJobs :
      (id raw : String) (o : Option (RawEvent Value)) (db : Db Value)
      → HasSoundJobs db
      → HasSoundJobs (insert_job rt id raw now o db)
  insert_job-HasSoundJobs id raw none db h = h
  insert_job-HasSoundJobs id raw (some e) db h =
      All-append IsSound db.jobs _ h
        (record { known = refl; locked = refl; failed_left = λ h. cc h; dead_spent = λ h. cc h })

  enqueue_normalization-HasSoundJobs :
      (raw : String) (db : Db Value)
      → HasSoundJobs db
      → HasSoundJobs (enqueue_normalization rt now raw db).1
  unfolding enqueue_normalization draw_id ◌>>=◌
  enqueue_normalization-HasSoundJobs raw db h =
      insert_job-HasSoundJobs _ raw _ (record db { ids_drawn = db.ids_drawn + 1 }) h

  -- If every job of the table is sound, every job is sound after a call of `process_next_job`,
  -- whatever it returns, and after a call of `enqueue_normalization`.
  pub process_next_job-HasSound :
      (worker_id raw_event_id : String) (db : Db Value)
      → HasSoundJobs db
      → HasSoundJobs (process_next_job rt now clock worker_id db).1
        × HasSoundJobs (enqueue_normalization rt now raw_event_id db).1
  process_next_job-HasSound worker_id raw_event_id db h = (
    process_next_job-HasSoundJobs worker_id db h,
    enqueue_normalization-HasSoundJobs raw_event_id db h,
  )
