-- ===== src/Jobs/Queue/Runs.antt =====
-- What a run of the queue keeps of the tables other than the jobs.
use revtern.Prelude.{ℕ, String, Option, none, some, List, find}
use revtern.Runtime.{Instant, Runtime}
use revtern.Jobs.Tables.{Db, Job, RawEvent}
use revtern.Jobs.Exec.{Result, ok, err, Error}
use revtern.Jobs.Keeps.{Keeps, keeps_rules, Keeps-bind, Keeps-pure}
use revtern.Jobs.Process.{has_raw_id, process_raw_event}
use revtern.Jobs.Invariants.{KeepsWrites, process_raw_event-Keeps}
use revtern.Jobs.Queue.{
  claimable_job, claim_found, claim, settle, error_text, run_claimed, process_normalization_job,
  insert_job, enqueue_normalization, finish_job,
}

-- `P` does not depend on the jobs.
abbrev pub IgnoresJobs : {V : Type 0} → (Db V → Type 0) → Type 0
IgnoresJobs {V} P = (db : Db V) (rows : List Job) → P db → P (record db { jobs = rows })

module _ {V : Type 0} (P : Db V → Type 0) (ig : IgnoresJobs P) where
  claim_found-kept :
      (now : Instant) (id w : String) (db : Db V) (found : Option Job)
      → P db
      → P (claim_found now id w db found).1
  claim_found-kept now id w db none h = h
  claim_found-kept now id w db (some job) h = ig db _ h

  claim-Keeps : (now : Instant) (id w : String) → Keeps P (claim now id w)
  unfolding claim
  claim-Keeps now id w = record {
    after = λ db h. claim_found-kept now id w db (claimable_job now id db) h;
  }

  settle-kept :
      (now : Instant) (text : Error → String) (id : String) (r : Result (Unit {0})) (db : Db V)
      → P db
      → P (settle now text id r db).1
  unfolding settle finish_job
  settle-kept now text id (ok done) db h = ig db _ h
  settle-kept now text id (err e) db h = ig db _ h

module _ (rt : Runtime) {P : Db rt.Value → Type 0} (kw : KeepsWrites rt P) (ig : IgnoresJobs P)
    (now : Instant) where
  open rt use {Value}

  insert_job-kept :
      (id raw_event_id : String) (raw : Option (RawEvent Value)) (db : Db Value)
      → P db
      → P (insert_job rt id raw_event_id now raw db)
  insert_job-kept id raw_event_id none db h = h
  insert_job-kept id raw_event_id (some raw) db h = ig db _ h

  pub enqueue_normalization-Keeps :
      (raw_event_id : String) → Keeps P (enqueue_normalization rt now raw_event_id)
  unfolding enqueue_normalization
  enqueue_normalization-Keeps raw_event_id = Keeps-bind _ _ (kw.projections.draws "job") λ id.
      Keeps-bind _ _
        (record {
          after = λ db h.
              insert_job-kept id raw_event_id (find (has_raw_id raw_event_id) db.raw_events) db h;
        })
        λ u. Keeps-pure id

  module _ (clock : ℕ → Instant) where
    run_claimed-Keeps : (id raw : String) → Keeps P (run_claimed rt now clock id raw)
    unfolding run_claimed
    run_claimed-Keeps id raw = record {
      after = λ db h.
          settle-kept P ig now (error_text rt) id (process_raw_event rt now clock raw db).0
            (process_raw_event rt now clock raw db).1
            ((process_raw_event-Keeps rt kw now clock raw).after db h);
    }

    pub process_normalization_job-Keeps :
        (id w : String) → Keeps P (process_normalization_job rt now clock id w)
    unfolding process_normalization_job
    process_normalization_job-Keeps id w =
        search (keeps_rules, claim-Keeps P ig now, run_claimed-Keeps) depth 8
