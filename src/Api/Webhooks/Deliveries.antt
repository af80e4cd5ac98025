-- ===== src/Api/Webhooks/Deliveries.antt =====
-- What a delivery leaves of the raw events: one row for each delivery, however often it comes.
use mathlib.Core.List
use revtern.Prelude.{
  String, Bool, false, ◌&&◌, Option, none, some, List, [], ◌∷◌, ◌≡◌, refl, ◌∙◌, All, str_eq,
}
use revtern.Prelude.Rows.{map-update_where}
use revtern.Runtime.{Runtime}
use revtern.Jobs.Tables.{Db, DataSource, RawEvent}
use revtern.Jobs.Exec.{Exec, Result, ok, err}
use revtern.Jobs.Keeps.{Keeps}
use revtern.Jobs.Frame.{ignores_projections}
use revtern.Jobs.Process.{has_raw_id, finished_raw, finish_raw_event}
use revtern.Jobs.Invariants.{KeepsWrites, event_writes}
use revtern.Jobs.Queue.{error_text}
use revtern.Jobs.Queue.Runs.{
  IgnoresJobs, enqueue_normalization-Keeps, process_normalization_job-Keeps,
}
use revtern.Api.Http.{Outside}
use revtern.Api.Handler.{Handler}
use revtern.Api.Preserves.{
  Preserves, preserves_rules, Preserves-lift, Preserves-pure, Preserves-bind,
}
use revtern.Api.Webhooks.{
  Course, or_fail, attempt, update_source, failed_raw, fail_raw, record_outcome, normalize_stored,
  finish_delivery, Statement, enqueue_job, unless_refused, after_insert,
}

-- What identifies a raw event: its id, its source and the id of the event there.
abbrev pub Delivery : Type 0
Delivery = String × String × String

abbrev pub delivery_of : {V : Type 0} → RawEvent V → Delivery
delivery_of raw = (raw.id, raw.data_source_id, raw.source_event_id)

abbrev pub same_delivery : String → String → Delivery → Bool
same_delivery source_id source_event_id (id, other_source, other_event) =
    str_eq other_source source_id && str_eq other_event source_event_id

abbrev pub deliveries : {V : Type 0} → Db V → List Delivery
deliveries db = List.map delivery_of db.raw_events

-- No two rows are of one source and one event there.
abbrev pub AllDiffer : List Delivery → Type 0
AllDiffer [] = Unit
AllDiffer ((id, source_id, event_id) ∷ rest) =
    All (λ other. same_delivery source_id event_id other ≡ false) rest × AllDiffer rest

abbrev pub HasUniqueDeliveries : {V : Type 0} → Db V → Type 0
HasUniqueDeliveries db = AllDiffer (deliveries db)

-- The deliveries are the given ones.
abbrev pub Delivered : {V : Type 0} → List Delivery → Db V → Type 0
Delivered entries db = deliveries db ≡ entries

module _ (rt : Runtime) (entries : List Delivery) where
  open rt use {Value}

  -- The whole run of a job leaves them alone.
  Delivered-writes : KeepsWrites rt (Delivered entries)
  unfolding finish_raw_event
  Delivered-writes =
      event_writes rt
        (record {
          rollups = record { ids = λ db n h. h; metrics = λ db rows h. h };
          events = λ db rows h. h;
        })
        (ignores_projections rt (record {
          ids = λ db n h. h;
          products = λ db rows h. h;
          customers = λ db rows h. h;
          transactions = λ db rows h. h;
          subscriptions = λ db rows h. h;
        }))
        (λ id e product. record {
          after = λ db h.
              map-update_where delivery_of (has_raw_id id) (finished_raw e product) db.raw_events
                (λ x. refl)
              ∙ h;
        })

  ignores_jobs : IgnoresJobs {V = Value} (Delivered entries)
  ignores_jobs = λ db rows h. h

  or_fail-Preserves :
      {A : Type 0} (m : Exec Value A)
      → Keeps (Delivered entries) m
      → Preserves (Delivered entries) (or_fail (error_text rt) m)
  or_fail-Preserves m kept = record { held = λ db h. kept.after db h }

  attempt-Preserves :
      {A : Type 0} (m : Exec Value A)
      → Keeps (Delivered entries) m
      → Preserves (Delivered entries) (attempt m)
  attempt-Preserves m kept = record { held = λ db h. kept.after db h }

  fail_raw-Preserves :
      (id text : String) → Preserves {S = Db Value} (Delivered entries) (fail_raw id text)
  unfolding fail_raw
  fail_raw-Preserves id text = record {
    held = λ db h.
        map-update_where delivery_of (has_raw_id id) (failed_raw text) db.raw_events (λ x. refl)
        ∙ h;
  }

  update_source-Preserves :
      (id : String) (change : DataSource → DataSource)
      → Preserves {S = Db Value} (Delivered entries) (update_source id change)
  unfolding update_source
  update_source-Preserves id change = record { held = λ db h. h }

  pub unless_refused-Preserves :
      {A : Type 0} (statement : Statement) (refusal : Option String) (m : Handler (Db Value) A)
      → Preserves (Delivered entries) m
      → Preserves (Delivered entries) (unless_refused statement refusal m)
  unless_refused-Preserves statement none m kept = kept
  unless_refused-Preserves statement (some text) m kept = Preserves-lift _

  module _ (out : Outside rt.Value) (course : Course) (source_id : String) where
    record_outcome-Preserves :
        (id : String) (r : Result (Unit {0}))
        → Preserves (Delivered entries) (record_outcome rt out course source_id id r)
    unfolding record_outcome
    record_outcome-Preserves id (ok done) = Preserves-pure none
    record_outcome-Preserves id (err e) =
        search
          (preserves_rules, unless_refused-Preserves, fail_raw-Preserves, update_source-Preserves)
          depth 8

    normalize_stored-Preserves :
        (id : String) → Preserves (Delivered entries) (normalize_stored rt out course source_id id)
    unfolding normalize_stored
    normalize_stored-Preserves id =
        Preserves-bind _ _
          (unless_refused-Preserves enqueue_job (course.refusal enqueue_job) _ (
            or_fail-Preserves _
              (enqueue_normalization-Keeps rt Delivered-writes ignores_jobs course.now id)))
          λ job_id.
            Preserves-bind _ _
              (attempt-Preserves _ (
                process_normalization_job-Keeps rt Delivered-writes ignores_jobs course.job_now
                  course.job_clock job_id "api-inline"))
              λ r. search (preserves_rules, record_outcome-Preserves) depth 8

    finish_delivery-Preserves :
        (stored : String × Bool)
        → Preserves (Delivered entries) (finish_delivery rt out course source_id stored)
    unfolding finish_delivery
    finish_delivery-Preserves (id, inserted) =
        search (preserves_rules, normalize_stored-Preserves) depth 8

    -- What follows the insert.
    pub after_insert-Preserves :
        (stored : String × Bool)
        → Preserves (Delivered entries) (after_insert rt out course source_id stored)
    after_insert-Preserves stored =
        search
          (
            preserves_rules, unless_refused-Preserves, update_source-Preserves,
            finish_delivery-Preserves,
          )
          depth 8
