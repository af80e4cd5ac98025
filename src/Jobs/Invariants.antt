-- ===== src/Jobs/Invariants.antt =====
-- From the single writes to the whole of `process_raw_event` and `process_normalization_job`.
use revtern.Prelude.{ℕ, ◌+◌, String, Bool, Option, none, some, List, find}
use revtern.Runtime.{Instant, Runtime}
use revtern.Core.{new_id}
use revtern.Connectors.Event.{ExtractedEvent}
use revtern.Jobs.Tables.{Db, RawEvent, Job, DailyMetric, NormalizedEvent}
use revtern.Jobs.Exec.{Result, ok, err, draw_id, ◌>>=◌}
use revtern.Jobs.Keeps.{Keeps, keeps_rules, Keeps-pure}
use revtern.Jobs.Frame.{
  ignores_projections, KeepsProjections, project_transaction-Keeps, project_subscription-Keeps,
  upsert_source_product-Keeps, active_logical_product-Keeps,
}
use revtern.Jobs.Ledger.{
  new_event, is_event, ProjectionContext, write_event, insert_normalized_event,
}
use revtern.Jobs.Metrics.{
  stored_metric, merged_metric, same_bucket, write_metric, update_daily_metric,
}
use revtern.Jobs.Process.{
  finish_raw_event, count_once, project_event, process_row, process_raw_event,
}

-- `P` is kept by every write that `process_raw_event` makes.
pub record KeepsWrites (rt : Runtime) (P : Db rt.Value → Type 0) : Type 0 where
  pub projections : KeepsProjections rt P
  pub event :
      (raw_event_id data_source_id event_type : String) (c : ProjectionContext)
      → Keeps P (insert_normalized_event rt raw_event_id data_source_id event_type c)
  pub metric :
      (w app_id : String) (logical : Option String) (source_type event_type : String)
      (e : ExtractedEvent)
      → Keeps P (update_daily_metric rt w app_id logical source_type event_type e)
  pub finish :
      (id : String) (e : ExtractedEvent) (product : Option String)
      → Keeps P (finish_raw_event {V = rt.Value} id e product)

-- `P` does not depend on the rollups and the count of identifiers.
pub record IgnoresRollups {V : Type 0} (P : Db V → Type 0) : Type 0 where
  pub ids : (db : Db V) (n : ℕ) → P db → P (record db { ids_drawn = n })
  pub metrics :
      (db : Db V) (rows : List DailyMetric) → P db → P (record db { daily_metrics = rows })

-- Nor on the ledger.
pub record IgnoresEvents {V : Type 0} (P : Db V → Type 0) : Type 0 where
  pub rollups : IgnoresRollups P
  pub events :
      (db : Db V) (rows : List NormalizedEvent) → P db → P (record db { normalized_events = rows })

-- Nor on the raw events.
pub record IgnoresLedger {V : Type 0} (P : Db V → Type 0) : Type 0 where
  pub rollups : IgnoresRollups P
  pub events :
      (db : Db V) (rows : List NormalizedEvent) → P db → P (record db { normalized_events = rows })
  pub raw_events :
      (db : Db V) (rows : List (RawEvent V)) → P db → P (record db { raw_events = rows })

module _ {V : Type 0} {P : Db V → Type 0} (ig : IgnoresRollups P) where
  stored_metric-kept :
      (row : DailyMetric) (db : Db V) (r : Result DailyMetric) → P db → P (stored_metric row db r).1
  stored_metric-kept row db (ok m) h = ig.metrics db _ h
  stored_metric-kept row db (err e) h = h

  write_metric-Keeps : (row : DailyMetric) → Keeps P (write_metric row)
  unfolding write_metric
  write_metric-Keeps row = record {
    after = λ db h.
        stored_metric-kept row db (merged_metric (find (same_bucket row) db.daily_metrics) row) h;
  }

module _ {V : Type 0} {P : Db V → Type 0} (ig : IgnoresEvents P) where
  write_event-kept :
      (raw_event_id event_type : String) (c : ProjectionContext) (row : NormalizedEvent)
      (old : Option NormalizedEvent) (db : Db V)
      → P db
      → P (write_event raw_event_id event_type c row old db).1
  unfolding write_event
  write_event-kept raw_event_id event_type c row none db h = ig.events db _ h
  write_event-kept raw_event_id event_type c row (some old) db h = ig.events db _ h

module _ (rt : Runtime) {P : Db rt.Value → Type 0} (ig : IgnoresRollups P) where
  pub draw_id-Keeps : (prefix : String) → Keeps P (draw_id rt prefix)
  unfolding draw_id
  draw_id-Keeps prefix = record { after = λ db h. ig.ids db _ h }

  pub update_daily_metric-Keeps :
      (w app_id : String) (logical : Option String) (source_type event_type : String)
      (e : ExtractedEvent)
      → Keeps P (update_daily_metric rt w app_id logical source_type event_type e)
  unfolding update_daily_metric
  update_daily_metric-Keeps w app_id logical source_type event_type e =
      search (keeps_rules, draw_id-Keeps, write_metric-Keeps ig) depth 8

-- What depends on none of these tables is kept by all writes if the projections and the write to the
-- raw event keep it.
pub event_writes :
    (rt : Runtime) {P : Db rt.Value → Type 0}
    → IgnoresEvents P
    → KeepsProjections rt P
    → ((id : String) (e : ExtractedEvent) (product : Option String)
        → Keeps P (finish_raw_event {V = rt.Value} id e product))
    → KeepsWrites rt P
unfolding insert_normalized_event draw_id ◌>>=◌
event_writes rt ig kp finish = record {
  projections = kp;
  event = λ raw_event_id data_source_id event_type c. record {
    after = λ db h.
        write_event-kept ig raw_event_id event_type c
          (new_event (new_id rt db.ids_drawn "ne") raw_event_id data_source_id event_type c)
          (find (is_event raw_event_id event_type) db.normalized_events)
          (record db { ids_drawn = db.ids_drawn + 1 }) (ig.rollups.ids db _ h);
  };
  metric = update_daily_metric-Keeps rt ig.rollups;
  finish = finish;
}

pub ledger_writes :
    (rt : Runtime) {P : Db rt.Value → Type 0}
    → IgnoresLedger P
    → KeepsProjections rt P
    → KeepsWrites rt P
unfolding finish_raw_event
ledger_writes rt ig kp =
    event_writes rt (record { rollups = ig.rollups; events = ig.events }) kp
      (λ id e product. record { after = λ db h. ig.raw_events db _ h })

-- A property of the jobs alone is kept by all writes.
pub jobs_frame : (rt : Runtime) (P : List Job → Type 0) → KeepsWrites rt (λ db. P db.jobs)
jobs_frame rt P =
    ledger_writes rt
      (record {
        rollups = record { ids = λ db n h. h; metrics = λ db rows h. h };
        events = λ db rows h. h;
        raw_events = λ db rows h. h;
      })
      (ignores_projections rt (record {
        ids = λ db n h. h;
        products = λ db rows h. h;
        customers = λ db rows h. h;
        transactions = λ db rows h. h;
        subscriptions = λ db rows h. h;
      }))

module _ (rt : Runtime) {P : Db rt.Value → Type 0} (kw : KeepsWrites rt P) (now : Instant)
    (clock : ℕ → Instant) where
  open rt use {Value}

  count_once-Keeps :
      (inserted : Bool) (event_type : String) (c : ProjectionContext)
      → Keeps P (count_once rt now clock inserted event_type c)
  unfolding count_once
  count_once-Keeps inserted event_type c = search (keeps_rules, kw.metric)

  project_event-Keeps :
      (raw_event_id data_source_id : String) (c : ProjectionContext) (found : Option String)
      → Keeps P (project_event rt now clock raw_event_id data_source_id c found)
  unfolding project_event
  project_event-Keeps raw_event_id data_source_id c none = Keeps-pure tt
  project_event-Keeps raw_event_id data_source_id c (some event_type) =
      search
        (
          keeps_rules,
          kw.event,
          project_transaction-Keeps rt kw.projections,
          project_subscription-Keeps rt kw.projections,
          count_once-Keeps,
        )
        depth 8

  process_row-Keeps :
      (raw_event_id : String) (raw : RawEvent Value) (app_hint : Option String)
      → Keeps P (process_row rt now clock raw_event_id raw app_hint)
  unfolding process_row
  process_row-Keeps raw_event_id raw app_hint =
      search
        (
          keeps_rules,
          upsert_source_product-Keeps rt kw.projections,
          active_logical_product-Keeps P,
          project_event-Keeps,
          kw.finish,
        )
        depth 8

  -- What every single write keeps, a run of `process_raw_event` keeps, also if it fails.
  pub process_raw_event-Keeps :
      (raw_event_id : String) → Keeps P (process_raw_event rt now clock raw_event_id)
  unfolding process_raw_event
  process_raw_event-Keeps raw_event_id = search (keeps_rules, process_row-Keeps) depth 8
