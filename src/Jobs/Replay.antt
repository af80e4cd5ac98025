-- ===== src/Jobs/Replay.antt =====
-- What a second run of `process_raw_event` for the same raw event leaves alone.
pub mod Twice
use revtern.Prelude.{
  ℕ, String, Bool, true, false, ◌≡◌, refl, Option, none, some, List, arith, is_some, find,
  update_where,
}
use revtern.Prelude.Rows.{find-update_where}
use revtern.Runtime.{Instant, Runtime}
use revtern.Connectors.Event.{ExtractedEvent}
use revtern.Jobs.Tables.{Db, RawEvent, NormalizedEvent, DailyMetric}
use revtern.Jobs.Exec.{ok, draw_id, ◌>>=◌}
use revtern.Jobs.Keeps.{Keeps, Ensures, keeps_rules, Keeps-pure, Keeps-bind, Keeps-bind-Ensures}
use revtern.Jobs.Frame.{
  IgnoresProjections, ignores_projections, project_transaction-Keeps, project_subscription-Keeps,
  upsert_source_product-Keeps, active_logical_product-Keeps,
}
use revtern.Jobs.Ledger.{
  ProjectionContext, is_event, refresh_event, known_event, write_event, insert_normalized_event,
}
use revtern.Jobs.Process.{
  fetch_raw_event, finish_raw_event, count_once, project_event, extracted_from, process_row,
  process_raw_event,
}

-- The ledger has an event of this type for the raw event.
abbrev pub is_normalized : {V : Type 0} → String → String → Db V → Bool
is_normalized raw_event_id event_type db =
    is_some (find (is_event raw_event_id event_type) db.normalized_events)

-- The rollups are `metrics`, and the event is in the ledger.
pub record IsCounted {V : Type 0} (raw_event_id event_type : String) (metrics : List DailyMetric)
    (db : Db V) : Type 0 where
  pub rollups : db.daily_metrics ≡ metrics
  pub known : is_normalized raw_event_id event_type db ≡ true

refreshed_known :
    (raw_event_id event_type : String) (projection : ProjectionContext)
    (rows : List NormalizedEvent)
    → is_some (find (is_event raw_event_id event_type) rows) ≡ true
    → is_some (
        find
          (is_event raw_event_id event_type)
          (update_where (is_event raw_event_id event_type) (refresh_event projection) rows))
      ≡ true
refreshed_known raw_event_id event_type projection rows h =
    rw
      (find-update_where (is_event raw_event_id event_type) (refresh_event projection) rows
        (λ x k. k))
      (ground (arith, h))

abbrev IsRepeat : String × Bool → Type 0
IsRepeat a = a.1 ≡ false

-- An event that is in the ledger is refreshed, and reported as no new one.
known_value : (o : Option NormalizedEvent) (a : String × Bool) → known_event o ≡ ok a → IsRepeat a
known_value none a e = cc
known_value (some old) a e = ground arith

module _ {V : Type 0} (raw_event_id event_type : String) (metrics : List DailyMetric) where
  IsCounted-ignores : IgnoresProjections {V = V} (IsCounted raw_event_id event_type metrics)
  IsCounted-ignores = record {
    ids = λ db n h. record { rollups = h.rollups; known = h.known };
    products = λ db rows h. record { rollups = h.rollups; known = h.known };
    customers = λ db rows h. record { rollups = h.rollups; known = h.known };
    transactions = λ db rows h. record { rollups = h.rollups; known = h.known };
    subscriptions = λ db rows h. record { rollups = h.rollups; known = h.known };
  }

  finish_raw_event-Keeps :
      (id : String) (e : ExtractedEvent) (product : Option String)
      → Keeps {V = V} (IsCounted raw_event_id event_type metrics) (finish_raw_event id e product)
  unfolding finish_raw_event
  finish_raw_event-Keeps id e product = record {
    after = λ db h. record { rollups = h.rollups; known = h.known };
  }

  write_event-IsCounted :
      (projection : ProjectionContext) (row : NormalizedEvent) (old : Option NormalizedEvent)
      (db : Db V)
      → is_some old ≡ true
      → IsCounted raw_event_id event_type metrics db
      → IsCounted raw_event_id event_type metrics
          (write_event raw_event_id event_type projection row old db).1
  unfolding write_event
  write_event-IsCounted projection row none db s h = cc
  write_event-IsCounted projection row (some old) db s h = record {
    rollups = h.rollups;
    known = refreshed_known raw_event_id event_type projection db.normalized_events h.known;
  }

  write_event-IsRepeat :
      (projection : ProjectionContext) (row : NormalizedEvent) (old : Option NormalizedEvent)
      (db : Db V) (a : String × Bool)
      → is_some old ≡ true
      → (write_event raw_event_id event_type projection row old db).0 ≡ ok a
      → IsRepeat a
  unfolding write_event
  write_event-IsRepeat projection row none db a s e = cc
  write_event-IsRepeat projection row (some old) db a s e = known_value _ a e

module _ (rt : Runtime) (raw_event_id event_type : String) (metrics : List DailyMetric) where
  open rt use {Value}

  insert-Ensures :
      (data_source_id : String) (projection : ProjectionContext)
      → Ensures
          (IsCounted raw_event_id event_type metrics)
          IsRepeat
          (insert_normalized_event rt raw_event_id data_source_id event_type projection)
  unfolding insert_normalized_event draw_id ◌>>=◌
  insert-Ensures data_source_id projection = record {
    after = λ db h.
        write_event-IsCounted raw_event_id event_type metrics projection _ _ _ h.known
          (record { rollups = h.rollups; known = h.known });
    value = λ db h a e.
        write_event-IsRepeat raw_event_id event_type metrics projection _ _ _ a h.known e;
  }

  module _ (now : Instant) (clock : ℕ → Instant) where
    count_once-Keeps :
        (inserted : Bool) (type : String) (projection : ProjectionContext)
        → inserted ≡ false
        → Keeps {V = Value}
            (IsCounted raw_event_id event_type metrics)
            (count_once rt now clock inserted type projection)
    unfolding count_once
    count_once-Keeps true type projection e = cc
    count_once-Keeps false type projection e = Keeps-pure tt

    project_event-Keeps :
        (data_source_id : String) (projection : ProjectionContext)
        → Keeps {V = Value}
            (IsCounted raw_event_id event_type metrics)
            (project_event rt now clock raw_event_id data_source_id projection (some event_type))
    unfolding project_event
    project_event-Keeps data_source_id projection =
        let kept = ignores_projections rt (IsCounted-ignores raw_event_id event_type metrics) in
        Keeps-bind-Ensures _ _ (insert-Ensures data_source_id projection) λ a repeat.
          Keeps-bind _ _ (project_transaction-Keeps rt kept a.0 event_type projection) λ txn.
            Keeps-bind _ _ (project_subscription-Keeps rt kept txn event_type projection)
              λ _. count_once-Keeps a.1 event_type projection repeat

    project_known-Keeps :
        (data_source_id : String) (projection : ProjectionContext) (found : Option String)
        → found ≡ some event_type
        → Keeps {V = Value}
            (IsCounted raw_event_id event_type metrics)
            (project_event rt now clock raw_event_id data_source_id projection found)
    project_known-Keeps data_source_id projection found e =
        rw e (project_event-Keeps data_source_id projection)

    process_row-Keeps :
        (raw : RawEvent Value) (app_hint : Option String)
        → (extracted_from rt now clock raw).normalized_event_type ≡ some event_type
        → Keeps {V = Value}
            (IsCounted raw_event_id event_type metrics)
            (process_row rt now clock raw_event_id raw app_hint)
    unfolding process_row
    process_row-Keeps raw app_hint e =
        let kept = ignores_projections rt (IsCounted-ignores raw_event_id event_type metrics) in
        search
          (
            keeps_rules,
            upsert_source_product-Keeps rt kept,
            active_logical_product-Keeps {V = Value} (IsCounted raw_event_id event_type metrics),
            finish_raw_event-Keeps {V = Value} raw_event_id event_type metrics,
            λ (d : String) (p : ProjectionContext). project_known-Keeps d p _ e,
          )
          depth 8

-- Whatever else the database holds, a run of `process_raw_event` for a raw event whose normalized
-- event is already in the ledger leaves every daily rollup as it was, also if the run fails.
pub replay-daily_metrics :
    (rt : Runtime) (now : Instant) (clock : ℕ → Instant) (db : Db rt.Value)
    (raw_event_id event_type : String) (raw : RawEvent rt.Value) (app_hint : Option String)
    → fetch_raw_event raw_event_id db ≡ some (raw, app_hint)
    → (extracted_from rt now clock raw).normalized_event_type ≡ some event_type
    → is_normalized raw_event_id event_type db ≡ true
    → (process_raw_event rt now clock raw_event_id db).1.daily_metrics ≡ db.daily_metrics
unfolding process_raw_event ◌>>=◌
replay-daily_metrics rt now clock db raw_event_id event_type raw app_hint found type known =
    rw found
      ((process_row-Keeps rt raw_event_id event_type db.daily_metrics now clock raw app_hint
          type).after
        db (record { rollups = refl; known = known })).rollups
