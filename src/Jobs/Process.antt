-- ===== src/Jobs/Process.antt =====
-- `process_raw_event`: one raw event through the reader of its source and all projections.
use revtern.Prelude.{
  ℕ, String, Bool, Option, none, some, if◌then◌else◌, unwrap_or, or_else, is_some, str_eq, find,
  update_where,
}
use revtern.Runtime.{Instant, Runtime}
use revtern.Connectors.Event.{ExtractedEvent}
use revtern.Connectors.Extract.{extract_event}
use revtern.Jobs.Tables.{Db, DataSource, RawEvent}
use revtern.Jobs.Exec.{
  Exec, row_not_found, app_not_assigned, some_or, ◌>>=◌, ◌>>◌, pure, lift, gets, modify,
}
use revtern.Jobs.Products.{upsert_source_product, active_logical_product}
use revtern.Jobs.Ledger.{ProjectionContext, insert_normalized_event}
use revtern.Jobs.Transactions.{project_transaction}
use revtern.Jobs.Subscriptions.{project_subscription}
use revtern.Jobs.Metrics.{update_daily_metric}

-- A raw event joined with its data source: the event, and the source's `app_id`.
abbrev pub joined_source :
    {V : Type 0} → RawEvent V → Option DataSource → Option (RawEvent V × Option String)
joined_source raw none = none
joined_source raw (some source) = some (raw, source.app_id)

abbrev pub has_source_id : String → DataSource → Bool
has_source_id id source = str_eq source.id id

abbrev pub final_status : Option String → String
final_status event_type = if is_some event_type then "processed" else "stored"

module _ {V : Type 0} where
  abbrev pub has_raw_id : String → RawEvent V → Bool
  has_raw_id id raw = str_eq raw.id id

  abbrev pub join_source : Db V → Option (RawEvent V) → Option (RawEvent V × Option String)
  join_source db none = none
  join_source db (some raw) =
      joined_source raw (find (has_source_id raw.data_source_id) db.data_sources)

  unfoldable pub fetch_raw_event : String → Db V → Option (RawEvent V × Option String)
  fetch_raw_event raw_event_id db = join_source db (find (has_raw_id raw_event_id) db.raw_events)

  abbrev pub finished_raw : ExtractedEvent → Option String → RawEvent V → RawEvent V
  finished_raw extracted source_product_id raw = record raw {
    source_event_type = some extracted.source_event_type;
    environment = extracted.environment;
    source_app_id = or_else extracted.source_app_id raw.source_app_id;
    source_product_id = or_else source_product_id raw.source_product_id;
    occurred_at = extracted.occurred_at;
    processing_status = final_status extracted.normalized_event_type;
    processing_error = none;
  }

  unfoldable pub finish_raw_event : String → ExtractedEvent → Option String → Exec V (Unit {0})
  finish_raw_event raw_event_id extracted source_product_id = modify λ db. record db {
    raw_events =
        update_where (has_raw_id raw_event_id) (finished_raw extracted source_product_id)
          db.raw_events;
  }

-- `now` is the time of the statements, `clock n` what the `n`-th reading of the clock shows.
module _ (rt : Runtime) (now : Instant) (clock : ℕ → Instant) where
  open rt use {Value}

  -- `if normalized_event_inserted { update_daily_metric(…) }`.
  unfoldable pub count_once : Bool → String → ProjectionContext → Exec Value (Unit {0})
  count_once inserted event_type projection =
      if inserted
      then update_daily_metric rt projection.workspace_id projection.app_id
          projection.logical_product_id projection.source_type event_type projection.extracted
      else pure tt

  -- The body of `if let Some(event_type) = …`.
  unfoldable pub project_event :
      String → String → ProjectionContext → Option String → Exec Value (Unit {0})
  project_event raw_event_id data_source_id projection none = pure tt
  project_event raw_event_id data_source_id projection (some event_type) = do
    (normalized_event_id, inserted) ←
        insert_normalized_event rt raw_event_id data_source_id event_type projection
    transaction_id ← project_transaction rt normalized_event_id event_type projection
    project_subscription rt transaction_id event_type projection
    count_once inserted event_type projection

  abbrev pub extracted_from : RawEvent Value → ExtractedEvent
  extracted_from raw =
      extract_event rt clock raw.source_type (unwrap_or raw.processing_payload raw.payload)
        raw.source_event_id

  -- From the row on.
  unfoldable pub process_row : String → RawEvent Value → Option String → Exec Value (Unit {0})
  process_row raw_event_id raw app_hint = do
    let extracted = extracted_from raw
    app_id ← lift (some_or app_not_assigned app_hint)
    source_product_id ←
        upsert_source_product rt now raw.workspace_id raw.data_source_id app_id raw.source_type
          extracted (unwrap_or raw.processing_payload raw.payload)
    logical_product_id ← active_logical_product app_id source_product_id
    project_event raw_event_id raw.data_source_id
        (record {
          workspace_id = raw.workspace_id;
          app_id = app_id;
          source_product_id = source_product_id;
          logical_product_id = logical_product_id;
          source_type = raw.source_type;
          extracted = extracted;
        })
        extracted.normalized_event_type
    finish_raw_event raw_event_id extracted source_product_id

  unfoldable pub process_raw_event : String → Exec Value (Unit {0})
  process_raw_event raw_event_id = do
    found ← gets (fetch_raw_event raw_event_id)
    (raw, app_hint) ← lift (some_or row_not_found found)
    process_row raw_event_id raw app_hint
