-- ===== src/Jobs/Ledger.antt =====
-- `insert_normalized_event`: one row for each raw event and event type.
use revtern.Prelude.{
  ℕ, String, Bool, true, false, ◌&&◌, Option, none, some, List, [], ◌∷◌, ◌++◌, or_else, str_eq,
  find, update_where,
}
use revtern.Runtime.{Runtime}
use revtern.Connectors.Event.{ExtractedEvent}
use revtern.Jobs.Tables.{NormalizedEvent}
use revtern.Jobs.Exec.{Exec, Result, ok, err, row_not_found, ◌>>=◌, draw_id}

pub record ProjectionContext : Type 0 where
  pub workspace_id : String
  pub app_id : String
  pub source_product_id : Option String
  pub logical_product_id : Option String
  pub source_type : String
  pub extracted : ExtractedEvent

abbrev pub is_event : String → String → NormalizedEvent → Bool
is_event raw_event_id event_type e =
    str_eq e.raw_event_id raw_event_id && str_eq e.event_type event_type

abbrev confidence_of : List String → ℕ
confidence_of [] = 92
confidence_of (w ∷ ws) = 68

abbrev pub new_event : String → String → String → String → ProjectionContext → NormalizedEvent
new_event id raw_event_id data_source_id event_type projection =
    let extracted = projection.extracted in
    record {
      id = id;
      workspace_id = projection.workspace_id;
      raw_event_id = raw_event_id;
      data_source_id = data_source_id;
      app_id = some projection.app_id;
      source_product_id = projection.source_product_id;
      logical_product_id = projection.logical_product_id;
      event_type = event_type;
      platform = extracted.platform;
      customer_key = extracted.customer_key;
      transaction_key = extracted.transaction_key;
      original_transaction_key = extracted.original_transaction_key;
      subscription_key = extracted.subscription_key;
      amount_minor = extracted.amount_minor;
      currency = extracted.currency;
      country = extracted.country;
      occurred_at = extracted.occurred_at;
      environment = extracted.environment;
      normalization_version = "mvp_v1";
      confidence = confidence_of extracted.warnings;
      warnings = extracted.warnings;
    }

-- The `update` that runs when the row is already there.
abbrev pub refresh_event : ProjectionContext → NormalizedEvent → NormalizedEvent
refresh_event projection e = record e {
  app_id = or_else e.app_id (some projection.app_id);
  source_product_id = or_else e.source_product_id projection.source_product_id;
  logical_product_id = or_else e.logical_product_id projection.logical_product_id;
  environment = projection.extracted.environment;
  warnings = projection.extracted.warnings;
}

abbrev pub known_event : Option NormalizedEvent → Result (String × Bool)
known_event none = err row_not_found
known_event (some e) = ok (e.id, false)

module _ {V : Type 0} where
  -- After `on conflict do nothing`: the new row, or the one that was there, refreshed.
  unfoldable pub write_event :
      String
      → String
      → ProjectionContext
      → NormalizedEvent
      → Option NormalizedEvent
      → Exec V (String × Bool)
  write_event raw_event_id event_type projection row none db =
      (ok (row.id, true), record db { normalized_events = db.normalized_events ++ row ∷ [] })
  write_event raw_event_id event_type projection row (some old) db =
      let events =
        update_where (is_event raw_event_id event_type) (refresh_event projection)
          db.normalized_events in
      (
        known_event (find (is_event raw_event_id event_type) events),
        record db { normalized_events = events },
      )

module _ (rt : Runtime) where
  open rt use {Value}

  unfoldable pub insert_normalized_event :
      String → String → String → ProjectionContext → Exec Value (String × Bool)
  insert_normalized_event raw_event_id data_source_id event_type projection = do
    id ← draw_id rt "ne"
    λ db.
        write_event raw_event_id event_type projection
          (new_event id raw_event_id data_source_id event_type projection)
          (find (is_event raw_event_id event_type) db.normalized_events) db
