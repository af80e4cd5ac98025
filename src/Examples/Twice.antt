-- ===== src/Examples/Twice.antt =====
-- A renewal that arrives for the first time, projected twice.
use revtern.Prelude.{find, put, update_where, [], ◌≡◌, refl}
use revtern.Prelude.Int.{◌+ℤ◌, ◌-ℤ◌, wrap_i64, abs_i64, sub_i64}
use revtern.Prelude.Text.{map_chars, to_ascii_lowercase, contains, ends_with, trim}
use revtern.Core.{
  first_case, match_arm, normalize_money_minor, new_id, is_revenue_event, is_refund_event,
  infer_product_kind, infer_billing_period, source_product_key, parse_time,
}
use revtern.Connectors.Pick.{
  pick_string, pick_money, pick_time, pick_optional_time, pick_bool, for_names, field_at,
  pointer_of,
}
use revtern.Connectors.Environment.{event_environment, normalize_environment}
use revtern.Connectors.Custom.{extract_custom}
use revtern.Connectors.Mapping.{map_common_type}
use revtern.Connectors.Extract.{extract_event}
use revtern.Jobs.Exec.{◌>>=◌, draw_id}
use revtern.Jobs.Products.{
  upsert_source_product, upsert_product, write_product, active_logical_product, latest_mapping,
}
use revtern.Jobs.Ledger.{insert_normalized_event, write_event}
use revtern.Jobs.Customers.{
  upsert_customer, write_customer, new_customer, customer_identity_key, customer_of_transaction,
  customer_of_subscription,
}
use revtern.Jobs.Transactions.{
  project_transaction, write_transaction, new_transaction, attach_customer, link_transaction,
  merge_transaction, merge_refund,
}
use revtern.Jobs.Subscriptions.{
  project_subscription, project_key, write_subscription, new_subscription, attach_subscriber,
  link_subscription,
}
use revtern.Jobs.Metrics.{update_daily_metric, write_metric, new_metric, merge_metric, add_metric}
use revtern.Jobs.Process.{
  process_raw_event, process_row, project_event, count_once, finish_raw_event, fetch_raw_event,
}
use revtern.Jobs.Replay.Twice.{process_raw_event-process_raw_event}
use revtern.Jobs.Tables.{Db}
use revtern.Examples.Platform.{small_platform, Json}
use revtern.Examples.Rows.{today, still, after_renewal}

abbrev before_renewal : Db Json
before_renewal = record after_renewal { normalized_events = [] }

process_raw_event-process_raw_event_example :
    let after = (process_raw_event small_platform today still "raw" before_renewal).1 in
    (process_raw_event small_platform today still "raw" after).1.daily_metrics ≡ after.daily_metrics
unfolding process_raw_event process_row project_event count_once finish_raw_event fetch_raw_event
    find put update_where ◌+ℤ◌ ◌-ℤ◌ wrap_i64 abs_i64 sub_i64 map_chars to_ascii_lowercase contains
    ends_with trim first_case match_arm normalize_money_minor new_id is_revenue_event
    is_refund_event infer_product_kind infer_billing_period source_product_key parse_time
    pick_string pick_money pick_time pick_optional_time pick_bool for_names field_at pointer_of
    event_environment normalize_environment extract_custom map_common_type extract_event ◌>>=◌
    draw_id upsert_source_product upsert_product write_product active_logical_product latest_mapping
    insert_normalized_event write_event upsert_customer write_customer new_customer
    customer_identity_key customer_of_transaction customer_of_subscription project_transaction
    write_transaction new_transaction attach_customer link_transaction merge_transaction
    merge_refund project_subscription project_key write_subscription new_subscription
    attach_subscriber link_subscription update_daily_metric write_metric new_metric merge_metric
    add_metric
process_raw_event-process_raw_event_example =
    process_raw_event-process_raw_event small_platform today today still still before_renewal "raw"
      refl
