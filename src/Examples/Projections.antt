-- ===== src/Examples/Projections.antt =====
-- The theorems on the projections, at a renewal that was projected before.
use revtern.Prelude.{false, ◌≡◌, ◌≢◌, refl, none, some, [], ◌∷◌, arith, eq_iff}
use revtern.Prelude.Int.{pos, ◌+ℤ◌, ◌-ℤ◌}
use revtern.Prelude.{find}
use revtern.Prelude.Text.{map_chars, to_ascii_lowercase, contains, ends_with, trim}
use revtern.Core.{first_case, normalize_money_minor}
use revtern.Connectors.Pick.{pick_string, pick_money, for_names, field_at, pointer_of}
use revtern.Connectors.Custom.{extract_custom}
use revtern.Connectors.Mapping.{map_common_type}
use revtern.Connectors.Extract.{extract_event}
use revtern.Jobs.Tables.{Transaction, Subscription}
use revtern.Jobs.Exec.{Result, ok, err}
use revtern.Jobs.Customers.{
  customer_identity_key, transaction_identity_key, customer_of_transaction,
  customer_of_subscription,
}
use revtern.Jobs.Customers.Identity.{HasIdentified, process_raw_event-HasIdentified}
use revtern.Jobs.Transactions.{merge_transaction, merge_refund, merge_columns}
use revtern.Jobs.Transactions.Merge.{SameProgress, merge_transaction_order}
use revtern.Jobs.Transactions.Refunds.{
  refund_order, merge_transaction_again, stale_refund_added_again,
}
use revtern.Jobs.Subscriptions.State.{project_all, IsLatest, project_all-IsLatest}
use revtern.Jobs.Subscriptions.Consistency.{HasConsistent, process_raw_event-HasConsistent}
use revtern.Jobs.Metrics.{update_daily_metric}
use revtern.Jobs.Metrics.Totals.{HasBalanced, update_daily_metric-HasBalanced}
use revtern.Jobs.Process.{fetch_raw_event, process_raw_event, extracted_from}
use revtern.Jobs.Replay.{replay-daily_metrics}
use revtern.Examples.Platform.{small_platform}
use revtern.Examples.Rows.{
  today, still, raw_renewal, paid, first_refund, second_refund, active_subscription, after_renewal,
}

-- The rows that merging leaves; their refunded amounts are not out of range.
abbrev merged : Result Transaction → Transaction
merged (ok row) = row
merged (err e) = paid

abbrev step : Transaction → Transaction → Transaction
step row event = merged (merge_transaction row event)

abbrev cancelled : Subscription
cancelled = record active_subscription {
  status = "cancelled";
  will_renew = false;
  status_updated_at = 300;
}

merge_transaction_order_example :
    SameProgress
      (step (step paid first_refund) second_refund)
      (step (step paid second_refund) first_refund)
unfolding merge_transaction merge_refund ◌+ℤ◌ merge_columns
merge_transaction_order_example =
    merge_transaction_order paid first_refund second_refund (step paid first_refund)
      (step (step paid first_refund) second_refund) (step paid second_refund)
      (step (step paid second_refund) first_refund) refl refl refl refl (λ e. omega (arith, e))

apart_1_2 : paid.latest_event_id ≢ first_refund.latest_event_id
apart_1_2 = λ e. cc ((eq_iff "ne1" "ne2").1 e)

apart_1_3 : paid.latest_event_id ≢ second_refund.latest_event_id
apart_1_3 = λ e. cc ((eq_iff "ne1" "ne3").1 e)

apart_2_3 : first_refund.latest_event_id ≢ second_refund.latest_event_id
apart_2_3 = λ e. cc ((eq_iff "ne2" "ne3").1 e)

apart_3_2 : second_refund.latest_event_id ≢ first_refund.latest_event_id
apart_3_2 = λ e. cc ((eq_iff "ne3" "ne2").1 e)

refund_order_example :
    (step (step paid first_refund) second_refund).refund_amount_minor
    ≡ (step (step paid second_refund) first_refund).refund_amount_minor
unfolding merge_transaction merge_refund ◌+ℤ◌ merge_columns
refund_order_example =
    refund_order paid first_refund second_refund (step paid first_refund)
      (step (step paid first_refund) second_refund) (step paid second_refund)
      (step (step paid second_refund) first_refund) refl refl refl refl apart_1_2 apart_1_3
      apart_2_3

merge_transaction_again_example :
    merge_transaction (step paid first_refund) first_refund ≡ ok (step paid first_refund)
unfolding merge_transaction merge_refund ◌+ℤ◌ merge_columns
merge_transaction_again_example =
    merge_transaction_again paid first_refund (step paid first_refund) refl (omega arith)

stale_refund_added_again_example :
    (step (step second_refund first_refund) first_refund).refund_amount_minor
    ≡ some (pos 699 +ℤ pos 300 +ℤ pos 300)
unfolding merge_transaction merge_refund ◌+ℤ◌ merge_columns
stale_refund_added_again_example =
    stale_refund_added_again second_refund first_refund (step second_refund first_refund)
      (step (step second_refund first_refund) first_refund) (pos 300) (omega arith) apart_3_2 refl
      refl refl

project_all-IsLatest_example :
    IsLatest active_subscription
      (cancelled ∷ active_subscription ∷ [])
      (project_all active_subscription (cancelled ∷ active_subscription ∷ []))
project_all-IsLatest_example =
    project_all-IsLatest active_subscription (cancelled ∷ active_subscription ∷ [])

process_raw_event-HasConsistent_example :
    HasConsistent (process_raw_event small_platform today still "raw" after_renewal).1
process_raw_event-HasConsistent_example =
    process_raw_event-HasConsistent small_platform today still "raw" after_renewal
      (record { grace = refl; retry = refl }, tt)

process_raw_event-HasIdentified_example :
    let after = (process_raw_event small_platform today still "raw" after_renewal).1 in
    HasIdentified after
    × (customer_of_transaction "app" "ana" after ≡ customer_of_subscription "app" "ana" after)
unfolding customer_identity_key transaction_identity_key
process_raw_event-HasIdentified_example =
    process_raw_event-HasIdentified small_platform today still "raw" after_renewal "app" "ana"
      (refl, tt)

update_daily_metric-HasBalanced_example :
    HasBalanced
      (update_daily_metric small_platform "ws" "app" none "custom_api" "renewal"
        (extracted_from small_platform today still raw_renewal)
        after_renewal).1
unfolding extract_event extract_custom pick_string pick_money for_names field_at pointer_of
    map_chars normalize_money_minor ◌-ℤ◌ ends_with
update_daily_metric-HasBalanced_example =
    update_daily_metric-HasBalanced small_platform after_renewal "ws" "app" none "custom_api"
      "renewal" (extracted_from small_platform today still raw_renewal) refl (refl, tt)

replay-daily_metrics_example :
    (process_raw_event small_platform today still "raw" after_renewal).1.daily_metrics
    ≡ after_renewal.daily_metrics
unfolding fetch_raw_event find extract_event extract_custom pick_string for_names field_at
    pointer_of map_chars map_common_type first_case to_ascii_lowercase contains trim
replay-daily_metrics_example =
    replay-daily_metrics small_platform today still after_renewal "raw" "renewal" raw_renewal
      (some "app") refl refl refl
