-- ===== src/Jobs/Metrics.antt =====
-- `update_daily_metric`: sums for each day, application, platform, product, country, currency and
-- source.
pub mod Totals
use revtern.Prelude.{
  ℕ, String, Bool, true, false, ◌&&◌, not, Option, none, some, List, [], ◌∷◌, if◌then◌else◌,
  unwrap_or, str_eq, nat_eq, find, put,
}
use revtern.Prelude.Int.{ℤ, pos, ◌+ℤ◌, in_i64, abs_i64, sub_i64}
use revtern.Runtime.{Instant, Runtime}
use revtern.Core.{one_of, is_revenue_event, is_refund_event}
use revtern.Connectors.Event.{ExtractedEvent}
use revtern.Jobs.Tables.{Db, DailyMetric}
use revtern.Jobs.Exec.{Exec, Result, ok, err, out_of_range, ◌>>=◌, ◌>>◌, pure, modify, draw_id}

-- `i64::from(test)`.
abbrev pub count_of : Bool → ℤ
count_of true = pos 1
count_of false = pos 0

-- The generated `…_key` columns of the unique index.
abbrev pub same_bucket : DailyMetric → DailyMetric → Bool
same_bucket a b =
    str_eq b.workspace_id a.workspace_id
    && nat_eq b.date a.date
    && str_eq b.app_id a.app_id
    && str_eq (unwrap_or b.platform "") (unwrap_or a.platform "")
    && str_eq (unwrap_or b.logical_product_id "") (unwrap_or a.logical_product_id "")
    && str_eq (unwrap_or b.country "") (unwrap_or a.country "")
    && str_eq b.currency a.currency
    && str_eq b.source_type a.source_type

-- `on conflict … do update` without its bounds.
unfoldable pub add_metric : DailyMetric → DailyMetric → DailyMetric
add_metric old excluded = record old {
  gross_revenue_minor = old.gross_revenue_minor +ℤ excluded.gross_revenue_minor;
  refund_amount_minor = old.refund_amount_minor +ℤ excluded.refund_amount_minor;
  net_revenue_minor = old.net_revenue_minor +ℤ excluded.net_revenue_minor;
  purchase_count = old.purchase_count +ℤ excluded.purchase_count;
  renewal_count = old.renewal_count +ℤ excluded.renewal_count;
  new_subscription_count = old.new_subscription_count +ℤ excluded.new_subscription_count;
  cancel_count = old.cancel_count +ℤ excluded.cancel_count;
  expiration_count = old.expiration_count +ℤ excluded.expiration_count;
  refund_count = old.refund_count +ℤ excluded.refund_count;
  trial_start_count = old.trial_start_count +ℤ excluded.trial_start_count;
  trial_conversion_count = old.trial_conversion_count +ℤ excluded.trial_conversion_count;
}

abbrev pub fits_bigint : DailyMetric → Bool
fits_bigint m =
    in_i64 m.gross_revenue_minor
    && in_i64 m.refund_amount_minor
    && in_i64 m.net_revenue_minor
    && in_i64 m.purchase_count
    && in_i64 m.renewal_count
    && in_i64 m.new_subscription_count
    && in_i64 m.cancel_count
    && in_i64 m.expiration_count
    && in_i64 m.refund_count
    && in_i64 m.trial_start_count
    && in_i64 m.trial_conversion_count

-- A sum outside `bigint` fails the statement.
unfoldable pub merge_metric : DailyMetric → DailyMetric → Result DailyMetric
unfolding add_metric
merge_metric old excluded =
    let total = add_metric old excluded in if fits_bigint total then ok total else err out_of_range

abbrev pub gross_of : String → ExtractedEvent → ℤ
gross_of event_type extracted =
    if is_revenue_event event_type then unwrap_or extracted.amount_minor (pos 0) else pos 0

abbrev pub refund_of : String → ExtractedEvent → ℤ
refund_of event_type extracted =
    if is_refund_event event_type then abs_i64 (unwrap_or extracted.amount_minor (pos 0)) else pos 0

-- The row that an event proposes; `day` is the date of the event.
unfoldable pub new_metric :
    String → String → ℕ → String → Option String → String → String → ExtractedEvent → DailyMetric
new_metric id workspace_id day app_id logical_product_id source_type event_type extracted = record {
  id = id;
  workspace_id = workspace_id;
  date = day;
  app_id = app_id;
  platform = extracted.platform;
  logical_product_id = logical_product_id;
  country = extracted.country;
  currency = unwrap_or extracted.currency "UNKNOWN";
  source_type = source_type;
  gross_revenue_minor = gross_of event_type extracted;
  estimated_proceeds_minor = pos 0;
  refund_amount_minor = refund_of event_type extracted;
  net_revenue_minor = sub_i64 (gross_of event_type extracted) (refund_of event_type extracted);
  purchase_count =
      count_of (one_of event_type ("purchase" ∷ "one_time_purchase" ∷ "trial_converted" ∷ []));
  renewal_count = count_of (str_eq event_type "renewal");
  new_subscription_count =
      count_of (str_eq event_type "purchase" && str_eq extracted.product_kind "subscription");
  active_subscription_count = pos 0;
  cancel_count = count_of (str_eq event_type "cancellation");
  expiration_count = count_of (str_eq event_type "expiration");
  refund_count = count_of (is_refund_event event_type);
  trial_start_count = count_of (str_eq event_type "trial_started");
  trial_conversion_count = count_of (str_eq event_type "trial_converted");
}

abbrev pub merged_metric : Option DailyMetric → DailyMetric → Result DailyMetric
merged_metric none excluded = ok excluded
merged_metric (some old) excluded = merge_metric old excluded

module _ {V : Type 0} where
  abbrev pub stored_metric : DailyMetric → Db V → Result DailyMetric → Result (Unit {0}) × Db V
  stored_metric excluded db (err e) = (err e, db)
  stored_metric excluded db (ok row) =
      (ok tt, record db { daily_metrics = put (same_bucket excluded) row db.daily_metrics })

  unfoldable pub write_metric : DailyMetric → Exec V (Unit {0})
  unfolding merge_metric
  write_metric excluded db =
      stored_metric excluded db
        (merged_metric (find (same_bucket excluded) db.daily_metrics) excluded)

module _ (rt : Runtime) where
  open rt use {Value, date}

  unfoldable pub update_daily_metric :
      String → String → Option String → String → String → ExtractedEvent → Exec Value (Unit {0})
  update_daily_metric workspace_id app_id logical_product_id source_type event_type extracted =
      if not (str_eq extracted.environment "production") then pure tt else do
        id ← draw_id rt "dm"
        write_metric (
            new_metric id workspace_id (date extracted.occurred_at) app_id logical_product_id
              source_type event_type extracted)
