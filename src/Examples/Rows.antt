-- ===== src/Examples/Rows.antt =====
-- Rows and a database to try the worker on: one workspace, one application, one renewal.
use revtern.Prelude.{ℕ, true, false, none, some, [], ◌∷◌}
use revtern.Prelude.Int.{pos}
use revtern.Runtime.{Instant}
use revtern.Jobs.Tables.{
  DataSource, RawEvent, Job, NormalizedEvent, Customer, Transaction, Subscription, DailyMetric, Db,
}
use revtern.Examples.Platform.{Json, text, int, fields}

-- Long after every other time, and a clock that stands still.
abbrev pub today : Instant
today = 2_000_000_000

abbrev pub still : ℕ → Instant
still n = today

abbrev pub renewal_payload : Json
renewal_payload = fields (
    ("type", text "renewal")
    ∷ ("product_id", text "pro.monthly")
    ∷ ("customer_id", text "ana")
    ∷ ("amount_minor", int (pos 999))
    ∷ ("environment", text "production")
    ∷ ("transaction_id", text "t1")
    ∷ [])

abbrev pub source : DataSource
source = record {
  id = "ds";
  workspace_id = "ws";
  app_id = some "app";
  source_type = "custom_api";
  status = "active";
  webhook_secret_hash = none;
  encrypted_credentials = none;
  last_event_at = none;
  last_sync_at = none;
  last_error = none;
}

abbrev pub raw_renewal : RawEvent Json
raw_renewal = record {
  id = "raw";
  workspace_id = "ws";
  app_id = some "app";
  data_source_id = "ds";
  source_type = "custom_api";
  source_event_id = "e1";
  source_event_type = none;
  environment = "unknown";
  source_app_id = none;
  source_product_id = none;
  occurred_at = 100;
  received_at = 120;
  payload = renewal_payload;
  processing_payload = none;
  payload_sha256 = "00";
  signature_verified = true;
  processing_status = "received";
  processing_error = none;
  sync_run_id = none;
}

abbrev pub renewal_event : NormalizedEvent
renewal_event = record {
  id = "ne";
  workspace_id = "ws";
  raw_event_id = "raw";
  data_source_id = "ds";
  app_id = some "app";
  source_product_id = none;
  logical_product_id = none;
  event_type = "renewal";
  platform = none;
  customer_key = some "ana";
  transaction_key = some "t1";
  original_transaction_key = none;
  subscription_key = none;
  amount_minor = some (pos 999);
  currency = none;
  country = none;
  occurred_at = 100;
  environment = "production";
  normalization_version = "mvp_v1";
  confidence = 92;
  warnings = [];
}

abbrev pub waiting_job : Job
waiting_job = record {
  id = "job";
  workspace_id = "ws";
  app_id = some "app";
  queue = "default";
  job_type = "normalize_raw_event";
  raw_event_id = some "raw";
  status = "failed";
  run_after = 500;
  attempts = 1;
  max_attempts = 5;
  locked_at = none;
  locked_by = none;
  last_error = some "bigint out of range";
  created_at = 100;
}

abbrev pub other_job : Job
other_job = record waiting_job { id = "job_b"; status = "queued"; attempts = 0; run_after = 400 }

abbrev pub ana : Customer
ana = record {
  id = "cus";
  workspace_id = "ws";
  app_id = "app";
  app_user_id = some "ana";
  apple_app_account_token = none;
  google_obfuscated_account_id = none;
  revenuecat_app_user_id = none;
  first_seen_at = 50;
  last_seen_at = 50;
}

abbrev pub paid : Transaction
paid = record {
  id = "txn";
  workspace_id = "ws";
  app_id = "app";
  source_product_id = none;
  logical_product_id = none;
  customer_id = none;
  platform = none;
  transaction_key = "t1";
  original_transaction_key = none;
  source_type = "custom_api";
  environment = "production";
  purchase_time = 100;
  amount_minor = pos 999;
  currency = "EUR";
  country = none;
  status = "paid";
  source_status = some "purchase";
  status_reason = none;
  status_updated_at = 100;
  refunded_at = none;
  refund_amount_minor = none;
  created_from_event_id = "ne1";
  latest_event_id = "ne1";
}

-- A refund of a part, and one of another part at a later time.
abbrev pub first_refund : Transaction
first_refund = record paid {
  status = "partially_refunded";
  status_updated_at = 200;
  refunded_at = some 200;
  refund_amount_minor = some (pos 300);
  latest_event_id = "ne2";
}

abbrev pub second_refund : Transaction
second_refund = record paid {
  status = "refunded";
  status_updated_at = 300;
  refunded_at = some 300;
  refund_amount_minor = some (pos 699);
  latest_event_id = "ne3";
}

abbrev pub active_subscription : Subscription
active_subscription = record {
  id = "sub";
  workspace_id = "ws";
  app_id = "app";
  source_product_id = none;
  logical_product_id = none;
  customer_id = none;
  platform = none;
  subscription_key = "s1";
  original_transaction_key = none;
  environment = "production";
  status = "active";
  started_at = 100;
  current_period_start = none;
  current_period_end = none;
  cancelled_at = none;
  expired_at = none;
  will_renew = true;
  in_grace_period = false;
  in_billing_retry = false;
  latest_transaction_id = none;
  status_updated_at = 100;
}

abbrev pub counted_day : DailyMetric
counted_day = record {
  id = "dm";
  workspace_id = "ws";
  date = 0;
  app_id = "app";
  platform = none;
  logical_product_id = none;
  country = none;
  currency = "UNKNOWN";
  source_type = "custom_api";
  gross_revenue_minor = pos 999;
  estimated_proceeds_minor = pos 0;
  refund_amount_minor = pos 300;
  net_revenue_minor = pos 699;
  purchase_count = pos 0;
  renewal_count = pos 1;
  new_subscription_count = pos 0;
  active_subscription_count = pos 0;
  cancel_count = pos 0;
  expiration_count = pos 0;
  refund_count = pos 1;
  trial_start_count = pos 0;
  trial_conversion_count = pos 0;
}

-- The renewal was projected once, and its job waits to be run again.
abbrev pub after_renewal : Db Json
after_renewal = record {
  data_sources = source ∷ [];
  raw_events = raw_renewal ∷ [];
  jobs = waiting_job ∷ other_job ∷ [];
  source_products = [];
  product_mappings = [];
  normalized_events = renewal_event ∷ [];
  customers = ana ∷ [];
  transactions = paid ∷ [];
  subscriptions = active_subscription ∷ [];
  daily_metrics = counted_day ∷ [];
  ids_drawn = 7;
}
