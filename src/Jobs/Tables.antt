-- ===== src/Jobs/Tables.antt =====
-- The tables that crates/jobs/src/lib.rs and the webhooks of crates/api/src/routes.rs read and write,
-- with the columns that they name
-- (crates/api/migrations). Columns that hold the time of the last write (`created_at` and
-- `updated_at`) are kept only where a query reads them.
use revtern.Prelude.{ℕ, String, Bool, Option, List}
use revtern.Prelude.Int.{ℤ}
use revtern.Runtime.{Instant}

pub record DataSource : Type 0 where
  pub id : String
  pub workspace_id : String
  pub app_id : Option String
  pub source_type : String
  pub status : String
  pub webhook_secret_hash : Option String
  pub encrypted_credentials : Option String
  pub last_event_at : Option Instant
  pub last_sync_at : Option Instant
  pub last_error : Option String

pub record RawEvent (V : Type 0) : Type 0 where
  pub id : String
  pub workspace_id : String
  pub app_id : Option String
  pub data_source_id : String
  pub source_type : String
  pub source_event_id : String
  pub source_event_type : Option String
  pub environment : String
  pub source_app_id : Option String
  pub source_product_id : Option String
  pub occurred_at : Instant
  pub received_at : Instant
  pub payload : V
  pub processing_payload : Option V
  pub payload_sha256 : String
  pub signature_verified : Bool
  pub processing_status : String
  pub processing_error : Option String
  pub sync_run_id : Option String

-- Of the payload, the field `raw_event_id` if it holds a text: the worker reads no other.
pub record Job : Type 0 where
  pub id : String
  pub workspace_id : String
  pub app_id : Option String
  pub queue : String
  pub job_type : String
  pub raw_event_id : Option String
  pub status : String
  pub run_after : Instant
  pub attempts : ℕ
  pub max_attempts : ℕ
  pub locked_at : Option Instant
  pub locked_by : Option String
  pub last_error : Option String
  pub created_at : Instant

-- `raw_metadata` is an object with the two fields of this record.
pub record RawMetadata (V : Type 0) : Type 0 where
  pub first_payload : V
  pub warnings : List String

pub record SourceProduct (V : Type 0) : Type 0 where
  pub id : String
  pub workspace_id : String
  pub data_source_id : String
  pub app_id : Option String
  pub source_type : String
  pub platform : Option String
  pub external_product_id : Option String
  pub external_base_plan_id : Option String
  pub external_offer_id : Option String
  pub display_name : Option String
  pub product_kind : String
  pub billing_period : String
  pub amount_minor : Option ℤ
  pub currency : Option String
  pub raw_metadata : RawMetadata V
  pub mapping_state : String
  pub source_product_key : String
  pub first_seen_at : Instant
  pub last_seen_at : Instant

pub record ProductMapping : Type 0 where
  pub app_id : String
  pub source_product_id : String
  pub logical_product_id : String
  pub active : Bool
  pub created_at : Instant

-- `confidence` is in hundredths.
pub record NormalizedEvent : Type 0 where
  pub id : String
  pub workspace_id : String
  pub raw_event_id : String
  pub data_source_id : String
  pub app_id : Option String
  pub source_product_id : Option String
  pub logical_product_id : Option String
  pub event_type : String
  pub platform : Option String
  pub customer_key : Option String
  pub transaction_key : Option String
  pub original_transaction_key : Option String
  pub subscription_key : Option String
  pub amount_minor : Option ℤ
  pub currency : Option String
  pub country : Option String
  pub occurred_at : Instant
  pub environment : String
  pub normalization_version : String
  pub confidence : ℕ
  pub warnings : List String

pub record Customer : Type 0 where
  pub id : String
  pub workspace_id : String
  pub app_id : String
  pub app_user_id : Option String
  pub apple_app_account_token : Option String
  pub google_obfuscated_account_id : Option String
  pub revenuecat_app_user_id : Option String
  pub first_seen_at : Instant
  pub last_seen_at : Instant

pub record Transaction : Type 0 where
  pub id : String
  pub workspace_id : String
  pub app_id : String
  pub source_product_id : Option String
  pub logical_product_id : Option String
  pub customer_id : Option String
  pub platform : Option String
  pub transaction_key : String
  pub original_transaction_key : Option String
  pub source_type : String
  pub environment : String
  pub purchase_time : Instant
  pub amount_minor : ℤ
  pub currency : String
  pub country : Option String
  pub status : String
  pub source_status : Option String
  pub status_reason : Option String
  pub status_updated_at : Instant
  pub refunded_at : Option Instant
  pub refund_amount_minor : Option ℤ
  pub created_from_event_id : String
  pub latest_event_id : String

pub record Subscription : Type 0 where
  pub id : String
  pub workspace_id : String
  pub app_id : String
  pub source_product_id : Option String
  pub logical_product_id : Option String
  pub customer_id : Option String
  pub platform : Option String
  pub subscription_key : String
  pub original_transaction_key : Option String
  pub environment : String
  pub status : String
  pub started_at : Instant
  pub current_period_start : Option Instant
  pub current_period_end : Option Instant
  pub cancelled_at : Option Instant
  pub expired_at : Option Instant
  pub will_renew : Bool
  pub in_grace_period : Bool
  pub in_billing_retry : Bool
  pub latest_transaction_id : Option String
  pub status_updated_at : Instant

pub record DailyMetric : Type 0 where
  pub id : String
  pub workspace_id : String
  pub date : ℕ
  pub app_id : String
  pub platform : Option String
  pub logical_product_id : Option String
  pub country : Option String
  pub currency : String
  pub source_type : String
  pub gross_revenue_minor : ℤ
  pub estimated_proceeds_minor : ℤ
  pub refund_amount_minor : ℤ
  pub net_revenue_minor : ℤ
  pub purchase_count : ℤ
  pub renewal_count : ℤ
  pub new_subscription_count : ℤ
  pub active_subscription_count : ℤ
  pub cancel_count : ℤ
  pub expiration_count : ℤ
  pub refund_count : ℤ
  pub trial_start_count : ℤ
  pub trial_conversion_count : ℤ

pub record Db (V : Type 0) : Type 0 where
  pub data_sources : List DataSource
  pub raw_events : List (RawEvent V)
  pub jobs : List Job
  pub source_products : List (SourceProduct V)
  pub product_mappings : List ProductMapping
  pub normalized_events : List NormalizedEvent
  pub customers : List Customer
  pub transactions : List Transaction
  pub subscriptions : List Subscription
  pub daily_metrics : List DailyMetric
  -- how many identifiers `new_id` has drawn
  pub ids_drawn : ℕ
