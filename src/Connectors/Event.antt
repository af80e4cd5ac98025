-- ===== src/Connectors/Event.antt =====
-- crates/connectors/src/lib.rs: the record that every provider's payload is turned into.
use revtern.Prelude.{String, Bool, Option, List}
use revtern.Prelude.Int.{ℤ}
use revtern.Runtime.{Instant}

pub record ExtractedEvent : Type 0 where
  pub source_event_id : String
  pub source_event_type : String
  pub environment : String
  pub source_app_id : Option String
  pub source_product_key : Option String
  pub external_product_id : Option String
  pub external_base_plan_id : Option String
  pub external_offer_id : Option String
  pub display_name : Option String
  pub product_kind : String
  pub billing_period : String
  pub platform : Option String
  pub normalized_event_type : Option String
  pub amount_minor : Option ℤ
  pub currency : Option String
  pub country : Option String
  pub customer_key : Option String
  pub transaction_key : Option String
  pub original_transaction_key : Option String
  pub subscription_key : Option String
  pub occurred_at : Instant
  pub purchase_time : Option Instant
  pub period_start : Option Instant
  pub period_end : Option Instant
  pub will_renew : Option Bool
  pub warnings : List String
