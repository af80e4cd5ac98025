-- ===== src/Connectors/Revenuecat.antt =====
-- crates/connectors/src/lib.rs: RevenueCat's events.
use mathlib.Core.Option
use revtern.Prelude.{ℕ, String, none, [], ◌∷◌, unwrap_or}
use revtern.Runtime.{Instant, Runtime}
use revtern.Core.{infer_billing_period, infer_product_kind, source_product_key}
use revtern.Connectors.Event.{ExtractedEvent}
use revtern.Connectors.Pick.{pick_string, pick_money, pick_time, pick_optional_time, pick_bool}
use revtern.Connectors.Environment.{event_environment}
use revtern.Connectors.Mapping.{normalize_platform, map_revenuecat_type}

-- `now n` is what the `n`-th reading of the clock shows.
module _ (rt : Runtime) (now : ℕ → Instant) where
  open rt use {Value, get}

  unfoldable pub extract_revenuecat : Value → String → ExtractedEvent
  extract_revenuecat payload fallback_id =
      let event = unwrap_or (get payload "event") payload in
      let event_type_raw =
        unwrap_or (pick_string rt event ("type" ∷ "event_type" ∷ "notification_type" ∷ []))
          "UNKNOWN" in
      let product_id = pick_string rt event (
        "product_id" ∷ "product_identifier" ∷ "store_product_identifier" ∷ "presented_offering_id"
        ∷ []) in
      let source_app_id = pick_string rt event ("app_id" ∷ "project_id" ∷ "store" ∷ []) in
      record {
        source_event_id =
            unwrap_or (pick_string rt event ("id" ∷ "event_id" ∷ "transaction_id" ∷ []))
              fallback_id;
        source_event_type = event_type_raw;
        environment = unwrap_or (event_environment rt event) "production";
        source_app_id = source_app_id;
        source_product_key =
            Option.map (λ id. source_product_key "revenuecat" source_app_id id none) product_id;
        external_product_id = product_id;
        external_base_plan_id = none;
        external_offer_id = pick_string rt event ("offer_id" ∷ "package_id" ∷ []);
        display_name = product_id;
        product_kind =
            unwrap_or (pick_string rt event ("product_kind" ∷ []))
              (infer_product_kind event_type_raw (unwrap_or product_id ""));
        billing_period =
            unwrap_or (pick_string rt event ("period" ∷ "billing_period" ∷ []))
              (infer_billing_period (unwrap_or product_id ""));
        platform = Option.map normalize_platform (pick_string rt event ("store" ∷ "platform" ∷ []));
        normalized_event_type = map_revenuecat_type event_type_raw;
        amount_minor =
            pick_money rt event
              ("price_in_purchased_currency" ∷ "price" ∷ "amount" ∷ "amount_minor" ∷ []);
        currency = pick_string rt event ("currency" ∷ "currency_code" ∷ "price_currency" ∷ []);
        country = pick_string rt event ("country_code" ∷ "country" ∷ []);
        customer_key = pick_string rt event ("app_user_id" ∷ "subscriber_id" ∷ "customer_id" ∷ []);
        transaction_key = pick_string rt event ("transaction_id" ∷ "store_transaction_id" ∷ []);
        original_transaction_key =
            pick_string rt event ("original_transaction_id" ∷ "original_store_transaction_id" ∷ []);
        subscription_key =
            pick_string rt event
              ("original_transaction_id" ∷ "subscription_id" ∷ "app_user_id" ∷ []);
        occurred_at = pick_time rt (now 0) event (
            "event_timestamp_ms" ∷ "purchased_at_ms" ∷ "expiration_at_ms" ∷ "event_timestamp"
            ∷ "occurred_at" ∷ []);
        purchase_time = pick_optional_time rt event ("purchased_at_ms" ∷ "purchased_at" ∷ []);
        period_start = pick_optional_time rt event ("purchased_at_ms" ∷ "period_start" ∷ []);
        period_end =
            pick_optional_time rt event ("expiration_at_ms" ∷ "expires_at_ms" ∷ "period_end" ∷ []);
        will_renew = pick_bool rt event ("will_renew" ∷ []);
        warnings = [];
      }
