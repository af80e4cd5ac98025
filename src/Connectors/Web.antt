-- ===== src/Connectors/Web.antt =====
-- crates/connectors/src/lib.rs: Stripe's and Paddle's events.
use mathlib.Core.Option
use revtern.Prelude.{ℕ, String, not, none, some, [], ◌∷◌, if◌then◌else◌, or_else, unwrap_or, max}
use revtern.Prelude.Text.{contains, to_ascii_uppercase}
use revtern.Runtime.{Instant, Runtime}
use revtern.Core.{infer_billing_period, source_product_key}
use revtern.Connectors.Event.{ExtractedEvent}
use revtern.Connectors.Pick.{pick_string, pick_money, pick_time, pick_optional_time, pick_bool}
use revtern.Connectors.Environment.{event_environment}
use revtern.Connectors.Mapping.{map_common_type}

module _ (rt : Runtime) (now : ℕ → Instant) where
  open rt use {Value, get, pointer}

  unfoldable pub extract_stripe : Value → String → ExtractedEvent
  extract_stripe payload fallback_id =
      let inner = unwrap_or (pointer payload "/data/object") payload in
      let event_type = unwrap_or (pick_string rt payload ("type" ∷ [])) "stripe.event" in
      let price =
        unwrap_or (or_else (pointer inner "/lines/data/0/price") (get inner "price")) inner in
      let product_id =
        or_else (pick_string rt price ("id" ∷ "price" ∷ "price_id" ∷ []))
          (pick_string rt inner ("price_id" ∷ "product_id" ∷ [])) in
      record {
        source_event_id = unwrap_or (pick_string rt payload ("id" ∷ [])) fallback_id;
        source_event_type = event_type;
        environment =
            unwrap_or (or_else (event_environment rt payload) (event_environment rt inner))
              "unknown";
        source_app_id = pick_string rt payload ("account" ∷ []);
        source_product_key =
            Option.map
              (λ id. source_product_key "stripe" (pick_string rt payload ("account" ∷ [])) id none)
              product_id;
        external_product_id = product_id;
        external_base_plan_id = none;
        external_offer_id = none;
        display_name = product_id;
        product_kind =
            if contains event_type "subscription" then "subscription" else "non_consumable";
        billing_period =
            unwrap_or (pick_string rt price ("recurring.interval" ∷ []))
              (infer_billing_period (unwrap_or product_id ""));
        platform = some "web";
        normalized_event_type = some (map_common_type event_type);
        amount_minor = pick_money rt inner ("amount_paid" ∷ "amount" ∷ "unit_amount" ∷ []);
        currency = Option.map to_ascii_uppercase (pick_string rt inner ("currency" ∷ []));
        country = pick_string rt inner ("country" ∷ []);
        customer_key = pick_string rt inner ("customer" ∷ "customer_id" ∷ []);
        transaction_key = pick_string rt inner ("id" ∷ "payment_intent" ∷ "charge" ∷ []);
        original_transaction_key = none;
        subscription_key = pick_string rt inner ("subscription" ∷ []);
        occurred_at =
            max (pick_time rt (now 0) payload ("created" ∷ []))
              (pick_time rt (now 1) inner ("created" ∷ []));
        purchase_time = pick_optional_time rt inner ("created" ∷ "created_at" ∷ []);
        period_start = pick_optional_time rt inner ("period_start" ∷ "current_period_start" ∷ []);
        period_end = pick_optional_time rt inner ("period_end" ∷ "current_period_end" ∷ []);
        will_renew =
            or_else (pick_bool rt inner ("will_renew" ∷ []))
              (Option.map not (pick_bool rt inner ("cancel_at_period_end" ∷ [])));
        warnings =
            "Stripe connector is webhook-only in this MVP; metrics use the received event payload."
            ∷ [];
      }

  unfoldable pub extract_paddle : Value → String → ExtractedEvent
  extract_paddle payload fallback_id =
      let inner = unwrap_or (get payload "data") payload in
      let event_type =
        unwrap_or (pick_string rt payload ("event_type" ∷ "type" ∷ [])) "paddle.event" in
      let product_id = pick_string rt inner ("price_id" ∷ "product_id" ∷ "id" ∷ []) in
      record {
        source_event_id = unwrap_or (pick_string rt payload ("event_id" ∷ "id" ∷ [])) fallback_id;
        source_event_type = event_type;
        environment =
            unwrap_or (or_else (event_environment rt payload) (event_environment rt inner))
              "unknown";
        source_app_id = none;
        source_product_key = Option.map (λ id. source_product_key "paddle" none id none) product_id;
        external_product_id = product_id;
        external_base_plan_id = none;
        external_offer_id = none;
        display_name = product_id;
        product_kind =
            if contains event_type "subscription" then "subscription" else "non_consumable";
        billing_period = infer_billing_period (unwrap_or product_id "");
        platform = some "web";
        normalized_event_type = some (map_common_type event_type);
        amount_minor = pick_money rt inner ("amount" ∷ "amount_minor" ∷ "total" ∷ []);
        currency =
            Option.map to_ascii_uppercase
              (pick_string rt inner ("currency_code" ∷ "currency" ∷ []));
        country = pick_string rt inner ("country_code" ∷ "country" ∷ []);
        customer_key = pick_string rt inner ("customer_id" ∷ "customer" ∷ []);
        transaction_key = pick_string rt inner ("transaction_id" ∷ "id" ∷ []);
        original_transaction_key = none;
        subscription_key = pick_string rt inner ("subscription_id" ∷ "subscription" ∷ []);
        occurred_at =
            max (pick_time rt (now 0) payload ("occurred_at" ∷ "event_time" ∷ []))
              (pick_time rt (now 1) inner ("created_at" ∷ []));
        purchase_time = pick_optional_time rt inner ("created_at" ∷ "billed_at" ∷ []);
        period_start =
            pick_optional_time rt inner ("current_billing_period.starts_at" ∷ "period_start" ∷ []);
        period_end =
            pick_optional_time rt inner ("current_billing_period.ends_at" ∷ "period_end" ∷ []);
        will_renew = pick_bool rt inner ("will_renew" ∷ "scheduled_change" ∷ []);
        warnings =
            "Paddle connector is webhook-only in this MVP; metrics use the received event payload."
            ∷ [];
      }
