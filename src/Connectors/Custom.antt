-- ===== src/Connectors/Custom.antt =====
-- crates/connectors/src/lib.rs: the custom API, CSV rows, and any source without a reader.
use mathlib.Core.Option
use revtern.Prelude.{ℕ, String, Option, none, some, [], ◌∷◌, or_else, unwrap_or}
use revtern.Runtime.{Instant, Runtime}
use revtern.Core.{infer_billing_period, infer_product_kind, source_product_key}
use revtern.Connectors.Event.{ExtractedEvent}
use revtern.Connectors.Pick.{pick_string, pick_money, pick_time, pick_optional_time, pick_bool}
use revtern.Connectors.Environment.{event_environment}
use revtern.Connectors.Mapping.{normalize_platform, map_common_type}

-- The new key of an event, by cases on its product.
abbrev pub generic_key : String → ExtractedEvent → Option String → Option String
generic_key source_type event none = event.source_product_key
generic_key source_type event (some product_id) =
    some (source_product_key source_type event.source_app_id product_id event.external_base_plan_id)

module _ (rt : Runtime) (now : ℕ → Instant) where
  open rt use {Value}

  unfoldable pub extract_custom : Value → String → ExtractedEvent
  extract_custom payload fallback_id =
      let event_type_raw =
        unwrap_or (pick_string rt payload ("event_type" ∷ "type" ∷ [])) "purchase" in
      let product_id = pick_string rt payload ("product_id" ∷ "source_product_id" ∷ "sku" ∷ []) in
      let source_app_id = pick_string rt payload ("app_id" ∷ "bundle_id" ∷ "package_name" ∷ []) in
      let external_base_plan_id =
        pick_string rt payload ("base_plan_id" ∷ "external_base_plan_id" ∷ []) in
      record {
        source_event_id =
            unwrap_or (pick_string rt payload ("event_id" ∷ "id" ∷ "transaction_id" ∷ []))
              fallback_id;
        source_event_type = event_type_raw;
        environment = unwrap_or (event_environment rt payload) "unknown";
        source_app_id = source_app_id;
        source_product_key =
            Option.map
              (λ id. source_product_key "custom_api" source_app_id id external_base_plan_id)
              product_id;
        external_product_id = product_id;
        external_base_plan_id = external_base_plan_id;
        external_offer_id = pick_string rt payload ("offer_id" ∷ []);
        display_name =
            or_else (pick_string rt payload ("display_name" ∷ "product_name" ∷ [])) product_id;
        product_kind =
            unwrap_or (pick_string rt payload ("product_kind" ∷ []))
              (infer_product_kind event_type_raw (unwrap_or product_id ""));
        billing_period =
            unwrap_or (pick_string rt payload ("billing_period" ∷ []))
              (infer_billing_period (unwrap_or product_id ""));
        platform = Option.map normalize_platform (pick_string rt payload ("platform" ∷ []));
        normalized_event_type = some (map_common_type event_type_raw);
        amount_minor = pick_money rt payload ("amount_minor" ∷ "amount" ∷ "price" ∷ []);
        currency = pick_string rt payload ("currency" ∷ []);
        country = pick_string rt payload ("country" ∷ "country_code" ∷ []);
        customer_key = pick_string rt payload ("customer_id" ∷ "customer_key" ∷ "app_user_id" ∷ []);
        transaction_key = pick_string rt payload ("transaction_id" ∷ "transaction_key" ∷ []);
        original_transaction_key =
            pick_string rt payload ("original_transaction_id" ∷ "original_transaction_key" ∷ []);
        subscription_key =
            pick_string rt payload
              ("subscription_id" ∷ "subscription_key" ∷ "original_transaction_id" ∷ []);
        occurred_at =
            pick_time rt (now 0) payload ("occurred_at" ∷ "event_time" ∷ "purchase_time" ∷ []);
        purchase_time =
            pick_optional_time rt payload ("purchase_time" ∷ "purchased_at" ∷ "occurred_at" ∷ []);
        period_start = pick_optional_time rt payload ("current_period_start" ∷ "period_start" ∷ []);
        period_end =
            pick_optional_time rt payload ("current_period_end" ∷ "period_end" ∷ "expires_at" ∷ []);
        will_renew = pick_bool rt payload ("will_renew" ∷ "auto_renewing" ∷ []);
        warnings = [];
      }

  unfoldable pub extract_generic : String → Value → String → ExtractedEvent
  extract_generic source_type payload fallback_id =
      let event = extract_custom payload fallback_id in
      record event { source_product_key = generic_key source_type event event.external_product_id }
