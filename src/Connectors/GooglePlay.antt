-- ===== src/Connectors/GooglePlay.antt =====
-- crates/connectors/src/lib.rs: Google Play real-time developer notifications, and what the
-- purchase lookup added to them.
use mathlib.Core.Option
use revtern.Prelude.{
  ℕ, String, Bool, true, false, ◌&&◌, ◌||◌, not, Option, none, some, List, [], ◌∷◌, ◌++◌,
  if◌then◌else◌, and_then, or_else, unwrap_or, is_some, str_eq,
}
use revtern.Runtime.{Instant, Runtime, View, null, bool, number, string, array, object}
use revtern.Core.{◌+++◌, infer_billing_period, infer_product_kind, source_product_key}
use revtern.Connectors.Event.{ExtractedEvent}
use revtern.Connectors.Pick.{pick_string, pick_money, pick_time, pick_optional_time, pick_bool}
use revtern.Connectors.Environment.{event_environment}
use revtern.Connectors.Mapping.{map_google_type}
use revtern.Connectors.Decode.{decode_pubsub_data}
use revtern.Connectors.AppStore.{warn_if}

abbrev lookup_failure : Option String → List String
lookup_failure none = []
lookup_failure (some error) = ("Google Play purchase environment lookup failed: " +++ error) ∷ []

module _ (rt : Runtime) (now : ℕ → Instant) where
  open rt use {Value, Number, view, get}

  abbrev is_object : View Number → Bool
  is_object object = true
  is_object null = false
  is_object (bool b) = false
  is_object (number n) = false
  is_object (string text) = false
  is_object array = false

  -- `lookup.and_then(|value| pick_string(value, names))`, and the same of times.
  abbrev pick_in : Option Value → List String → Option String
  pick_in lookup names = and_then lookup (λ value. pick_string rt value names)

  abbrev time_in : Option Value → List String → Option Instant
  time_in lookup names = and_then lookup (λ value. pick_optional_time rt value names)

  unfoldable pub extract_google_play : Value → String → ExtractedEvent
  extract_google_play payload fallback_id =
      let decoded = unwrap_or (decode_pubsub_data rt payload) payload in
      let source = if is_object (view decoded) then decoded else payload in
      let subscription = get source "subscriptionNotification" in
      let one_time = get source "oneTimeProductNotification" in
      let test_notification = get source "testNotification" in
      let event = unwrap_or (or_else subscription one_time) source in
      let event_type_raw =
        unwrap_or (pick_string rt event ("notificationType" ∷ "event_type" ∷ "type" ∷ []))
          "UNKNOWN" in
      let lookup = get source "googlePlayPurchaseLookup" in
      let product_id =
        or_else (pick_string rt event ("subscriptionId" ∷ "sku" ∷ "productId" ∷ "product_id" ∷ []))
          (pick_in lookup ("product_id" ∷ [])) in
      let package_name = pick_string rt source ("packageName" ∷ "package_name" ∷ []) in
      let base_plan_id =
        or_else (pick_string rt event ("basePlanId" ∷ "base_plan_id" ∷ []))
          (pick_in lookup ("base_plan_id" ∷ [])) in
      let environment =
        unwrap_or
          (or_else (and_then lookup (event_environment rt))
            (if is_some test_notification then some "test" else event_environment rt source))
          "unknown" in
      let amount_minor =
        or_else (pick_money rt source ("amount_minor" ∷ "price" ∷ []))
          (and_then lookup (λ value. pick_money rt value ("amount_minor" ∷ []))) in
      record {
        source_event_id =
            unwrap_or
              (or_else
                (or_else
                  (pick_string rt (unwrap_or (get payload "message") payload)
                    ("messageId" ∷ "message_id" ∷ "id" ∷ []))
                  (pick_string rt source ("pubsubMessageId" ∷ "messageId" ∷ "message_id" ∷ [])))
                (pick_string rt event ("purchaseToken" ∷ "purchase_token" ∷ [])))
              fallback_id;
        source_event_type = event_type_raw;
        environment = environment;
        source_app_id = package_name;
        source_product_key =
            Option.map (λ id. source_product_key "google_play" package_name id base_plan_id)
              product_id;
        external_product_id = product_id;
        external_base_plan_id = base_plan_id;
        external_offer_id = pick_string rt event ("offerId" ∷ "offer_id" ∷ []);
        display_name = product_id;
        product_kind =
            if is_some subscription
            then "subscription"
            else infer_product_kind event_type_raw (unwrap_or product_id "");
        billing_period = infer_billing_period (unwrap_or product_id "");
        platform = some "android";
        normalized_event_type =
            map_google_type event_type_raw (is_some subscription) (is_some one_time);
        amount_minor = amount_minor;
        currency =
            or_else (pick_string rt source ("currency" ∷ [])) (pick_in lookup ("currency" ∷ []));
        country =
            or_else (pick_string rt source ("country" ∷ "regionCode" ∷ []))
              (pick_in lookup ("region_code" ∷ []));
        customer_key =
            or_else (pick_string rt source ("obfuscatedExternalAccountId" ∷ "customer_id" ∷ []))
              (pick_in lookup ("obfuscated_external_account_id" ∷ []));
        transaction_key =
            or_else
              (or_else (pick_in lookup ("order_id" ∷ []))
                (pick_string rt event ("orderId" ∷ "order_id" ∷ [])))
              (pick_string rt event ("purchaseToken" ∷ "purchase_token" ∷ []));
        original_transaction_key = pick_string rt event ("purchaseToken" ∷ "purchase_token" ∷ []);
        subscription_key = pick_string rt event ("purchaseToken" ∷ "purchase_token" ∷ []);
        occurred_at =
            pick_time rt (now 0) source
              ("eventTimeMillis" ∷ "event_time_millis" ∷ "occurred_at" ∷ []);
        purchase_time = time_in lookup ("purchase_time" ∷ "start_time" ∷ []);
        period_start = time_in lookup ("start_time" ∷ []);
        period_end = time_in lookup ("expiry_time" ∷ []);
        will_renew = and_then lookup (λ value. pick_bool rt value ("will_renew" ∷ []));
        warnings =
            warn_if (not (is_some amount_minor))
              "Google Play RTDN does not include price by default; revenue may be zero unless the webhook payload includes amount fields."
            ++ warn_if (is_some subscription && not (is_some product_id))
                "Google Play subscription notification did not include a product id."
            ++ warn_if (str_eq environment "unknown" && (is_some subscription || is_some one_time))
                "Google Play RTDN alone does not identify whether this purchase is production or test; configure Android Publisher API access to verify purchase tokens."
            ++ lookup_failure (pick_in lookup ("error" ∷ []));
      }
