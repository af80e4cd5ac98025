-- ===== src/Connectors/AppStore.antt =====
-- crates/connectors/src/lib.rs: App Store server notifications.
use mathlib.Core.Option
use revtern.Prelude.{
  ℕ, String, Bool, true, false, ◌&&◌, not, Option, none, some, List, [], ◌∷◌, ◌++◌, if◌then◌else◌,
  and_then, or_else, unwrap_or, is_some, str_eq,
}
use revtern.Runtime.{Instant, Runtime}
use revtern.Core.{◌+++◌, match_arm, infer_billing_period, infer_product_kind, source_product_key}
use revtern.Connectors.Event.{ExtractedEvent}
use revtern.Connectors.Pick.{pick_string, pick_money, pick_optional_time}
use revtern.Connectors.Environment.{event_environment}
use revtern.Connectors.Mapping.{map_app_store_type}
use revtern.Connectors.Decode.{get_str, decode_jws_payload, apple_price_minor}

abbrev pub app_store_kind_arms : List (String × String)
app_store_kind_arms =
    ("Auto-Renewable Subscription", "subscription")
    ∷ ("auto_renewable_subscription", "subscription")
    ∷ ("Consumable", "consumable")
    ∷ ("consumable", "consumable")
    ∷ ("Non-Consumable", "non_consumable")
    ∷ ("non_consumable", "non_consumable")
    ∷ ("Non-Renewing Subscription", "subscription")
    ∷ ("non_renewing_subscription", "subscription")
    ∷ []

abbrev renewal_status_arms : List (String × Bool)
renewal_status_arms = ("1", true) ∷ ("true", true) ∷ ("0", false) ∷ ("false", false) ∷ []

-- `if test { warnings.push(text) }`.
abbrev pub warn_if : Bool → String → List String
warn_if test text = if test then text ∷ [] else []

module _ (rt : Runtime) (now : ℕ → Instant) where
  open rt use {Value, get}

  abbrev decoded_at : Value → String → Option Value
  decoded_at value name = and_then (get_str rt value name) (decode_jws_payload rt)

  unfoldable pub extract_app_store : Value → String → ExtractedEvent
  extract_app_store payload fallback_id =
      let decoded_signed_payload = decoded_at payload "signedPayload" in
      let notification = unwrap_or decoded_signed_payload payload in
      let inner =
        unwrap_or (or_else (get notification "data") (get notification "signedPayloadData"))
          notification in
      let decoded_transaction = decoded_at inner "signedTransactionInfo" in
      let decoded_renewal = decoded_at inner "signedRenewalInfo" in
      let transaction =
        unwrap_or
          (or_else
            (or_else (or_else (get inner "transactionInfo") (get inner "transaction"))
              decoded_transaction)
            decoded_renewal)
          inner in
      let event_type_raw =
        unwrap_or
          (or_else (pick_string rt notification ("notificationType" ∷ "notification_type" ∷ []))
            (pick_string rt inner ("notificationType" ∷ "type" ∷ [])))
          "UNKNOWN" in
      let subtype = pick_string rt notification ("subtype" ∷ []) in
      let product_id = pick_string rt transaction ("productId" ∷ "product_id" ∷ []) in
      let bundle_id =
        or_else (pick_string rt inner ("bundleId" ∷ "bundle_id" ∷ []))
          (pick_string rt transaction ("bundleId" ∷ "bundle_id" ∷ [])) in
      let inferred_kind = infer_product_kind event_type_raw (unwrap_or product_id "") in
      let environment =
        unwrap_or
          (or_else (or_else (event_environment rt notification) (event_environment rt inner))
            (event_environment rt transaction))
          "unknown" in
      record {
        source_event_id =
            unwrap_or
              (or_else
                (pick_string rt notification ("notificationUUID" ∷ "notification_uuid" ∷ "id" ∷ []))
                (pick_string rt transaction ("transactionId" ∷ "transaction_id" ∷ [])))
              fallback_id;
        source_event_type =
            unwrap_or (Option.map (λ sub. event_type_raw +++ "." +++ sub) subtype) event_type_raw;
        environment = environment;
        source_app_id = bundle_id;
        source_product_key =
            Option.map (λ id. source_product_key "app_store" bundle_id id none) product_id;
        external_product_id = product_id;
        external_base_plan_id = none;
        external_offer_id = pick_string rt transaction ("offerIdentifier" ∷ "offer_id" ∷ []);
        display_name = product_id;
        product_kind =
            unwrap_or
              (Option.map (λ kind. unwrap_or (match_arm kind app_store_kind_arms) inferred_kind)
                (pick_string rt transaction ("type" ∷ [])))
              inferred_kind;
        billing_period = infer_billing_period (unwrap_or product_id "");
        platform = some "ios";
        normalized_event_type = map_app_store_type event_type_raw subtype;
        amount_minor =
            or_else (apple_price_minor rt transaction)
              (pick_money rt transaction ("amount_minor" ∷ "amount" ∷ []));
        currency = pick_string rt transaction ("currency" ∷ []);
        country = pick_string rt transaction ("country" ∷ "storefront" ∷ "storefrontId" ∷ []);
        customer_key = pick_string rt transaction ("appAccountToken" ∷ "app_account_token" ∷ []);
        transaction_key = pick_string rt transaction ("transactionId" ∷ "transaction_id" ∷ []);
        original_transaction_key =
            pick_string rt transaction ("originalTransactionId" ∷ "original_transaction_id" ∷ []);
        subscription_key =
            pick_string rt transaction ("originalTransactionId" ∷ "original_transaction_id" ∷ []);
        occurred_at =
            unwrap_or
              (or_else (pick_optional_time rt notification ("signedDate" ∷ [])) (
                pick_optional_time rt transaction
                  ("signedDate" ∷ "purchaseDate" ∷ "expiresDate" ∷ [])))
              (now 0);
        purchase_time =
            pick_optional_time rt transaction ("purchaseDate" ∷ "originalPurchaseDate" ∷ []);
        period_start = pick_optional_time rt transaction ("purchaseDate" ∷ []);
        period_end = pick_optional_time rt transaction ("expiresDate" ∷ "revocationDate" ∷ []);
        will_renew =
            and_then (pick_string rt (unwrap_or decoded_renewal inner) ("autoRenewStatus" ∷ []))
              (λ value. match_arm value renewal_status_arms);
        warnings =
            warn_if (is_some (get payload "signedPayload"))
              "App Store signedPayload and nested JWS payloads were decoded for ingestion."
            ++ warn_if
                (is_some (get payload "signedPayload") && not (is_some decoded_signed_payload))
                "App Store signedPayload could not be decoded as compact JWS."
            ++ warn_if
                (is_some (get inner "signedTransactionInfo") && not (is_some decoded_transaction))
                "App Store signedTransactionInfo could not be decoded as compact JWS."
            ++ warn_if (str_eq environment "unknown")
                "App Store payload did not include an environment field.";
      }
