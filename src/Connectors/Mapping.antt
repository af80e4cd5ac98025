-- ===== src/Connectors/Mapping.antt =====
-- crates/connectors/src/lib.rs: from the providers' names of events and platforms to Revtern's.
pub mod Revenue
use revtern.Prelude.{
  String, Bool, ◌&&◌, not, Option, some, List, [], ◌∷◌, str_eq, if◌then◌else◌, unwrap_or,
}
use revtern.Prelude.Text.{to_ascii_lowercase, to_ascii_uppercase, contains}
use revtern.Core.{contains_any, first_case, match_arm}

unfoldable pub normalize_platform : String → String
normalize_platform raw =
    let lower = to_ascii_lowercase raw in
    first_case
      ((contains_any lower ("app_store" ∷ "ios" ∷ "mac" ∷ []), "ios")
        ∷ (contains_any lower ("play" ∷ "android" ∷ []), "android")
        ∷ [])
      lower

unfoldable pub map_common_type : String → String
map_common_type raw =
    let lower = to_ascii_lowercase raw in
    first_case
      ((contains lower "trial" && contains lower "convert", "trial_converted")
        ∷ (contains lower "trial", "trial_started")
        ∷ (contains_any lower ("renew" ∷ "invoice.paid" ∷ []), "renewal")
        ∷ (contains lower "cancel", "cancellation")
        ∷ (contains lower "expire", "expiration")
        ∷ (contains_any lower ("refund" ∷ "charge.refunded" ∷ []), "refund")
        ∷ (contains_any lower ("revoke" ∷ "chargeback" ∷ []), "revocation")
        ∷ (contains_any lower ("billing" ∷ "fail" ∷ []), "billing_issue")
        ∷ (contains_any lower ("reactivat" ∷ "recover" ∷ []), "reactivation")
        ∷ (contains lower "consume", "consumption")
        ∷ (contains_any lower ("purchase" ∷ "paid" ∷ "payment" ∷ []), "purchase")
        ∷ [])
      "unknown"

abbrev pub revenuecat_arms : List (String × String)
revenuecat_arms =
    ("INITIAL_PURCHASE", "purchase")
    ∷ ("NON_RENEWING_PURCHASE", "purchase")
    ∷ ("RENEWAL", "renewal")
    ∷ ("CANCELLATION", "cancellation")
    ∷ ("EXPIRATION", "expiration")
    ∷ ("UNCANCELLATION", "reactivation")
    ∷ ("BILLING_ISSUE", "billing_issue")
    ∷ ("PRODUCT_CHANGE", "product_change")
    ∷ ("TRANSFER", "product_change")
    ∷ ("REFUND", "refund")
    ∷ ("TRIAL_STARTED", "trial_started")
    ∷ ("TRIAL_CONVERTED", "trial_converted")
    ∷ []

-- `_ => return Some(map_common_type(raw))` is the default.
unfoldable pub map_revenuecat_type : String → Option String
map_revenuecat_type raw =
    some (unwrap_or (match_arm (to_ascii_uppercase raw) revenuecat_arms) (map_common_type raw))

-- A guarded arm whose guard fails falls through to the next arm of the same name.
abbrev pub app_store_arms : String → List (String × String)
app_store_arms subtype =
    ("SUBSCRIBED", if str_eq subtype "RESUBSCRIBE" then "reactivation" else "purchase")
    ∷ ("DID_RECOVER", "reactivation")
    ∷ ("DID_RENEW", "renewal")
    ∷ (
      "DID_CHANGE_RENEWAL_STATUS",
      if str_eq subtype "AUTO_RENEW_ENABLED"
          then "reactivation"
          else if str_eq subtype "AUTO_RENEW_DISABLED"
          then "cancellation"
          else "unknown",
    )
    ∷ ("DID_CHANGE_RENEWAL_PREF", "product_change")
    ∷ ("EXPIRED", "expiration")
    ∷ ("REFUND", "refund")
    ∷ ("REFUND_DECLINED", "refund_declined")
    ∷ ("CONSUMPTION_REQUEST", "consumption")
    ∷ ("GRACE_PERIOD_EXPIRED", "expiration")
    ∷ (
      "DID_FAIL_TO_RENEW",
      if str_eq subtype "GRACE_PERIOD" then "grace_period_started" else "billing_issue",
    )
    ∷ ("REVOKE", "revocation")
    ∷ []

unfoldable pub map_app_store_type : String → Option String → Option String
map_app_store_type raw subtype =
    let upper = to_ascii_uppercase raw in
    let subtype_upper = to_ascii_uppercase (unwrap_or subtype "") in
    some (unwrap_or (match_arm upper (app_store_arms subtype_upper)) (map_common_type raw))

abbrev pub google_one_time_arms : List (String × String)
google_one_time_arms =
    ("1", "one_time_purchase")
    ∷ ("one_time_product_purchased", "one_time_purchase")
    ∷ ("2", "cancellation")
    ∷ ("one_time_product_canceled", "cancellation")
    ∷ []

abbrev pub google_subscription_arms : List (String × String)
google_subscription_arms =
    ("1", "reactivation")
    ∷ ("subscription_recovered", "reactivation")
    ∷ ("2", "renewal")
    ∷ ("subscription_renewed", "renewal")
    ∷ ("3", "cancellation")
    ∷ ("subscription_canceled", "cancellation")
    ∷ ("4", "purchase")
    ∷ ("subscription_purchased", "purchase")
    ∷ ("5", "billing_issue")
    ∷ ("subscription_on_hold", "billing_issue")
    ∷ ("6", "grace_period_started")
    ∷ ("subscription_in_grace_period", "grace_period_started")
    ∷ ("7", "reactivation")
    ∷ ("subscription_restarted", "reactivation")
    ∷ ("12", "revocation")
    ∷ ("subscription_revoked", "revocation")
    ∷ ("13", "expiration")
    ∷ ("subscription_expired", "expiration")
    ∷ []

unfoldable pub map_google_type : String → Bool → Bool → Option String
map_google_type raw is_subscription is_one_time =
    let normalized = to_ascii_lowercase raw in
    if is_one_time
    then some (unwrap_or (match_arm normalized google_one_time_arms) "unknown")
    else if not is_subscription
    then some "unknown"
    else some (unwrap_or (match_arm normalized google_subscription_arms) (map_common_type raw))
