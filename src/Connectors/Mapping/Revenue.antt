-- ===== src/Connectors/Mapping/Revenue.antt =====
-- Which store notifications bring revenue in, and which take it back.
use revtern.Prelude.{
  String, Bool, true, false, ◌&&◌, ◌||◌, not, ◌≡◌, refl, Option, some, List, [], ◌∷◌, All, str_eq,
  unwrap_or, Bool-cases, inl, inr,
}
use revtern.Prelude.Text.{to_ascii_uppercase, to_ascii_lowercase}
use revtern.Core.{one_of, match_arm, is_revenue_event, is_refund_event}
use revtern.Core.Vocabulary.{one_of-All}
use revtern.Connectors.Mapping.{
  map_app_store_type, app_store_arms, map_common_type, map_google_type, google_subscription_arms,
}

-- The notification types that Apple documents and the mapping names.
abbrev pub app_store_names : List String
app_store_names =
    "SUBSCRIBED" ∷ "DID_RECOVER" ∷ "DID_RENEW" ∷ "DID_CHANGE_RENEWAL_STATUS"
    ∷ "DID_CHANGE_RENEWAL_PREF" ∷ "EXPIRED" ∷ "REFUND" ∷ "REFUND_DECLINED" ∷ "CONSUMPTION_REQUEST"
    ∷ "GRACE_PERIOD_EXPIRED" ∷ "DID_FAIL_TO_RENEW" ∷ "REVOKE" ∷ []

-- A first subscription and a renewal are sales; subscribing again is not counted as one.
abbrev pub app_store_sells : String → String → Bool
app_store_sells name subtype =
    str_eq name "DID_RENEW" || str_eq name "SUBSCRIBED" && not (str_eq subtype "RESUBSCRIBE")

-- A type counts as a sale and as a refund as the two flags say.
abbrev pub CountsAs : Option String → Bool → Bool → Type 0
CountsAs found sale refund =
    (t : String) × (found ≡ some t) × (is_revenue_event t ≡ sale) × (is_refund_event t ≡ refund)

abbrev AppStoreCounts : String → String → String → Type 0
AppStoreCounts default subtype name =
    let t = unwrap_or (match_arm name (app_store_arms subtype)) default in
    (is_revenue_event t ≡ app_store_sells name subtype)
    × (is_refund_event t ≡ one_of name ("REFUND" ∷ "REVOKE" ∷ []))

module _ (default subtype : String) where
  subscribed : AppStoreCounts default subtype "SUBSCRIBED"
  unfolding match_arm is_revenue_event is_refund_event
  subscribed = elim (Bool-cases (str_eq subtype "RESUBSCRIBE")) [
    | inl h ↦ rw h (refl, refl)
    | inr h ↦ rw h (refl, refl)
  ]

  status_changed : AppStoreCounts default subtype "DID_CHANGE_RENEWAL_STATUS"
  unfolding match_arm is_revenue_event is_refund_event
  status_changed = elim (Bool-cases (str_eq subtype "AUTO_RENEW_ENABLED")) [
    | inl h ↦ rw h (refl, refl)
    | inr h ↦ elim (Bool-cases (str_eq subtype "AUTO_RENEW_DISABLED")) [
      | inl k ↦ rw h (rw k (refl, refl))
      | inr k ↦ rw h (rw k (refl, refl))
    ]
  ]

  failed_to_renew : AppStoreCounts default subtype "DID_FAIL_TO_RENEW"
  unfolding match_arm is_revenue_event is_refund_event
  failed_to_renew = elim (Bool-cases (str_eq subtype "GRACE_PERIOD")) [
    | inl h ↦ rw h (refl, refl)
    | inr h ↦ rw h (refl, refl)
  ]

  app_store_counts : All (AppStoreCounts default subtype) app_store_names
  unfolding match_arm is_revenue_event is_refund_event
  app_store_counts = search (subscribed, status_changed, failed_to_renew) depth 60

-- A notification of one of the named types, in any case, is counted as a sale exactly if it is a
-- renewal or a subscription that is no resubscription, and as a refund exactly if it is a refund
-- or a revocation; a declined refund is neither. So a subscription that starts with a free trial
-- counts as a sale too, where the documents would have it as `trial_started`.
pub map_app_store_type-CountsAs :
    (raw : String) (subtype : Option String)
    → one_of (to_ascii_uppercase raw) app_store_names ≡ true
    → CountsAs
        (map_app_store_type raw subtype)
        (app_store_sells (to_ascii_uppercase raw) (to_ascii_uppercase (unwrap_or subtype "")))
        (one_of (to_ascii_uppercase raw) ("REFUND" ∷ "REVOKE" ∷ []))
unfolding map_app_store_type
map_app_store_type-CountsAs raw subtype h =
    let (sale, refund) =
      one_of-All (AppStoreCounts (map_common_type raw) (to_ascii_uppercase (unwrap_or subtype "")))
        app_store_names
        (app_store_counts (map_common_type raw) (to_ascii_uppercase (unwrap_or subtype "")))
        (to_ascii_uppercase raw) h in
    (_, refl, sale, refund)

-- The subscription notifications that the mapping names, by number and by name.
abbrev pub google_names : List String
google_names =
    "1" ∷ "subscription_recovered" ∷ "2" ∷ "subscription_renewed" ∷ "3" ∷ "subscription_canceled"
    ∷ "4" ∷ "subscription_purchased" ∷ "5" ∷ "subscription_on_hold" ∷ "6"
    ∷ "subscription_in_grace_period" ∷ "7" ∷ "subscription_restarted" ∷ "12"
    ∷ "subscription_revoked" ∷ "13" ∷ "subscription_expired" ∷ []

abbrev pub google_sales : List String
google_sales = "2" ∷ "subscription_renewed" ∷ "4" ∷ "subscription_purchased" ∷ []

abbrev pub google_refunds : List String
google_refunds = "12" ∷ "subscription_revoked" ∷ []

abbrev GoogleCounts : String → String → Type 0
GoogleCounts default name =
    let t = unwrap_or (match_arm name google_subscription_arms) default in
    (is_revenue_event t ≡ one_of name google_sales)
    × (is_refund_event t ≡ one_of name google_refunds)

google_counts : (default : String) → All (GoogleCounts default) google_names
unfolding match_arm is_revenue_event is_refund_event
google_counts default = search depth 60

-- A subscription notification of one of the named types, in any case, is counted as a sale exactly
-- if it is a renewal or a purchase, and as a refund exactly if it is a revocation; a recovered or
-- restarted subscription is neither. So a purchase that starts with a free trial counts as a sale
-- too, where the documents would have it as `trial_started`.
pub map_google_type-CountsAs :
    (raw : String)
    → one_of (to_ascii_lowercase raw) google_names ≡ true
    → CountsAs
        (map_google_type raw true false)
        (one_of (to_ascii_lowercase raw) google_sales)
        (one_of (to_ascii_lowercase raw) google_refunds)
unfolding map_google_type
map_google_type-CountsAs raw h =
    let (sale, refund) =
      one_of-All (GoogleCounts (map_common_type raw)) google_names
        (google_counts (map_common_type raw)) (to_ascii_lowercase raw) h in
    (_, refl, sale, refund)
