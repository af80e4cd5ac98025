-- ===== src/Connectors/Extract/Types.antt =====
-- The event types that the readers of the payloads give out.
use revtern.Prelude.{
  ℕ, String, Bool, true, false, ◌≡◌, refl, Option, some, List, [], ◌∷◌, ◌++◌, str_eq, if◌then◌else◌,
  unwrap_or,
}
use revtern.Prelude.Text.{to_ascii_uppercase}
use revtern.Runtime.{Instant, Runtime}
use revtern.Core.{one_of, event_types}
use revtern.Core.Vocabulary.{all_among, first_case_among, match_arm_among}
use revtern.Connectors.Mapping.{
  map_common_type, map_revenuecat_type, revenuecat_arms, map_app_store_type, app_store_arms,
  map_google_type, google_one_time_arms, google_subscription_arms,
}
use revtern.Connectors.Event.{ExtractedEvent}
use revtern.Connectors.Revenuecat.{extract_revenuecat}
use revtern.Connectors.Custom.{extract_custom, extract_generic}
use revtern.Connectors.AppStore.{extract_app_store}
use revtern.Connectors.GooglePlay.{extract_google_play}
use revtern.Connectors.Web.{extract_stripe, extract_paddle}
use revtern.Connectors.Extract.{extract_event}

-- `EVENT_TYPES`, and the two types besides them that the mappings name.
abbrev pub known_types : List String
known_types = event_types ++ "unknown" ∷ "refund_declined" ∷ []

-- There is a type, and it is a known one.
abbrev pub IsTyped : Option String → Type 0
IsTyped found = (t : String) × (found ≡ some t) × (one_of t known_types ≡ true)

map_common_type-known : (raw : String) → one_of (map_common_type raw) known_types ≡ true
unfolding map_common_type
map_common_type-known raw = first_case_among _ "unknown" known_types refl refl

map_revenuecat_type-IsTyped : (raw : String) → IsTyped (map_revenuecat_type raw)
unfolding map_revenuecat_type
map_revenuecat_type-IsTyped raw =
    (_, refl, match_arm_among _ revenuecat_arms _ known_types refl (map_common_type-known raw))

map_google_type-IsTyped : (raw : String) (sub once : Bool) → IsTyped (map_google_type raw sub once)
unfolding map_google_type
map_google_type-IsTyped raw sub true =
    (_, refl, match_arm_among _ google_one_time_arms "unknown" known_types refl refl)
map_google_type-IsTyped raw true false = (
  _,
  refl,
  match_arm_among _ google_subscription_arms _ known_types refl (map_common_type-known raw),
)
map_google_type-IsTyped raw false false = (_, refl, refl)

if_known :
    (b : Bool) (s t : String)
    → one_of s known_types ≡ true
    → one_of t known_types ≡ true
    → one_of (if b then s else t) known_types ≡ true
if_known true s t h k = h
if_known false s t h k = k

app_store_arms-known : (sub : String) → all_among (app_store_arms sub) known_types ≡ true
app_store_arms-known sub =
    rw
      (
        if_known (str_eq sub "RESUBSCRIBE") "reactivation" "purchase" refl refl,
        if_known (str_eq sub "AUTO_RENEW_ENABLED") "reactivation" _ refl
            (if_known (str_eq sub "AUTO_RENEW_DISABLED") "cancellation" "unknown" refl refl),
        if_known (str_eq sub "GRACE_PERIOD") "grace_period_started" "billing_issue" refl refl,
      )
      refl

map_app_store_type-IsTyped :
    (raw : String) (sub : Option String) → IsTyped (map_app_store_type raw sub)
unfolding map_app_store_type
map_app_store_type-IsTyped raw sub = (
  _,
  refl,
  match_arm_among _ (app_store_arms _) _ known_types
      (app_store_arms-known (to_ascii_uppercase (unwrap_or sub ""))) (map_common_type-known raw),
)

if_IsTyped :
    (b : Bool) (x y : ExtractedEvent)
    → IsTyped x.normalized_event_type
    → IsTyped y.normalized_event_type
    → IsTyped (if b then x else y).normalized_event_type
if_IsTyped true x y h k = h
if_IsTyped false x y h k = k

module _ (rt : Runtime) (now : ℕ → Instant) where
  open rt use {Value}

  -- Whatever the source type and the payload, the event gets a type, and it is one of
  -- `EVENT_TYPES`, "unknown" or "refund_declined"; so the projections always run.
  pub extract_event-IsTyped :
      (source_type fallback_id : String) (payload : Value)
      → IsTyped (extract_event rt now source_type payload fallback_id).normalized_event_type
  unfolding extract_event extract_revenuecat extract_custom extract_app_store extract_google_play
      extract_stripe extract_paddle extract_generic
  extract_event-IsTyped source_type fallback_id payload =
      if_IsTyped (str_eq source_type "revenuecat") _ _ (map_revenuecat_type-IsTyped _) (
        if_IsTyped (str_eq source_type "custom_api") _ _ (_, refl, map_common_type-known _)
          (if_IsTyped (str_eq source_type "app_store") _ _ (map_app_store_type-IsTyped _ _) (
            if_IsTyped (str_eq source_type "google_play") _ _ (map_google_type-IsTyped _ _ _) (
              if_IsTyped (str_eq source_type "stripe") _ _ (_, refl, map_common_type-known _)
                (if_IsTyped (str_eq source_type "paddle") _ _ (_, refl, map_common_type-known _)
                  (if_IsTyped (str_eq source_type "csv") _ _ (_, refl, map_common_type-known _)
                    (_, refl, map_common_type-known _)))))))

if_same :
    (b : Bool) (x y x' y' : ExtractedEvent)
    → x.normalized_event_type ≡ x'.normalized_event_type
    → y.normalized_event_type ≡ y'.normalized_event_type
    → (if b then x else y).normalized_event_type ≡ (if b then x' else y').normalized_event_type
if_same true x y x' y' h k = h
if_same false x y x' y' h k = k

-- The type of an event does not depend on what the clock shows.
pub normalized_event_type-clock :
    (rt : Runtime) (now later : ℕ → Instant) (source_type fallback_id : String) (payload : rt.Value)
    → (extract_event rt now source_type payload fallback_id).normalized_event_type
      ≡ (extract_event rt later source_type payload fallback_id).normalized_event_type
unfolding extract_event extract_revenuecat extract_custom extract_app_store extract_google_play
    extract_stripe extract_paddle extract_generic
normalized_event_type-clock rt now later t fallback_id payload =
    if_same (str_eq t "revenuecat") _ _ _ _ refl (
      if_same (str_eq t "custom_api") _ _ _ _ refl (
        if_same (str_eq t "app_store") _ _ _ _ refl (
          if_same (str_eq t "google_play") _ _ _ _ refl (
            if_same (str_eq t "stripe") _ _ _ _ refl (
              if_same (str_eq t "paddle") _ _ _ _ refl
                (if_same (str_eq t "csv") _ _ _ _ refl refl))))))
