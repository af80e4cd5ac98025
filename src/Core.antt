-- ===== src/Core.antt =====
-- crates/core/src/lib.rs: the vocabulary of event types, product kinds and billing periods, the
-- inference of the last two from names, money and time values, and the keys of source products.
pub mod Vocabulary
pub mod Hex
pub mod Kinds
pub mod Keys
use Prim.Native.String
use Prim.Native.String.{char_at}
use revtern.Prelude.{
  ℕ, ◌/◌, ◌%◌, String, Bool, true, false, ◌&&◌, ◌||◌, Option, none, some, List, [], ◌∷◌, str_eq,
  if◌then◌else◌, and_then, or_else, unwrap_or,
}
use revtern.Prelude.Int.{ℤ, pos, ltb_ℤ, div_i64, wrap_i64}
use revtern.Prelude.Text.{to_ascii_lowercase, contains, is_empty, parse_i128}
use revtern.Runtime.{Instant, Runtime, View, null, bool, number, string, array, object}

infixr 65 ◌+++◌
-- `format!` joins texts.
abbrev pub ◌+++◌ : String → String → String
s +++ t = String.◌++◌ s t

-- `matches!(s, "a" | "b" | …)`.
abbrev pub one_of : String → List String → Bool
one_of s [] = false
one_of s (t ∷ ts) = str_eq s t || one_of s ts

-- `lower.contains("a") || lower.contains("b") || …`.
abbrev pub contains_any : String → List String → Bool
contains_any s [] = false
contains_any s (t ∷ ts) = contains s t || contains_any s ts

abbrev pub event_types : List String
event_types =
    "purchase" ∷ "one_time_purchase" ∷ "trial_started" ∷ "trial_converted" ∷ "renewal"
    ∷ "cancellation" ∷ "expiration" ∷ "refund" ∷ "partial_refund" ∷ "revocation" ∷ "billing_issue"
    ∷ "grace_period_started" ∷ "grace_period_ended" ∷ "reactivation" ∷ "product_change"
    ∷ "consumption" ∷ []

abbrev pub product_kinds : List String
product_kinds = "subscription" ∷ "consumable" ∷ "non_consumable" ∷ "lifetime" ∷ "unknown" ∷ []

abbrev pub billing_periods : List String
billing_periods = "weekly" ∷ "monthly" ∷ "annual" ∷ "lifetime" ∷ "none" ∷ "unknown" ∷ []

-- `if … { a } else if … { b } else { c }`: the first case whose test holds.
unfoldable pub first_case {ℓ} : {A : Type ℓ} → List (Bool × A) → A → A
first_case [] default = default
first_case ((test, a) ∷ cases) default = if test then a else first_case cases default

-- `match s { "a" => x, … }`: the first arm whose pattern is `s`.
unfoldable pub match_arm {ℓ} : {A : Type ℓ} → String → List (String × A) → Option A
match_arm s [] = none
match_arm s ((pattern_text, a) ∷ arms) = if str_eq s pattern_text then some a else match_arm s arms

unfoldable pub infer_billing_period : String → String
infer_billing_period raw =
    let lower = to_ascii_lowercase raw in
    first_case
      ((contains_any lower ("week" ∷ "weekly" ∷ "_wk" ∷ []), "weekly")
        ∷ (contains_any lower ("month" ∷ "monthly" ∷ "_mo" ∷ []), "monthly")
        ∷ (contains_any lower ("year" ∷ "annual" ∷ "annually" ∷ "_yr" ∷ []), "annual")
        ∷ (contains_any lower ("life" ∷ "lifetime" ∷ []), "lifetime")
        ∷ [])
      "unknown"

unfoldable pub infer_product_kind : String → String → String
infer_product_kind event_type product_id =
    let lower_product = to_ascii_lowercase product_id in
    let lower_event = to_ascii_lowercase event_type in
    first_case
      ((contains_any lower_product ("life" ∷ "lifetime" ∷ []), "lifetime")
        ∷ (
          contains_any lower_event ("renew" ∷ "subscription" ∷ [])
              || contains_any lower_product ("month" ∷ "annual" ∷ "year" ∷ "week" ∷ []),
          "subscription",
        )
        ∷ (contains_any lower_product ("coin" ∷ "credit" ∷ "token" ∷ "pack" ∷ []), "consumable")
        ∷ (is_empty lower_product, "unknown")
        ∷ [])
      "non_consumable"

-- The branch of each source type, and that of any other.
unfoldable pub source_product_key : String → Option String → String → Option String → String
source_product_key source_type source_app_id product_id base_plan_id =
    let app = unwrap_or source_app_id "unknown" in
    if str_eq source_type "google_play"
    then "google_play:" +++ app +++ ":" +++ product_id +++ ":" +++ unwrap_or base_plan_id ""
    else if str_eq source_type "app_store"
    then "app_store:" +++ app +++ ":" +++ product_id
    else if str_eq source_type "revenuecat"
    then "revenuecat:" +++ app +++ ":" +++ product_id
    else if str_eq source_type "stripe"
    then "stripe:" +++ app +++ ":" +++ product_id
    else if str_eq source_type "paddle"
    then "paddle:" +++ app +++ ":" +++ product_id
    else if str_eq source_type "csv"
    then "csv:" +++ app +++ ":" +++ product_id
    else if str_eq source_type "custom_api"
    then "custom_api:" +++ app +++ ":" +++ product_id
    else source_type +++ ":" +++ app +++ ":" +++ product_id

unfoldable pub is_revenue_event : String → Bool
is_revenue_event event_type =
    one_of event_type ("purchase" ∷ "one_time_purchase" ∷ "trial_converted" ∷ "renewal" ∷ [])

unfoldable pub is_refund_event : String → Bool
is_refund_event event_type = one_of event_type ("refund" ∷ "partial_refund" ∷ "revocation" ∷ [])

abbrev hex_digit : ℕ → String
hex_digit n = String.◌∷◌ (char_at "0123456789abcdef" n) String.[]

-- `{byte:02x}` of each byte.
unfoldable pub hex_lower : List ℕ → String
hex_lower [] = ""
hex_lower (byte ∷ bytes) = hex_digit (byte / 16) +++ hex_digit (byte % 16) +++ hex_lower bytes

module _ (rt : Runtime) where
  open rt use {
    Value, Number, F64, view, as_i64, as_f64, parse_f64, times_100, round, cast_i64, parse_rfc3339,
    from_unix_timestamp, uuid, sha256, to_vec,
  }

  -- `(float * 100.0).round() as i64`.
  unfoldable pub minor_units : F64 → ℤ
  minor_units float = cast_i64 (round (times_100 float))

  abbrev money_of_number : Option ℤ → Option F64 → Option ℤ
  money_of_number (some raw) float = some raw
  money_of_number none none = none
  money_of_number none (some float) = some (minor_units float)

  abbrev money_of_text : Option F64 → Option ℤ
  money_of_text none = none
  money_of_text (some float) = some (minor_units float)

  abbrev money_of_view : View Number → Option ℤ
  money_of_view (number n) = money_of_number (as_i64 n) (as_f64 n)
  money_of_view (string text) = money_of_text (parse_f64 text)
  money_of_view null = none
  money_of_view (bool b) = none
  money_of_view array = none
  money_of_view object = none

  unfoldable pub normalize_money_minor : Value → Option ℤ
  normalize_money_minor value = money_of_view (view value)

  -- Values above ten thousand million are read as milliseconds.
  unfoldable pub parse_millis : ℤ → Option Instant
  parse_millis raw =
      let seconds = if ltb_ℤ (pos 10_000_000_000) raw then div_i64 raw 1000 else raw in
      from_unix_timestamp (wrap_i64 seconds)

  abbrev time_of_view : View Number → Option Instant
  time_of_view (string text) =
      or_else (parse_rfc3339 text) (and_then (parse_i128 text) parse_millis)
  time_of_view (number n) = and_then (as_i64 n) parse_millis
  time_of_view null = none
  time_of_view (bool b) = none
  time_of_view array = none
  time_of_view object = none

  unfoldable pub parse_time : Value → Option Instant
  parse_time value = time_of_view (view value)

  -- `n` counts the identifiers that were drawn before.
  unfoldable pub new_id : ℕ → String → String
  new_id n prefix = prefix +++ "_" +++ uuid n

  unfoldable pub payload_sha256 : Value → String
  payload_sha256 payload = hex_lower (sha256 (to_vec payload))

  unfoldable pub sha256_hex : List ℕ → String
  sha256_hex input = hex_lower (sha256 input)
