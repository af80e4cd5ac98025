-- ===== src/Examples/Connectors.antt =====
-- The theorems on the readers of payloads, at the payload of a renewal.
use revtern.Prelude.{none, true, false, refl}
use revtern.Prelude.Text.{to_ascii_uppercase, to_ascii_lowercase, map_chars, upper_char, lower_char}
use revtern.Connectors.Mapping.{map_app_store_type, map_google_type}
use revtern.Connectors.Mapping.Revenue.{
  CountsAs, map_app_store_type-CountsAs, map_google_type-CountsAs,
}
use revtern.Connectors.Extract.{extract_event}
use revtern.Connectors.Extract.Types.{IsTyped, extract_event-IsTyped}
use revtern.Connectors.Extract.Products.{filed_as, IsFiled, extract_event-IsFiled}
use revtern.Examples.Platform.{small_platform}
use revtern.Examples.Rows.{still, renewal_payload}

extract_event-IsTyped_example :
    IsTyped (extract_event small_platform still "csv" renewal_payload "e1").normalized_event_type
extract_event-IsTyped_example =
    extract_event-IsTyped small_platform still "csv" "e1" renewal_payload

extract_event-IsFiled_example :
    IsFiled (filed_as "csv") (extract_event small_platform still "csv" renewal_payload "e1")
extract_event-IsFiled_example =
    extract_event-IsFiled small_platform still "csv" "e1" renewal_payload

map_app_store_type-CountsAs_example :
    CountsAs (map_app_store_type "refund_declined" none) false false
unfolding to_ascii_uppercase map_chars upper_char
map_app_store_type-CountsAs_example = map_app_store_type-CountsAs "refund_declined" none refl

map_google_type-CountsAs_example : CountsAs (map_google_type "12" true false) false true
unfolding to_ascii_lowercase map_chars lower_char
map_google_type-CountsAs_example = map_google_type-CountsAs "12" refl
