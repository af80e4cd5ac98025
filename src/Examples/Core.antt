-- ===== src/Examples/Core.antt =====
-- The theorems on keys, digits and inferred kinds.
use revtern.Prelude.{String, true, ◌≡◌, refl, none, some, [], ◌∷◌, arith}
use Prim.Native.String.{count}
use revtern.Prelude.Text.{to_ascii_uppercase}
use revtern.Core.{
  one_of, product_kinds, billing_periods, infer_billing_period, infer_product_kind, hex_lower,
  source_product_key,
}
use revtern.Core.Hex.{read_hex, read_hex-hex_lower}
use revtern.Core.Keys.{plan_of, is_colon_free-NoColon, source_product_key_inj}
use revtern.Core.Kinds.{inferred_vocabulary}

read_hex-hex_lower_example :
    (read_hex (hex_lower (0 ∷ 171 ∷ 255 ∷ [])) ≡ 0 ∷ 171 ∷ 255 ∷ [])
    × (count (hex_lower (0 ∷ 171 ∷ 255 ∷ [])) ≡ 6)
read_hex-hex_lower_example =
    read_hex-hex_lower (0 ∷ 171 ∷ 255 ∷ []) (omega arith, (omega arith, (omega arith, tt)))

inferred_vocabulary_example :
    (one_of (infer_billing_period "Pro.Monthly") billing_periods ≡ true)
    × (one_of (infer_product_kind "Renewal" "Pro.Monthly") product_kinds ≡ true)
    × (infer_billing_period (to_ascii_uppercase "Pro.Monthly") ≡ infer_billing_period "Pro.Monthly")
    × (infer_product_kind (to_ascii_uppercase "Renewal") (to_ascii_uppercase "Pro.Monthly")
        ≡ infer_product_kind "Renewal" "Pro.Monthly")
inferred_vocabulary_example = inferred_vocabulary "Renewal" "Pro.Monthly"

abbrev google : String
google = "google_play"

abbrev nameless : String
nameless = "unknown"

abbrev coins : String
coins = "coins"

source_product_key_inj_example :
    (google ≡ google)
    × (nameless ≡ nameless)
    × (coins ≡ coins)
    × (plan_of google none ≡ plan_of google (some ""))
unfolding source_product_key
source_product_key_inj_example =
    source_product_key_inj "google_play" "google_play" none (some "unknown") "coins" "coins" none
      (some "") (is_colon_free-NoColon "google_play" refl)
      (is_colon_free-NoColon "google_play" refl) (is_colon_free-NoColon "unknown" refl)
      (is_colon_free-NoColon "unknown" refl) (is_colon_free-NoColon "coins" refl)
      (is_colon_free-NoColon "coins" refl) refl
