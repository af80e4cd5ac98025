-- ===== src/Core/Kinds.antt =====
-- What `infer_billing_period` and `infer_product_kind` can answer, and on what it depends.
use revtern.Prelude.{String, true, ◌≡◌, refl}
use revtern.Prelude.Text.{to_ascii_uppercase}
use revtern.Prelude.Case.{lowercase-uppercase}
use revtern.Core.{one_of, product_kinds, billing_periods, infer_billing_period, infer_product_kind}
use revtern.Core.Vocabulary.{first_case_among}

-- Whatever the names, the inferred period is one of `BILLING_PERIODS`, the inferred kind is one
-- of `PRODUCT_KINDS`, and neither depends on the case in which the names are written.
pub inferred_vocabulary :
    (event_type product_id : String)
    → (one_of (infer_billing_period product_id) billing_periods ≡ true)
      × (one_of (infer_product_kind event_type product_id) product_kinds ≡ true)
      × (infer_billing_period (to_ascii_uppercase product_id) ≡ infer_billing_period product_id)
      × (infer_product_kind (to_ascii_uppercase event_type) (to_ascii_uppercase product_id)
          ≡ infer_product_kind event_type product_id)
unfolding infer_billing_period infer_product_kind
inferred_vocabulary e p = (
  first_case_among _ "unknown" billing_periods refl refl,
  first_case_among _ "non_consumable" product_kinds refl refl,
  rw lowercase-uppercase,
  rw (lowercase-uppercase, lowercase-uppercase),
)
