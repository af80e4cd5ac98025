-- ===== src/Connectors/Extract/Products.antt =====
-- The key under which the readers file a product.
use mathlib.Core.Option
use revtern.Prelude.{
  ℕ, String, false, ◌≡◌, refl, Option, none, some, str_eq, eq_iff, if◌then◌else◌, Bool-cases, inl,
  inr,
}
use revtern.Runtime.{Instant, Runtime}
use revtern.Core.{source_product_key}
use revtern.Connectors.Event.{ExtractedEvent}
use revtern.Connectors.Revenuecat.{extract_revenuecat}
use revtern.Connectors.Custom.{extract_custom, extract_generic, generic_key}
use revtern.Connectors.AppStore.{extract_app_store}
use revtern.Connectors.GooglePlay.{extract_google_play}
use revtern.Connectors.Web.{extract_stripe, extract_paddle}
use revtern.Connectors.Extract.{extract_event}

-- Rows of a CSV file are filed as those of the custom API.
abbrev pub filed_as : String → String
filed_as source_type = if str_eq source_type "csv" then "custom_api" else source_type

-- The key is that of the event's product, application and base plan.
abbrev pub IsFiled : String → ExtractedEvent → Type 0
IsFiled source_type e =
    e.source_product_key
    ≡ Option.map (λ id. source_product_key source_type e.source_app_id id e.external_base_plan_id)
        e.external_product_id

generic-IsFiled :
    (source_type : String) (e : ExtractedEvent) (o : Option String)
    → e.external_product_id ≡ o
    → IsFiled "custom_api" e
    → generic_key source_type e o
      ≡ Option.map
          (λ id. source_product_key source_type e.source_app_id id e.external_base_plan_id)
          o
generic-IsFiled source_type e none same h = rw same at h
generic-IsFiled source_type e (some id) same h = refl

if_IsFiled :
    (t word : String) (x y : ExtractedEvent)
    → IsFiled (filed_as word) x
    → (str_eq t word ≡ false → IsFiled (filed_as t) y)
    → IsFiled (filed_as t) (if str_eq t word then x else y)
if_IsFiled t word x y h k = elim (Bool-cases (str_eq t word)) [
  | inl same ↦ rw same (rw ((eq_iff t word).0 same) h)
  | inr other ↦ rw other (k other)
]

module _ (rt : Runtime) (now : ℕ → Instant) where
  open rt use {Value}

  -- Whatever the source type and the payload, an event with a product carries the key that
  -- `source_product_key` builds from its own application, product and base plan, for its source
  -- type ("custom_api" for a CSV row); and an event without a product carries none.
  pub extract_event-IsFiled :
      (source_type fallback_id : String) (payload : Value)
      → IsFiled (filed_as source_type) (extract_event rt now source_type payload fallback_id)
  unfolding extract_event extract_revenuecat extract_custom extract_app_store extract_google_play
      extract_stripe extract_paddle extract_generic
  extract_event-IsFiled t fallback_id payload = if_IsFiled t "revenuecat" _ _ refl λ _.
      if_IsFiled t "custom_api" _ _ refl λ _. if_IsFiled t "app_store" _ _ refl λ _.
        if_IsFiled t "google_play" _ _ refl λ _. if_IsFiled t "stripe" _ _ refl λ _.
          if_IsFiled t "paddle" _ _ refl λ _. if_IsFiled t "csv" _ _ refl λ other.
            rw other (generic-IsFiled t (extract_custom rt now payload fallback_id) _ refl refl)
