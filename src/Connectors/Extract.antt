-- ===== src/Connectors/Extract.antt =====
-- crates/connectors/src/lib.rs: the reader of each source type.
pub mod Types
pub mod Products
use revtern.Prelude.{ℕ, String, some, none, List, [], ◌∷◌, if◌then◌else◌, str_eq}
use revtern.Runtime.{Instant, Runtime}
use revtern.Connectors.Event.{ExtractedEvent}
use revtern.Connectors.Revenuecat.{extract_revenuecat}
use revtern.Connectors.Custom.{extract_custom, extract_generic}
use revtern.Connectors.AppStore.{extract_app_store}
use revtern.Connectors.GooglePlay.{extract_google_play}
use revtern.Connectors.Web.{extract_stripe, extract_paddle}

module _ (rt : Runtime) (now : ℕ → Instant) where
  open rt use {Value}

  unfoldable pub extract_event : String → Value → String → ExtractedEvent
  extract_event source_type payload fallback_id =
      if str_eq source_type "revenuecat"
      then extract_revenuecat rt now payload fallback_id
      else if str_eq source_type "custom_api"
      then extract_custom rt now payload fallback_id
      else if str_eq source_type "app_store"
      then extract_app_store rt now payload fallback_id
      else if str_eq source_type "google_play"
      then extract_google_play rt now payload fallback_id
      else if str_eq source_type "stripe"
      then extract_stripe rt now payload fallback_id
      else if str_eq source_type "paddle"
      then extract_paddle rt now payload fallback_id
      else if str_eq source_type "csv"
      then extract_custom rt now payload fallback_id
      else extract_generic rt now source_type payload fallback_id
