-- ===== src/Api/CatchUp/Run/Stored.antt =====
-- What a catch-up that succeeds has stored, before the batch was acknowledged.
use revtern.Prelude.{ℕ, ◌≤◌, String, true, Option, some, List, ◌≡◌, ◌<◌, any, length, get_elem?}
use revtern.Runtime.{Instant, Runtime}
use revtern.Jobs.Tables.{Db, DataSource}
use revtern.Api.Try.{pass}
use revtern.Api.Http.{Outside}
use revtern.Api.Webhooks.{Course, WebhookStoreContext, source_credentials}
use revtern.Api.Webhooks.Refines.{Key, same_key, inbox_of, delivery_key}
use revtern.Api.CatchUp.{CatchUpRequest, CatchUpWindow, catch_up_window}
use revtern.Api.CatchUp.Batch.{Network}
use revtern.Api.CatchUp.Run.{catch_up_context}
use revtern.Api.CatchUp.Run.Offers.{IsOffer}

-- The database holds a delivery of this key.
abbrev pub Holds : {V : Type 0} → Key → Db V → Type 0
Holds key db = any (same_key key) (inbox_of db) ≡ true

module _ (rt : Runtime) (out : Outside rt.Value) (net : Network rt.Value) where
  open rt use {Value}

  -- Every payload is held, each as delivered in its course, and what was held before still is.
  record BatchIsStored (courses : ℕ → Course) (ctx : WebhookStoreContext Value)
      (payloads : List Value) (db db' : Db Value) (inserted : ℕ) : Type 0 where
    counts : inserted ≤ length payloads
    holds :
        (i : ℕ) (payload : Value)
        → get_elem? payloads i ≡ some payload
        → Holds (delivery_key rt out (courses i) ctx payload) db'
    keeps : (key : Key) → Holds key db → Holds key db'

  -- Of what the store offered, all but the notifications of the App Store beyond the limit of the
  -- window was stored, and at most as many were new as were seen.
  pub record IsCaughtUp (secret_key : String) (parse_date : String → Option Instant) (now : Instant)
      (courses : ℕ → Course) (source : DataSource) (source_type : String) (input : CatchUpRequest)
      (sync_run_id : String) (seen inserted : ℕ) (db db' : Db Value) : Type 0 where
    pub app_id : String
    pub has_app : source.app_id ≡ some app_id
    pub credentials : Value
    pub are_credentials :
        source_credentials rt out secret_key source.encrypted_credentials ≡ pass credentials
    pub window : CatchUpWindow
    pub is_window : catch_up_window rt parse_date now input ≡ pass window
    pub offered : List Value
    pub is_offer : IsOffer rt out net source_type credentials window offered seen
    pub are_stored :
        (i : ℕ) (payload : Value)
        → i < seen
        → get_elem? offered i ≡ some payload
        → Holds
            (delivery_key rt out
              (courses i)
              (catch_up_context rt out net source app_id source_type sync_run_id credentials)
              payload)
            db'
    pub are_inserted : inserted ≤ seen
    pub are_kept : (key : Key) → Holds key db → Holds key db'
