-- ===== src/Api/CatchUp/Run.antt =====
-- `run_webhook_catch_up` of crates/api/src/routes.rs.
pub mod Offers
pub mod Stored
use mathlib.Core.Option
use revtern.Prelude.{
  ℕ, ◌+◌, String, Bool, true, false, Option, none, some, List, [], ◌∷◌, ◌++◌, suc, length,
  if◌then◌else◌, str_eq, update_where,
}
use revtern.Runtime.{Instant, Runtime}
use revtern.Jobs.Tables.{Db, DataSource}
use revtern.Api.Try.{Try, pass, fail}
use revtern.Api.Http.{Outside}
use revtern.Api.Handler.{
  ApiError, bad_request, unauthorized, anyhow, Handler, ◌>>=◌, ◌>>◌, pure, lift,
}
use revtern.Api.Verification.Apple.{verify_app_store_payload}
use revtern.Api.Verification.Google.{verify_google_play_package}
use revtern.Api.Webhooks.{
  Course, WebhookStoreContext, StoredWebhookPayload, source_credentials, store_webhook_payload,
}
use revtern.Api.Webhooks.Receive.{app_of}
use revtern.Api.CatchUp.{CatchUpRequest, CatchUpWindow, catch_up_window}
use revtern.Api.CatchUp.Batch.{
  CatchUpBatch, CatchUpAck, Network, fetch_webhook_notifications, acknowledge_batch,
}

-- `?` on a call of catchup.rs, and `map_err(|error| ApiError::Unauthorized(error.to_string()))`.
abbrev pub or_anyhow : {A : Type 0} → Try String A → Try ApiError A
or_anyhow (pass a) = pass a
or_anyhow (fail text) = fail (anyhow text)

abbrev pub or_says_unauthorized : {A : Type 0} → Try String A → Try ApiError (Unit {0})
or_says_unauthorized (pass a) = pass tt
or_says_unauthorized (fail text) = fail (unauthorized text)

abbrev pub count_inserted : Bool → ℕ
count_inserted true = 1
count_inserted false = 0

module _ (rt : Runtime) (out : Outside rt.Value) (net : Network rt.Value) where
  open rt use {Value}

  unfoldable pub verify_batch_payload : String → Value → Value → Try ApiError (Unit {0})
  verify_batch_payload source_type credentials payload =
      if str_eq source_type "app_store"
      then or_says_unauthorized (verify_app_store_payload rt out payload (some credentials))
      else if str_eq source_type "google_play"
      then or_says_unauthorized (verify_google_play_package rt out payload (some credentials))
      else pass tt

  -- The loop over the payloads: how many of them were inserted. Each has its own course.
  unfoldable pub store_batch :
      (ℕ → Course) → WebhookStoreContext Value → Value → List Value → Handler (Db Value) ℕ
  store_batch courses ctx credentials [] = pure 0
  store_batch courses ctx credentials (payload ∷ payloads) = do
    lift (verify_batch_payload ctx.source_type credentials payload)
    stored ← store_webhook_payload rt out (courses 0) ctx payload
    inserted ← store_batch (λ n. courses (suc n)) ctx credentials payloads
    pure (count_inserted stored.inserted + inserted)

  unfoldable pub acknowledge_stored : Option CatchUpAck → Try ApiError (Unit {0})
  acknowledge_stored none = pass tt
  acknowledge_stored (some ack) = or_anyhow (acknowledge_batch rt net ack)

  abbrev pub catch_up_context :
      DataSource → String → String → String → Value → WebhookStoreContext Value
  catch_up_context source app_id source_type sync_run_id credentials = record {
    workspace_id = source.workspace_id;
    app_id = app_id;
    source_id = source.id;
    source_type = source_type;
    signature_verified = true;
    sync_run_id = some sync_run_id;
    credentials = some credentials;
  }

  -- How many payloads were seen and inserted, and the cursor of the next page.
  unfoldable pub run_webhook_catch_up :
      String
      → (String → Option Instant)
      → Instant
      → (ℕ → Course)
      → DataSource
      → String
      → CatchUpRequest
      → String
      → Handler (Db Value) (ℕ × ℕ × Option String)
  run_webhook_catch_up secret_key parse_date now courses source source_type input sync_run_id = do
    app_id ← lift (app_of rt out source)
    credentials ← lift (source_credentials rt out secret_key source.encrypted_credentials)
    window ← lift (catch_up_window rt parse_date now input)
    batch ← lift (or_anyhow (fetch_webhook_notifications rt net source_type credentials window))
    inserted ←
        store_batch courses (catch_up_context source app_id source_type sync_run_id credentials)
          credentials batch.payloads
    lift (acknowledge_stored batch.ack)
    pure (length batch.payloads, inserted, batch.next_cursor)
