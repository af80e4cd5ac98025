-- ===== src/Api/Webhooks/Receive.antt =====
-- `process_webhook` and `ingest_webhook` of crates/api/src/routes.rs.
use revtern.Prelude.{
  String, Bool, true, false, ◌&&◌, not, Option, none, some, if◌then◌else◌, str_eq, is_some, find,
}
use revtern.Runtime.{Runtime}
use revtern.Jobs.Tables.{Db, DataSource}
use revtern.Jobs.Process.{has_source_id}
use revtern.Api.Try.{Try, pass, fail}
use revtern.Api.Http.{Headers, Outside}
use revtern.Api.Handler.{
  ApiError, bad_request, unauthorized, not_found, sqlx, Handler, ◌>>=◌, ◌>>◌, pure, lift, gets,
  guard_that, ok_or,
}
use revtern.Api.Verification.Secret.{verify_shared_secret}
use revtern.Api.Verification.Apple.{verify_app_store_payload}
use revtern.Api.Verification.Google.{verify_google_pubsub_oidc, verify_google_play_package}
use revtern.Api.Verification.Keys.{GoogleJwksCache, Call}
use revtern.Api.Webhooks.{
  Course, normalize_source_type, optional_source_credentials, store_webhook_payload,
}

-- The database and the process-wide cache of Google's keys.
pub record Inbox (rt : Runtime) (out : Outside rt.Value) : Type 0 where
  pub db : Db rt.Value
  pub keys : GoogleJwksCache out

-- The fields of the answer that vary.
pub record WebhookAnswer : Type 0 where
  pub raw_event_id : String
  pub inserted : Bool
  pub signature_verified : Bool
  pub processing_error : Option String

abbrev pub is_source : String → String → DataSource → Bool
is_source source_id source_type source =
    has_source_id source_id source && str_eq source.source_type source_type

-- `map_err(|_| …)` on a check.
abbrev pub or_unauthorized : {A : Type 0} → String → Try String A → Try ApiError A
or_unauthorized message (pass a) = pass a
or_unauthorized message (fail cause) = fail (unauthorized message)

abbrev pub app_store_answer : {V : Type 0} → Try String V → Try ApiError Bool
app_store_answer (pass decoded) = pass true
app_store_answer (fail cause) = fail (unauthorized "App Store signed payload verification failed")

module _ (rt : Runtime) (out : Outside rt.Value) where
  open rt use {Value}

  abbrev pub on_db : {A : Type 0} → Handler (Db Value) A → Handler (Inbox rt out) A
  on_db m s = let (r, db') = m s.db in (r, record s { db = db' })

  abbrev pub on_keys :
      {A : Type 0}
      → (GoogleJwksCache out → Try ApiError A × GoogleJwksCache out)
      → Handler (Inbox rt out) A
  on_keys m s = let (r, keys') = m s.keys in (r, record s { keys = keys' })

  -- The arm of App Store sources.
  unfoldable pub authenticate_app_store : Value → Option Value → Try ApiError Bool
  authenticate_app_store payload credentials =
      app_store_answer (verify_app_store_payload rt out payload credentials)

  -- `verify_google_pubsub_oidc`, which is not called if the shared secret is right.
  unfoldable pub oidc_unless :
      Bool → Headers → Option Value → Call out → Handler (Inbox rt out) Bool
  oidc_unless shared_secret_verified headers credentials call =
      if shared_secret_verified
      then pure false
      else on_keys λ keys.
        let (r, keys') = verify_google_pubsub_oidc rt out headers credentials call keys in
        (or_unauthorized "Google Pub/Sub push verification failed" r, keys')

  unfoldable pub authenticate_google_play :
      Option String → Headers → Value → Option Value → Call out → Handler (Inbox rt out) Bool
  authenticate_google_play secret_hash headers payload credentials call = do
    let shared_secret_verified = verify_shared_secret rt out secret_hash headers payload
    oidc_verified ← oidc_unless shared_secret_verified headers credentials call
    guard_that (not oidc_verified && not shared_secret_verified)
        (unauthorized "Google Play webhooks require Pub/Sub OIDC or a configured shared secret")
    lift (
        or_unauthorized "Google Play notification package verification failed"
          (verify_google_play_package rt out payload credentials))
    pure true

  -- Every other source type.
  unfoldable pub authenticate_other : Option String → Headers → Value → Try ApiError Bool
  authenticate_other secret_hash headers payload =
      let verified = verify_shared_secret rt out secret_hash headers payload in
      if is_some secret_hash && not verified
      then fail (unauthorized "webhook secret verification failed")
      else pass verified

  unfoldable pub authenticate :
      String
      → Option String
      → Headers
      → Value
      → Option Value
      → Call out
      → Handler (Inbox rt out) Bool
  authenticate source_type secret_hash headers payload credentials call =
      if str_eq source_type "app_store"
      then lift (authenticate_app_store payload credentials)
      else if str_eq source_type "google_play"
      then authenticate_google_play secret_hash headers payload credentials call
      else lift (authenticate_other secret_hash headers payload)

  -- `app_id` is read as a text, which fails on `null`.
  abbrev pub app_of : DataSource → Try ApiError String
  app_of source = ok_or (sqlx "unexpected null; try decoding as an `Option`") source.app_id

  unfoldable pub process_webhook :
      String
      → Course
      → String
      → String
      → Headers
      → Value
      → Call out
      → Handler (Inbox rt out) WebhookAnswer
  process_webhook secret_key course source_type_path source_id headers payload call = do
    source_type ← lift (normalize_source_type source_type_path)
    found ← gets λ s. find (is_source source_id source_type) s.db.data_sources
    source ← lift (ok_or (not_found "data source not found") found)
    app_id ← lift (app_of source)
    credentials ← lift (optional_source_credentials rt out secret_key source.encrypted_credentials)
    signature_verified ←
        authenticate source_type source.webhook_secret_hash headers payload credentials call
    stored ← on_db (
        store_webhook_payload rt out course
          (record {
            workspace_id = source.workspace_id;
            app_id = app_id;
            source_id = source_id;
            source_type = source_type;
            signature_verified = signature_verified;
            sync_run_id = none;
            credentials = credentials;
          })
          payload)
    pure (record {
      raw_event_id = stored.raw_event_id;
      inserted = stored.inserted;
      signature_verified = signature_verified;
      processing_error = stored.processing_error;
    })

  -- `none` stands for a body that is not JSON.
  unfoldable pub ingest_webhook :
      String
      → Course
      → String
      → String
      → Headers
      → Option Value
      → Call out
      → Handler (Inbox rt out) WebhookAnswer
  ingest_webhook secret_key course source_type_path source_id headers none call =
      lift (fail (bad_request "webhook request body must be valid JSON"))
  ingest_webhook secret_key course source_type_path source_id headers (some payload) call =
      process_webhook secret_key course source_type_path source_id headers payload call
