-- ===== src/Api/Webhooks.antt =====
-- The ingestion of webhooks in crates/api/src/routes.rs: `normalize_source_type`, the credentials of
-- a source, and `store_webhook_payload`.
pub mod Receive
pub mod Deliveries
pub mod Answers
pub mod Cases
pub mod Redelivery
pub mod Refines
pub mod Authentic
pub mod Outcome
pub mod Interrupted
pub mod Unique
use mathlib.Core.Option
use revtern.Prelude.{
  ℕ, String, Bool, true, false, ◌&&◌, Option, none, some, List, [], ◌∷◌, ◌++◌, if◌then◌else◌,
  str_eq, unwrap_or, is_some, find, update_where,
}
use revtern.Prelude.Split.{replace_char}
use Prim.Native.String.{char_at}
use revtern.Runtime.{Instant, Runtime}
use revtern.Core.{one_of, payload_sha256}
use revtern.Connectors.Event.{ExtractedEvent}
use revtern.Connectors.Extract.{extract_event}
use revtern.Jobs.Tables.{Db, DataSource, RawEvent}
use revtern.Jobs.Exec.{Exec, Result, ok, err, Error, draw_id}
use revtern.Jobs.Process.{has_raw_id, has_source_id}
use revtern.Jobs.Queue.{error_text, enqueue_normalization, process_normalization_job}
use revtern.Api.Try.{Try, pass, fail, context}
use revtern.Api.Http.{Outside}
use revtern.Api.Crypto.{decrypt_json}
use revtern.Api.Handler.{
  ApiError, bad_request, unauthorized, not_found, sqlx, serde_json, anyhow, Handler, ◌>>=◌, ◌>>◌,
  pure, lift, gets, modify,
}

abbrev pub source_types : List String
source_types =
    "app_store" ∷ "google_play" ∷ "revenuecat" ∷ "stripe" ∷ "paddle" ∷ "csv" ∷ "custom_api"
    ∷ "custom" ∷ []

unfoldable pub normalize_source_type : String → Try ApiError String
normalize_source_type source_type =
    let normalized = replace_char b'-' (char_at "_" 0) source_type in
    if one_of normalized source_types
    then pass (if str_eq normalized "custom" then "custom_api" else normalized)
    else fail (bad_request "unsupported source_type")

-- The part of the state that a query of the jobs crate works on.
module _ {A : Type 0} where
  abbrev pub outcome : (Error → String) → Result A → Try ApiError A
  outcome text (ok a) = pass a
  outcome text (err e) = fail (anyhow (text e))

module _ {V A : Type 0} where
  -- `?` on a call of the jobs crate, and the same call with its result taken as a value.
  abbrev pub or_fail : (Error → String) → Exec V A → Handler (Db V) A
  or_fail text m db = let (r, db') = m db in (outcome text r, db')

  abbrev pub attempt : Exec V A → Handler (Db V) (Result A)
  attempt m db = let (r, db') = m db in (pass r, db')

pub record StoredWebhookPayload : Type 0 where
  pub raw_event_id : String
  pub inserted : Bool
  pub processing_error : Option String

pub record WebhookStoreContext (V : Type 0) : Type 0 where
  pub workspace_id : String
  pub app_id : String
  pub source_id : String
  pub source_type : String
  pub signature_verified : Bool
  pub sync_run_id : Option String
  pub credentials : Option V

-- The statements of `store_webhook_payload` whose errors it passes on by `?`; the two of
-- `enqueue_normalization` count as one.
pub data Statement : Type 0 where
  insert_raw_event look_up_raw_event activate_source enqueue_job fail_raw_event fail_source :
      Statement

-- The course of one delivery: the time of its statements and its readings of the clock while the
-- payload is stored, and while the job runs; and the text of the error with which the database
-- refuses a statement, if it does (a text that its column cannot hold, a lost connection).
pub record Course : Type 0 where
  pub now : Instant
  pub clock : ℕ → Instant
  pub job_now : Instant
  pub job_clock : ℕ → Instant
  pub refusal : Statement → Option String

-- The error of a statement that is refused; the jobs crate answers `anyhow` errors.
abbrev pub refused : Statement → String → ApiError
refused insert_raw_event text = sqlx text
refused look_up_raw_event text = sqlx text
refused activate_source text = sqlx text
refused enqueue_job text = anyhow text
refused fail_raw_event text = sqlx text
refused fail_source text = sqlx text

module _ {V A : Type 0} where
  abbrev pub unless_refused : Statement → Option String → Handler (Db V) A → Handler (Db V) A
  unless_refused statement none m = m
  unless_refused statement (some text) m = lift (fail (refused statement text))

  -- A statement as the database answers it; it writes nothing if it is refused.
  abbrev pub execute : Course → Statement → Handler (Db V) A → Handler (Db V) A
  execute course statement m = unless_refused statement (course.refusal statement) m

abbrev pub active_source : Instant → DataSource → DataSource
active_source now source = record source {
  status = "active";
  last_event_at = some now;
  last_error = none;
}

abbrev pub broken_source : String → DataSource → DataSource
broken_source text source = record source { status = "error"; last_error = some text }

module _ {V : Type 0} where
  -- The key of `on conflict (data_source_id, source_event_id)`.
  unfoldable pub is_delivery : String → String → RawEvent V → Bool
  is_delivery source_id source_event_id raw =
      str_eq raw.data_source_id source_id && str_eq raw.source_event_id source_event_id

  abbrev pub add_raw : RawEvent V → Db V → Db V
  add_raw row db = record db { raw_events = db.raw_events ++ row ∷ [] }

  -- The select that finds the row in the way, if the insert wrote none.
  abbrev pub returned : Course → RawEvent V → Option (RawEvent V) → Handler (Db V) (String × Bool)
  returned course row none = do modify (add_raw row); pure (row.id, true)
  returned course row (some existing) = execute course look_up_raw_event (pure (existing.id, false))

  -- `insert … on conflict do nothing returning id`; `known` is the row in its way.
  unfoldable pub insert_raw :
      Course → RawEvent V → Option (RawEvent V) → Handler (Db V) (String × Bool)
  insert_raw course row known = execute course insert_raw_event (returned course row known)

  unfoldable pub update_source : String → (DataSource → DataSource) → Handler (Db V) (Unit {0})
  update_source source_id change = modify λ db. record db {
    data_sources = update_where (has_source_id source_id) change db.data_sources;
  }

  abbrev pub failed_raw : String → RawEvent V → RawEvent V
  failed_raw text raw = record raw { processing_status = "failed"; processing_error = some text }

  unfoldable pub fail_raw : String → String → Handler (Db V) (Unit {0})
  fail_raw raw_event_id text = modify λ db. record db {
    raw_events = update_where (has_raw_id raw_event_id) (failed_raw text) db.raw_events;
  }

module _ (rt : Runtime) (out : Outside rt.Value) where
  open rt use {Value, from_slice}
  open out use {library_error, google_play_payload}

  unfoldable pub source_credentials : String → Option String → Try ApiError Value
  source_credentials secret_key none =
      fail (bad_request "catch-up credentials are required for this source")
  source_credentials secret_key (some encrypted) = elim (decrypt_json rt out secret_key encrypted) [
    | fail text ↦ fail (anyhow text)
    | pass bytes ↦ context (serde_json library_error) (from_slice bytes)
  ]

  unfoldable pub optional_source_credentials : String → Option String → Try ApiError (Option Value)
  unfolding source_credentials
  optional_source_credentials secret_key none = pass none
  optional_source_credentials secret_key (some encrypted) =
      elim (source_credentials secret_key (some encrypted)) [
        | fail e ↦ fail e
        | pass value ↦ pass (some value)
      ]

  -- `purchase_lookup::processing_payload`: the lookup itself calls the store.
  unfoldable pub processing_payload : String → Value → Option Value → Option Value
  processing_payload source_type payload credentials =
      if str_eq source_type "google_play"
      then some (google_play_payload payload credentials)
      else none

  unfoldable pub delivered_event : Course → WebhookStoreContext Value → Value → ExtractedEvent
  unfolding processing_payload
  delivered_event course ctx payload =
      extract_event rt course.clock ctx.source_type
        (unwrap_or (processing_payload ctx.source_type payload ctx.credentials) payload)
        (payload_sha256 rt payload)

  -- The columns that the insert names, and those that it leaves out.
  unfoldable pub stored_raw :
      String → Course → WebhookStoreContext Value → Value → ExtractedEvent → RawEvent Value
  unfolding processing_payload
  stored_raw id course ctx payload extracted = record {
    id = id;
    workspace_id = ctx.workspace_id;
    app_id = some ctx.app_id;
    data_source_id = ctx.source_id;
    source_type = ctx.source_type;
    source_event_id = extracted.source_event_id;
    source_event_type = some extracted.source_event_type;
    environment = extracted.environment;
    source_app_id = extracted.source_app_id;
    source_product_id = none;
    occurred_at = extracted.occurred_at;
    received_at = course.now;
    payload = payload;
    processing_payload = processing_payload ctx.source_type payload ctx.credentials;
    payload_sha256 = payload_sha256 rt payload;
    signature_verified = ctx.signature_verified;
    processing_status = "stored";
    processing_error = none;
    sync_run_id = ctx.sync_run_id;
  }

  -- The two arms of `match process_normalization_job(…)`.
  unfoldable pub record_outcome :
      Course → String → String → Result (Unit {0}) → Handler (Db Value) (Option String)
  record_outcome course source_id raw_event_id (ok done) = pure none
  record_outcome course source_id raw_event_id (err e) = do
    execute course fail_raw_event (fail_raw raw_event_id (error_text rt e))
    execute course fail_source (update_source source_id (broken_source (error_text rt e)))
    pure (some (error_text rt e))

  -- The end of the call for a payload that was not known.
  unfoldable pub normalize_stored :
      Course → String → String → Handler (Db Value) StoredWebhookPayload
  normalize_stored course source_id raw_event_id = do
    job_id ←
        execute course enqueue_job
          (or_fail (error_text rt) (enqueue_normalization rt course.now raw_event_id))
    result ←
        attempt (process_normalization_job rt course.job_now course.job_clock job_id "api-inline")
    processing_error ← record_outcome course source_id raw_event_id result
    pure (record {
      raw_event_id = raw_event_id;
      inserted = true;
      processing_error = processing_error;
    })

  unfoldable pub finish_delivery :
      Course → String → String × Bool → Handler (Db Value) StoredWebhookPayload
  finish_delivery course source_id (raw_event_id, inserted) =
      if inserted
      then normalize_stored course source_id raw_event_id
      else pure (record { raw_event_id = raw_event_id; inserted = false; processing_error = none })

  -- What follows the insert.
  abbrev pub after_insert :
      Course → String → String × Bool → Handler (Db Value) StoredWebhookPayload
  after_insert course source_id stored = do
    execute course activate_source (update_source source_id (active_source course.now))
    finish_delivery course source_id stored

  unfoldable pub store_webhook_payload :
      Course → WebhookStoreContext Value → Value → Handler (Db Value) StoredWebhookPayload
  store_webhook_payload course ctx payload = do
    let extracted = delivered_event course ctx payload
    raw_id ← or_fail (error_text rt) (draw_id rt "raw")
    known ← gets λ db. find (is_delivery ctx.source_id extracted.source_event_id) db.raw_events
    stored ← insert_raw course (stored_raw raw_id course ctx payload extracted) known
    after_insert course ctx.source_id stored
