-- ===== src/Examples/Webhooks.antt =====
-- Webhooks that are delivered to a database of one source, on the platform of numbered documents.
use revtern.Prelude.{
  ℕ, String, true, false, Option, none, some, [], ◌∷◌, ◌≡◌, ◌⊎◌, refl, find, update_where,
}
use revtern.Prelude.Text.{trim}
use revtern.Prelude.Split.{replace_char, as_bytes, char_bytes}
use revtern.Core.{sha256_hex, hex_lower}
use revtern.Connectors.Pick.{pick_string, for_names, field_at, pointer_of}
use revtern.Connectors.Custom.{extract_custom}
use revtern.Connectors.Extract.{extract_event}
use revtern.Jobs.Tables.{Db, DataSource, RawEvent}
use revtern.Jobs.Exec.{draw_id}
use revtern.Api.Try.{pass}
use revtern.Api.Http.{header}
use revtern.Api.Handler.{◌>>=◌}
use revtern.Api.Verification.{bearer_header}
use revtern.Api.Verification.Secret.{secret_candidate, hash_matches, verify_shared_secret}
use revtern.Api.Webhooks.{
  Course, Statement, insert_raw_event, look_up_raw_event, activate_source, enqueue_job,
  fail_raw_event, fail_source, WebhookStoreContext, StoredWebhookPayload, normalize_source_type,
  optional_source_credentials, is_delivery, insert_raw, update_source, processing_payload,
  delivered_event, finish_delivery, store_webhook_payload,
}
use revtern.Api.Webhooks.Deliveries.{HasUniqueDeliveries}
use revtern.Api.Webhooks.Cases.{touched}
use revtern.Api.Webhooks.Redelivery.{
  IsStored, IsGivenUp, AcceptsKnown, store_webhook_payload-IsAnswered, store_webhook_payload-again,
}
use revtern.Api.Webhooks.Unique.{store_webhook_payload-HasUnique}
use revtern.Api.Webhooks.Refines.{Delivers, store_webhook_payload-deliver}
use revtern.Api.Webhooks.Receive.{
  Inbox, WebhookAnswer, authenticate_other, authenticate, process_webhook,
}
use revtern.Api.Webhooks.Outcome.{IsAccepted, process_webhook-IsAccepted}
use revtern.Examples.Service.{service_platform, service_outside}
use revtern.Examples.Verification.{configured_secret, no_keys, first_call}
use revtern.Examples.Verification.Compares.{service_outside-ComparesBytes}

abbrev pub custom_source : DataSource
custom_source = record {
  id = "ds";
  workspace_id = "ws";
  app_id = some "app";
  source_type = "custom_api";
  status = "active";
  webhook_secret_hash = some configured_secret;
  encrypted_credentials = none;
  last_event_at = none;
  last_sync_at = none;
  last_error = none;
}

abbrev pub known_raw : RawEvent ℕ
known_raw = record {
  id = "raw_1";
  workspace_id = "ws";
  app_id = some "app";
  data_source_id = "ds";
  source_type = "custom_api";
  source_event_id = "e1";
  source_event_type = none;
  environment = "production";
  source_app_id = none;
  source_product_id = none;
  occurred_at = 5;
  received_at = 6;
  payload = 8;
  processing_payload = none;
  payload_sha256 = "08";
  signature_verified = true;
  processing_status = "processed";
  processing_error = none;
  sync_run_id = none;
}

abbrev pub empty_db : Db ℕ
empty_db = record {
  data_sources = custom_source ∷ [];
  raw_events = [];
  jobs = [];
  source_products = [];
  product_mappings = [];
  normalized_events = [];
  customers = [];
  transactions = [];
  subscriptions = [];
  daily_metrics = [];
  ids_drawn = 0;
}

abbrev pub first_time : Course
first_time = record {
  now = 10;
  clock = λ n. 10;
  job_now = 11;
  job_clock = λ n. 11;
  refusal = λ statement. none;
}

abbrev second_time : Course
second_time = record {
  now = 20;
  clock = λ n. 20;
  job_now = 21;
  job_clock = λ n. 21;
  refusal = λ statement. none;
}

-- The job of the payload cannot be enqueued.
abbrev without_job : Statement → Option String
without_job insert_raw_event = none
without_job look_up_raw_event = none
without_job activate_source = none
without_job enqueue_job = some "connection closed"
without_job fail_raw_event = none
without_job fail_source = none

abbrev interrupted_time : Course
interrupted_time = record first_time { refusal = without_job }

abbrev custom_context : WebhookStoreContext ℕ
custom_context = record {
  workspace_id = "ws";
  app_id = "app";
  source_id = "ds";
  source_type = "custom_api";
  signature_verified = true;
  sync_run_id = none;
  credentials = none;
}

store_webhook_payload-IsAnswered_example :
    IsStored service_platform service_outside interrupted_time custom_context 8 empty_db
    ⊎ IsGivenUp service_platform service_outside interrupted_time custom_context 8 empty_db
store_webhook_payload-IsAnswered_example =
    store_webhook_payload-IsAnswered service_platform service_outside interrupted_time
      custom_context 8 empty_db

store_webhook_payload-again_example :
    (id : String) × ((stored : StoredWebhookPayload)
      → (store_webhook_payload service_platform service_outside interrupted_time custom_context 8
          empty_db).0
        ≡ pass stored
      → stored.raw_event_id ≡ id)
    × (store_webhook_payload service_platform service_outside second_time custom_context 8
          (store_webhook_payload service_platform service_outside interrupted_time custom_context 8
            empty_db).1
        ≡ (
          pass (record { raw_event_id = id; inserted = false; processing_error = none }),
          touched service_platform service_outside second_time custom_context
              (store_webhook_payload service_platform service_outside interrupted_time
                custom_context 8 empty_db).1,
        ))
unfolding delivered_event processing_payload extract_event extract_custom pick_string for_names
    field_at pointer_of AcceptsKnown
store_webhook_payload-again_example =
    store_webhook_payload-again service_platform service_outside interrupted_time second_time
      custom_context custom_context 8 8 empty_db refl (refl, refl, refl) refl refl

store_webhook_payload-HasUnique_example :
    HasUniqueDeliveries
      (store_webhook_payload service_platform service_outside first_time custom_context 8
        (record empty_db { raw_events = known_raw ∷ [] })).1
store_webhook_payload-HasUnique_example =
    store_webhook_payload-HasUnique service_platform service_outside first_time custom_context 8
      (record empty_db { raw_events = known_raw ∷ [] }) (tt, tt)

store_webhook_payload-deliver_example :
    Delivers service_platform service_outside first_time custom_context 8 empty_db
store_webhook_payload-deliver_example =
    store_webhook_payload-deliver service_platform service_outside first_time custom_context 8
      empty_db

abbrev known_inbox : Inbox service_platform service_outside
known_inbox = record { db = record empty_db { raw_events = known_raw ∷ [] }; keys = no_keys }

abbrev known_answer : WebhookAnswer
known_answer = record {
  raw_event_id = "raw_1";
  inserted = false;
  signature_verified = true;
  processing_error = none;
}

process_webhook-IsAccepted_example :
    IsAccepted service_platform service_outside "key" "custom-api" "ds" [] 8 first_call known_inbox
      known_answer
unfolding process_webhook ◌>>=◌ normalize_source_type replace_char find optional_source_credentials
    authenticate authenticate_other verify_shared_secret secret_candidate bearer_header header
    hash_matches as_bytes sha256_hex hex_lower store_webhook_payload draw_id insert_raw
    update_source update_where finish_delivery is_delivery delivered_event processing_payload
    extract_event extract_custom pick_string for_names field_at pointer_of char_bytes trim
process_webhook-IsAccepted_example =
    process_webhook-IsAccepted service_platform service_outside "key" first_time "custom-api" "ds"
      [] 8 first_call known_inbox
      (process_webhook service_platform service_outside "key" first_time "custom-api" "ds" [] 8
        first_call known_inbox).1
      known_answer service_outside-ComparesBytes refl

abbrev new_inbox : Inbox service_platform service_outside
new_inbox = record { db = empty_db; keys = no_keys }
