-- ===== src/Lib.antt =====
-- Revtern turns the purchase notifications of app stores and payment providers into one ledger of
-- events, and projects the ledger into transactions, subscriptions, customers and daily sums.
--
-- The program's parts and how they interact:
-- * crates/core/src/lib.rs names the vocabulary (event types, product kinds, billing periods), infers
--   kinds and periods from names, reads money and times from JSON, and builds product keys. Core.
-- * crates/connectors/src/lib.rs reads a provider's payload into an `ExtractedEvent`: `extract_event`
--   selects the reader of the source type. Connectors: Pick (pick_string and the like), Environment,
--   Decode (payloads inside payloads), Mapping (event types and platforms), and the readers in
--   Revenuecat, Custom (also extract_generic), AppStore, GooglePlay, Web (Stripe and Paddle), Extract.
-- * crates/jobs/src/lib.rs is the worker. Queue: enqueue_normalization, process_normalization_job and
--   process_next_job. Process: process_raw_event, which reads a raw event by extract_event and then
--   calls Products (upsert_source_product, active_logical_product), Ledger (insert_normalized_event),
--   Transactions (project_transaction), Subscriptions (project_subscription), Customers
--   (upsert_customer) and Metrics (update_daily_metric). Tables holds the rows
--   (crates/api/migrations/0001_init.sql), Exec the statements.
-- * crates/api/src/webhook_verification.rs decides who may deliver a webhook. Api.Verification: Secret
--   (verify_shared_secret), Apple (verify_app_store_payload and verify_apple_jws), Google
--   (verify_google_pubsub_oidc, verify_google_play_package) and Keys, the cache of Google's signing keys
--   as a state (google_decoding_key, fetch_google_jwks).
-- * crates/api/src/routes.rs receives webhooks and runs their first job. Api.Webhooks:
--   store_webhook_payload, which calls the queue, and Receive (process_webhook, ingest_webhook), which
--   calls the verification before it. Api.CatchUp: the window of a catch-up, Batch
--   (crates/api/src/catchup.rs) and Run (run_webhook_catch_up), which stores a batch by the same call.
--   Api.Crypto is crates/api/src/crypto.rs.
-- * crates/api/src/auth.rs keeps the sessions, in the tables of Api.Logins. Api.Sessions:
--   create_session_with_identity, create_bearer_session, clear_session, clear_bearer_session and
--   current_from_session; its child Modes: the user of a request under each mode of authentication and
--   the guard against forged requests.
-- * crates/api/src/access.rs and the tables of crates/api/migrations/0005_multi_user_foundation.sql:
--   Api.Accounts (require_app and the view effective_app_permissions) and Api.Accounts.Invitations
--   (accept_invitation_in_transaction of routes.rs).
-- * Runtime is a parameter of the model, operations without laws: serde_json values, f64, and
--   the time, base64, sha2 and uuid crates. Api.Http.Outside adds what only the service calls
--   (certificates, signed tokens and their key sets, the cipher, the lookup of a Google purchase), and
--   Api.CatchUp.Batch.Network the requests of a catch-up.
-- * Prelude holds the shared names, tests, integers, texts and the lemmas on rows; Examples holds a
--   small runtime, rows and a database on which each theorem is applied.
--
-- How state and operations correspond to the code:
-- * The database is a record of lists of rows. A statement is a function from the database to a result
--   and a database (Jobs.Exec); there is no transaction around the worker's statements, so the writes
--   before a failure stay. `insert … on conflict … do update` puts a row in the place of the row with
--   the same key; `excluded` is the proposed row. The ways to fail that are modelled are a missing row,
--   a sum outside `bigint`, a payload without raw_event_id, a source without an application, a
--   second user or session with the unique key of another, and of the statements of
--   store_webhook_payload each one that the database refuses (the field refusal of Course).
-- * `now` is the time of the statements of one call, `clock n` the n-th reading of the clock; times
--   are counts of microseconds. Identifiers are made from a counter that every call of new_id moves;
--   those of the sessions, and random tokens, are arguments.
-- * `i64` wraps as in a release build (Prelude.Int); attempts are unbounded, the columns being far
--   from their bounds. Confidence is in hundredths.
-- * A handler of the service (Api.Handler) is a function from its state to a value or an `ApiError` and
--   the state after it; pure checks answer a value or the text of an `anyhow` error (Api.Try). The
--   cache of signing keys belongs to the process, so its lock is held over a call and calls follow one
--   another. `std::time::Instant` is a count of nanoseconds with a last one, past which addition
--   panics; `OffsetDateTime` counts from its first instant, below which the model stops at 0
--   where the code panics, and has no last one.
-- * Every recursion is structural, so no fuel is needed and every function is total.
--
-- Not modelled: of crates/api the sign-in and its passwords, OpenID Connect, the lookup of
-- purchases, the changes of applications, members and sources, the queries that answer JSON, the
-- rows of sync_runs and of audit_events, and configuration; the metric value records of crates/core
-- and today_utc, the columns created_at and updated_at where no query reads them, foreign keys but
-- that of a session's user, lost connections elsewhere, and other statements between those of one call: their
-- interleaving is seen only at the claim of a job, which is one statement.
pub mod Prelude
pub mod Runtime
pub mod Core
pub mod Connectors
pub mod Jobs
pub mod Api
pub mod Examples
