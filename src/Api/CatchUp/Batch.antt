-- ===== src/Api/CatchUp/Batch.antt =====
-- crates/api/src/catchup.rs: a batch of missed webhooks, as the stores answer it.
use revtern.Prelude.{
  ℕ, String, Option, none, some, List, [], ◌∷◌, zero, suc, and_then, unwrap_or, or_else,
  if◌then◌else◌, str_eq,
}
use revtern.Prelude.Int.{ℤ, pos, ◌+ℤ◌}
use revtern.Prelude.Split.{as_bytes, unescape_newlines}
use revtern.Prelude.Text.{trim, to_ascii_lowercase, contains}
use revtern.Runtime.{Instant, Runtime}
use revtern.Core.{◌+++◌, match_arm}
use revtern.Connectors.Decode.{get_str}
use revtern.Api.Try.{Try, pass, fail, ◌>>=◌, ◌>>◌, context, refuse_if}
use revtern.Api.Verification.{nonempty}
use revtern.Api.CatchUp.{CatchUpWindow, clamp}

pub data CatchUpAck : Type 0 where
  google_pub_sub : String → String → List String → CatchUpAck

pub record CatchUpBatch (V : Type 0) : Type 0 where
  pub payloads : List V
  pub next_cursor : Option String
  pub ack : Option CatchUpAck

pub record AppStoreNotificationHistoryResponse : Type 0 where
  pub pagination_token : Option String
  pub notification_history : List String

-- A message of `receivedMessages`; its other fields only go into the payload that is built of it.
pub record GoogleReceivedMessage (M : Type 0) : Type 0 where
  pub ack_id : Option String
  pub message : M

-- `Claims` of `app_store_token`.
pub record AppStoreClaims : Type 0 where
  pub iss : String
  pub iat : ℤ
  pub exp : ℤ
  pub aud : String
  pub bid : String

-- The requests as functions of what they send, and the library calls that make tokens and JSON.
pub record Network (V : Type 0) : Type 1 where
  pub Message : Type 0
  -- host, token, start and end of the window, cursor
  pub notification_history :
      String
      → String
      → Instant
      → Instant
      → Option String
      → Try String AppStoreNotificationHistoryResponse
  -- subscription, token, `maxMessages`
  pub pull : String → String → ℕ → Try String (List (GoogleReceivedMessage Message))
  pub acknowledge : String → String → List String → Try String (Unit {0})
  -- `jsonwebtoken`: a private key, and a token of a key id, claims and a key, signed with ES256
  pub EncodingKey : Type 0
  pub from_ec_pem : List ℕ → Option EncodingKey
  pub encode : String → AppStoreClaims → EncodingKey → Option String
  -- the reading of the clock for the token's claims, in seconds
  pub token_now : ℤ
  pub google_access_token : V → String → Try String String
  pub signed_payload_json : String → V
  pub pubsub_json : Message → String → V

abbrev pub google_pubsub_scope : String
google_pubsub_scope = "https://www.googleapis.com/auth/pubsub"

unfoldable pub app_store_api_host : String → Try String String
app_store_api_host environment = context "environment must be production or sandbox" (
    match_arm (to_ascii_lowercase (trim environment)) (
      ("production", "https://api.storekit.apple.com")
      ∷ ("sandbox", "https://api.storekit-sandbox.apple.com")
      ∷ []))

unfoldable pub take : {A : Type 0} → ℕ → List A → List A
take zero xs = []
take (suc n) [] = []
take (suc n) (x ∷ xs) = x ∷ take n xs

abbrev pub map : {A B : Type 0} → (A → B) → List A → List B
map f [] = []
map f (x ∷ xs) = f x ∷ map f xs

-- `if let Some(ack_id) = … { ack_ids.push(ack_id) }` of each message.
unfoldable pub ack_ids_of : {M : Type 0} → List (GoogleReceivedMessage M) → List String
ack_ids_of [] = []
ack_ids_of (received ∷ messages) =
    let rest = ack_ids_of messages in
    elim received.ack_id [ none ↦ rest | some ack_id ↦ ack_id ∷ rest ]

module _ (rt : Runtime) (net : Network rt.Value) where
  open rt use {Value}
  open net use {Message}

  unfoldable pub optional_string : Value → String → Option String
  unfolding nonempty
  optional_string value key = and_then (get_str rt value key) nonempty

  unfoldable pub required_string : Value → String → Try String String
  unfolding optional_string
  required_string value key = context (key +++ " is required") (optional_string value key)

  -- The first of two keys that holds a text, as its only call asks for.
  unfoldable pub required_string_any : Value → String → String → Try String String
  unfolding optional_string
  required_string_any value key other =
      context (key +++ " or " +++ other +++ " is required")
        (or_else (optional_string value key) (optional_string value other))

  abbrev pub catch_up_environment : Value → String
  catch_up_environment credentials =
      if str_eq
        (to_ascii_lowercase (unwrap_or (optional_string credentials "environment") "production"))
        "sandbox"
      then "sandbox"
      else "production"

  unfoldable pub app_store_token :
      (issuer_id key_id private_key bundle_id : String) → Try String String
  app_store_token issuer_id key_id private_key bundle_id = do
    key ← context "parse App Store private key" (net.from_ec_pem (as_bytes private_key))
    context "sign App Store Server API token" (
        net.encode key_id
          (record {
            iss = issuer_id;
            iat = net.token_now;
            exp = net.token_now +ℤ pos 1200;
            aud = "appstoreconnect-v1";
            bid = bundle_id;
          })
          key)

  unfoldable pub fetch_app_store_notifications :
      Value → CatchUpWindow → Try String (CatchUpBatch Value)
  fetch_app_store_notifications credentials window = do
    issuer_id ← required_string credentials "issuer_id"
    key_id ← required_string credentials "key_id"
    private_key ← required_string credentials "private_key"
    bundle_id ← required_string credentials "bundle_id"
    host ← app_store_api_host (catch_up_environment credentials)
    token ← app_store_token issuer_id key_id (unescape_newlines private_key) bundle_id
    response ← net.notification_history host token window.from window.to window.cursor
    pass (record {
      payloads = map net.signed_payload_json (take window.limit response.notification_history);
      next_cursor = response.pagination_token;
      ack = none;
    })

  abbrev token_or_exchange : Value → Option String → Try String String
  token_or_exchange credentials (some token) = pass token
  token_or_exchange credentials none = net.google_access_token credentials google_pubsub_scope

  unfoldable pub fetch_google_pubsub_messages :
      Value → CatchUpWindow → Try String (CatchUpBatch Value)
  fetch_google_pubsub_messages credentials window = do
    subscription ← required_string_any credentials "pubsub_subscription" "subscription"
    refuse_if (contains subscription "/topics/")
        "pubsub_subscription must be a subscription path like projects/PROJECT_ID/subscriptions/SUBSCRIPTION_ID, not a topic path"
    access_token ← token_or_exchange credentials (optional_string credentials "access_token")
    received ← net.pull subscription access_token (clamp window.limit 1 100)
    pass (record {
      payloads = map (λ entry. net.pubsub_json entry.message subscription) received;
      next_cursor = none;
      ack = some (google_pub_sub subscription access_token (ack_ids_of received));
    })

  unfoldable pub fetch_webhook_notifications :
      String → Value → CatchUpWindow → Try String (CatchUpBatch Value)
  fetch_webhook_notifications source_type credentials window =
      if str_eq source_type "app_store"
      then fetch_app_store_notifications credentials window
      else if str_eq source_type "google_play"
      then fetch_google_pubsub_messages credentials window
      else fail "webhook catch-up is only supported for App Store and Google Play"

  -- No request is made for no message.
  unfoldable pub acknowledge_batch : CatchUpAck → Try String (Unit {0})
  acknowledge_batch (google_pub_sub subscription access_token []) = pass tt
  acknowledge_batch (google_pub_sub subscription access_token (id ∷ ids)) =
      net.acknowledge subscription access_token (id ∷ ids)
