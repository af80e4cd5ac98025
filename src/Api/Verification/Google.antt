-- ===== src/Api/Verification/Google.antt =====
-- `verify_google_pubsub_oidc`, `verify_google_pubsub_token` and `verify_google_play_package` of
-- crates/api/src/webhook_verification.rs.
pub mod Pushed
use revtern.Prelude.{
  String, Bool, true, false, ◌&&◌, ◌||◌, not, Option, none, some, [], ◌∷◌, str_eq, and_then,
  or_else,
}
use revtern.Runtime.{Runtime, View, null, bool, number, string, array, object}
use revtern.Connectors.Decode.{as_str, get_str}
use revtern.Api.Try.{Try, pass, fail, ◌>>=◌, ◌>>◌, context, refuse_if}
use revtern.Api.Http.{Headers, Outside, TokenHeader}
use revtern.Api.Verification.{bearer_header, credential_string}
use revtern.Api.Verification.Keys.{GoogleJwksCache, Call, google_decoding_key}

-- `value == Some(expected)`.
abbrev pub is_text : String → Option String → Bool
is_text expected none = false
is_text expected (some actual) = str_eq actual expected

module _ (rt : Runtime) (out : Outside rt.Value) where
  open rt use {Value, Number, view, get, from_slice, decode_standard}
  open out use {DecodingKey, decode_header, decode_claims}

  abbrev pub says_true : View Number → Bool
  says_true (bool b) = b
  says_true (string text) = str_eq text "true"
  says_true null = false
  says_true (number n) = false
  says_true array = false
  says_true object = false

  abbrev pub claim_says_true : Option Value → Bool
  claim_says_true none = false
  claim_says_true (some value) = says_true (view value)

  unfoldable pub verify_google_pubsub_token :
      String → DecodingKey → String → String → Try String (Unit {0})
  verify_google_pubsub_token token key expected_audience expected_email = do
    claims ← context "Google Pub/Sub Bearer token signature or standard claims are invalid" (
        decode_claims token key expected_audience
          ("accounts.google.com" ∷ "https://accounts.google.com" ∷ []) ("aud" ∷ "exp" ∷ "iss" ∷ []))
    refuse_if
        (not (is_text expected_email (get_str rt claims "email"))
          || not (claim_says_true (get claims "email_verified")))
        "Google Pub/Sub token service account identity does not match the configured source"

  -- What is read of the request before the key is looked up: the e-mail address, the token and the
  -- id of its key.
  unfoldable pub pubsub_token : Headers → Value → Try String (String × String × String)
  unfolding bearer_header credential_string
  pubsub_token headers credentials = do
    expected_email ←
        context "Google Pub/Sub OIDC verification requires pubsub_service_account_email"
          (credential_string rt credentials "pubsub_service_account_email")
    token ← context "Google Pub/Sub push is missing its Bearer token" (bearer_header headers)
    header ← context "Google Pub/Sub Bearer token header is invalid" (decode_header token)
    refuse_if (not header.is_rs256) "Google Pub/Sub Bearer token must use RS256"
    kid ← context "Google Pub/Sub Bearer token is missing its key id" header.kid
    pass (expected_email, token, kid)

  -- `google_decoding_key(kid).await?`, and the token checked with the key.
  unfoldable pub check_token :
      String
      → Call out
      → GoogleJwksCache out
      → Try String (String × String × String)
      → Try String Bool × GoogleJwksCache out
  unfolding google_decoding_key
  check_token audience call cache (fail e) = (fail e, cache)
  check_token audience call cache (pass (expected_email, token, kid)) =
      let (found, cache') = google_decoding_key out kid call cache in
      (
        (do key ← found; verify_google_pubsub_token token key audience expected_email; pass true),
        cache',
      )

  abbrev with_audience :
      Headers
      → Value
      → Option String
      → Call out
      → GoogleJwksCache out
      → Try String Bool × GoogleJwksCache out
  with_audience headers credentials none call cache = (pass false, cache)
  with_audience headers credentials (some audience) call cache =
      check_token audience call cache (pubsub_token headers credentials)

  unfoldable pub verify_google_pubsub_oidc :
      Headers
      → Option Value
      → Call out
      → GoogleJwksCache out
      → Try String Bool × GoogleJwksCache out
  unfolding credential_string
  verify_google_pubsub_oidc headers none call cache = (pass false, cache)
  verify_google_pubsub_oidc headers (some credentials) call cache =
      with_audience headers credentials (credential_string rt credentials "pubsub_oidc_audience")
        call cache

  -- `map(…).transpose()?.unwrap_or_else(…)` on the field `message.data`.
  abbrev notification_from : Value → Option String → Try String Value
  notification_from payload none = pass payload
  notification_from payload (some encoded) = do
    bytes ← context "invalid Google Pub/Sub message.data encoding" (decode_standard encoded)
    context "invalid Google Play developer notification JSON" (from_slice bytes)

  unfoldable pub developer_notification : Value → Try String Value
  developer_notification payload =
      notification_from payload
        (and_then (get payload "message") λ message. get_str rt message "data")

  abbrev check_package : Value → Option String → Try String (Unit {0})
  check_package payload none = pass tt
  check_package payload (some expected) = do
    notification ← developer_notification payload
    actual ← context "Google Play developer notification is missing packageName" (
        and_then (or_else (get notification "packageName") (get notification "package_name"))
          (as_str rt))
    refuse_if (not (str_eq actual expected))
        "Google Play package name does not match the configured app"

  unfoldable pub verify_google_play_package : Value → Option Value → Try String (Unit {0})
  unfolding credential_string developer_notification
  verify_google_play_package payload credentials =
      check_package payload
        (and_then credentials λ value. credential_string rt value "package_name")
