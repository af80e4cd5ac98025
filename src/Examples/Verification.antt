-- ===== src/Examples/Verification.antt =====
-- Webhooks whose authenticity is checked on the platform of numbered documents.
pub mod Compares
use revtern.Prelude.{
  ℕ, ◌*◌, String, true, false, Option, none, some, List, [], ◌∷◌, ◌≡◌, ◌↔◌, refl, find,
}
use revtern.Prelude.Text.{trim, map_chars, to_ascii_lowercase, parse_natural}
use revtern.Prelude.Split.{split, split_once, strip_prefix, trim_matches, parse_u64, as_bytes}
use revtern.Core.{match_arm, hex_lower}
use revtern.Api.Try.{pass, ◌>>=◌}
use revtern.Api.Http.{Headers, header}
use revtern.Api.Verification.{
  bearer_header, credential_string, normalize_apple_environment, nonempty,
}
use revtern.Api.Verification.Secret.{
  secret_candidate, verify_shared_secret, Presents, verify_shared_secret-Presents,
}
use revtern.Api.Verification.Apple.{
  read_certificate, read_certificates, trusted_leaf, check_signature, split_at, verify_apple_jws,
  add_roots, apple_root_certificates, value_as_string, check_bundle, check_app_id,
  expected_environment, check_environment, verify_field, verify_app_store_payload,
}
use revtern.Api.Verification.Apple.Genuine.{IsGenuine, verify_app_store_payload-IsGenuine}
use revtern.Api.Verification.Keys.{
  GoogleJwksCache, Call, second, find_map, parse_cache_control_max_age, response_ttl,
  fetch_google_jwks, needs_refresh, signing_key, refresh_keys, google_decoding_key,
}
use revtern.Api.Verification.Keys.Backoff.{
  Spaced, request_times, sends_request, answered, google_decoding_key-Spaced,
}
use revtern.Api.Verification.Keys.Fresh.{IsKeyOf, IsFresh, google_decoding_key-IsFresh}
use revtern.Api.Verification.Google.{
  verify_google_pubsub_token, pubsub_token, check_token, verify_google_pubsub_oidc,
}
use revtern.Api.Verification.Google.Pushed.{IsPushed, verify_google_pubsub_oidc-IsPushed}
use revtern.Api.Http.{KeyResponse}
use revtern.Examples.Service.{service_platform, service_outside}
use revtern.Examples.Verification.Compares.{service_outside-ComparesBytes}

abbrev pub pushed_headers : Headers
pushed_headers = ("authorization", some "Bearer tok") ∷ []

-- The digest that the platform gives of the secret in document 8.
abbrev pub configured_secret : String
configured_secret = "733363726574"

verify_shared_secret-Presents_example :
    (verify_shared_secret service_platform service_outside (some configured_secret) [] 8 ≡ true)
    ↔ Presents service_platform service_outside (some configured_secret) [] 8
verify_shared_secret-Presents_example =
    verify_shared_secret-Presents service_platform service_outside service_outside-ComparesBytes
      (some configured_secret) [] 8

verify_app_store_payload-IsGenuine_example : IsGenuine service_platform service_outside 1 4 2
unfolding verify_app_store_payload ◌>>=◌ apple_root_certificates add_roots credential_string
    nonempty trim verify_apple_jws split trusted_leaf read_certificate read_certificates
    check_signature split_at check_bundle check_environment expected_environment
    normalize_apple_environment match_arm to_ascii_lowercase map_chars check_app_id value_as_string
    verify_field
verify_app_store_payload-IsGenuine_example =
    verify_app_store_payload-IsGenuine service_platform service_outside 1 4 2 refl

abbrev pub no_keys : GoogleJwksCache service_outside
no_keys = record { jwks = none; expires_at = none; last_refresh_attempt = none }

-- Keys that are fetched for ten minutes, and a call that fails before the backoff has passed.
abbrev key_response : KeyResponse ℕ
key_response = record {
  is_success = true;
  cache_control = some "public, max-age=600";
  keys = some 3;
}

abbrev pub first_call : Call service_outside
first_call = record { now = 100 * second; response = some key_response; after = 101 * second }

abbrev second_call : Call service_outside
second_call = record { now = 110 * second; response = none; after = 111 * second }

abbrev pub fetched_keys : GoogleJwksCache service_outside
fetched_keys = record {
  jwks = some 3;
  expires_at = some (701 * second);
  last_refresh_attempt = some (100 * second);
}

google_decoding_key-Spaced_example :
    Spaced service_outside (
      request_times service_outside
        (("k1", first_call) ∷ ("k2", second_call) ∷ ("k1", second_call) ∷ [])
        no_keys)
    × ((kid : String) (call : Call service_outside) (response : Option (KeyResponse ℕ))
        → sends_request service_outside kid call no_keys ≡ false
        → google_decoding_key service_outside kid (answered service_outside response call) no_keys
          ≡ google_decoding_key service_outside kid call no_keys)
google_decoding_key-Spaced_example =
    google_decoding_key-Spaced service_outside
      (("k1", first_call) ∷ ("k2", second_call) ∷ ("k1", second_call) ∷ []) no_keys

google_decoding_key-IsFresh_example :
    IsKeyOf service_outside fetched_keys "k1" 3
    × IsFresh service_outside first_call no_keys fetched_keys
unfolding google_decoding_key needs_refresh refresh_keys fetch_google_jwks signing_key ◌>>=◌
    response_ttl parse_cache_control_max_age find_map split split_once trim to_ascii_lowercase
    map_chars trim_matches parse_u64 parse_natural
google_decoding_key-IsFresh_example =
    google_decoding_key-IsFresh service_outside "k1" first_call no_keys fetched_keys 3 refl

verify_google_pubsub_oidc-IsPushed_example :
    IsPushed service_platform service_outside pushed_headers 6 first_call fetched_keys fetched_keys
unfolding verify_google_pubsub_oidc credential_string nonempty trim check_token pubsub_token
    bearer_header header strip_prefix find google_decoding_key needs_refresh signing_key ◌>>=◌
    verify_google_pubsub_token
verify_google_pubsub_oidc-IsPushed_example =
    verify_google_pubsub_oidc-IsPushed service_platform service_outside pushed_headers 6 first_call
      fetched_keys fetched_keys refl
