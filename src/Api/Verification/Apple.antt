-- ===== src/Api/Verification/Apple.antt =====
-- `verify_apple_jws`, `apple_root_certificates` and `verify_app_store_payload` of
-- crates/api/src/webhook_verification.rs.
pub mod Genuine
use mathlib.Core.Option
use revtern.Prelude.{
  ℕ, String, Bool, true, false, ◌&&◌, ◌||◌, not, Option, none, some, List, [], ◌∷◌, ◌++◌, str_eq,
  zero, suc, nat_eq, length, and_then, unwrap_or, if◌then◌else◌,
}
use revtern.Prelude.Split.{split, as_bytes}
use revtern.Runtime.{Runtime, View, null, bool, number, string, array, object}
use revtern.Core.{◌+++◌}
use revtern.Connectors.Decode.{as_str, get_str}
use revtern.Api.Try.{Try, pass, fail, ◌>>=◌, ◌>>◌, context, recontext, refuse_if}
use revtern.Api.Http.{Outside, AppleJwsHeader}
use revtern.Api.Verification.{credential_string, normalize_apple_environment}

-- Exactly three parts between the points.
abbrev pub jws_parts : List String → Try String (String × String × String)
jws_parts [] = fail "JWS header is missing"
jws_parts (header_part ∷ []) = fail "JWS payload is missing"
jws_parts (header_part ∷ payload_part ∷ []) = fail "JWS signature is missing"
jws_parts (header_part ∷ payload_part ∷ signature_part ∷ []) =
    pass (header_part, payload_part, signature_part)
jws_parts (header_part ∷ payload_part ∷ signature_part ∷ part ∷ parts) =
    fail "JWS must have exactly three components"

abbrev pub no_entries : {A : Type 0} → List A → Bool
no_entries [] = true
no_entries (x ∷ xs) = false

-- `first()`, and what `skip(1)` leaves.
abbrev pub leaf_and_untrusted : {A : Type 0} → List A → Try String (A × List A)
leaf_and_untrusted [] = fail "JWS leaf certificate is missing"
leaf_and_untrusted (leaf ∷ untrusted) = pass (leaf, untrusted)

-- `signature[..n]` and `signature[n..]`.
unfoldable pub split_at : ℕ → List ℕ → List ℕ × List ℕ
split_at zero xs = ([], xs)
split_at (suc n) [] = ([], [])
split_at (suc n) (x ∷ xs) = let (front, back) = split_at n xs in (x ∷ front, back)

module _ (rt : Runtime) (out : Outside rt.Value) where
  open rt use {
    Value, Number, view, get, number_to_string, from_slice, decode_standard, decode_url_safe,
  }
  open out use {
    Certificate, as_array, read_jws_header, apple_root_certificates_pem, stack_from_pem, from_der,
    chain_is_trusted, verify_es256, library_error,
  }

  unfoldable pub read_certificate : String → Try String Certificate
  read_certificate encoded = do
    der ← context "invalid x5c certificate encoding" (decode_standard encoded)
    context "invalid x5c certificate" (from_der der)

  -- `collect`: the first error ends it.
  unfoldable pub read_certificates : List String → Try String (List Certificate)
  read_certificates [] = pass []
  read_certificates (encoded ∷ rest) = do
    certificate ← read_certificate encoded
    certificates ← read_certificates rest
    pass (certificate ∷ certificates)

  -- The certificates that the header names, once their chain is trusted.
  unfoldable pub trusted_leaf : List Certificate → String → Try String Certificate
  trusted_leaf roots header_part = do
    bytes ← context "invalid JWS header encoding" (decode_url_safe header_part)
    header ← context library_error (read_jws_header bytes)
    refuse_if (not (str_eq header.alg "ES256") || no_entries header.x5c)
        "App Store JWS must use ES256 and include an x5c certificate chain"
    certificates ← read_certificates header.x5c
    (leaf, untrusted) ← leaf_and_untrusted certificates
    verified ← context library_error (chain_is_trusted roots leaf untrusted)
    refuse_if (not verified) "App Store x5c certificate chain is not trusted"
    pass leaf

  unfoldable pub check_signature : Certificate → String → String → String → Try String (Unit {0})
  check_signature leaf header_part payload_part signature_part = do
    signature ← context "invalid JWS signature encoding" (decode_url_safe signature_part)
    refuse_if (not (nat_eq (length signature) 64)) "App Store ES256 signature must be 64 bytes"
    let (r, s) = split_at 32 signature
    valid ←
        context library_error
          (verify_es256 leaf (as_bytes (header_part +++ "." +++ payload_part)) r s)
    refuse_if (not valid) "App Store JWS signature is invalid"

  unfoldable pub verify_apple_jws : String → List Certificate → Try String Value
  verify_apple_jws jws roots = do
    (header_part, payload_part, signature_part) ← jws_parts (split b'.' jws)
    leaf ← trusted_leaf roots header_part
    check_signature leaf header_part payload_part signature_part
    payload ← context "invalid JWS payload encoding" (decode_url_safe payload_part)
    context "invalid JWS JSON payload" (from_slice payload)

  -- The loop over the credentials' own roots.
  unfoldable pub add_roots : List Certificate → List Value → Try String (List Certificate)
  add_roots roots [] = pass roots
  add_roots roots (value ∷ values) = do
    pem ← context "apple_root_certificates entries must be PEM strings" (as_str rt value)
    more ← context "invalid Apple root certificate PEM" (stack_from_pem pem)
    add_roots (roots ++ more) values

  abbrev add_pem : List Certificate → Option String → Try String (List Certificate)
  add_pem roots none = pass roots
  add_pem roots (some pem) = do
    more ← context "invalid Apple root certificate PEM" (stack_from_pem pem)
    pass (roots ++ more)

  unfoldable pub apple_root_certificates : Value → Try String (List Certificate)
  unfolding credential_string
  apple_root_certificates credentials = do
    bundled ←
        context "parse bundled Apple root certificates" (stack_from_pem apple_root_certificates_pem)
    roots ←
        add_roots bundled
          (unwrap_or (and_then (get credentials "apple_root_certificates") as_array) [])
    add_pem roots (credential_string rt credentials "apple_root_ca_pem")

  abbrev id_of_view : View Number → Option String
  id_of_view (string text) = some text
  id_of_view (number n) = some (number_to_string n)
  id_of_view null = none
  id_of_view (bool b) = none
  id_of_view array = none
  id_of_view object = none

  unfoldable pub value_as_string : Value → Option String
  value_as_string value = id_of_view (view value)

  unfoldable pub check_bundle : Value → Value → Try String (Unit {0})
  unfolding credential_string
  check_bundle credentials data_value = do
    expected ←
        context "App Store verification requires bundle_id"
          (credential_string rt credentials "bundle_id")
    actual ←
        context "verified App Store payload is missing data.bundleId"
          (get_str rt data_value "bundleId")
    refuse_if (not (str_eq actual expected)) "App Store bundle id does not match the configured app"

  unfoldable pub check_app_id : Value → Value → Try String (Unit {0})
  unfolding credential_string value_as_string
  check_app_id credentials data_value = do
    expected ←
        context "production App Store verification requires app_apple_id"
          (credential_string rt credentials "app_apple_id")
    actual ←
        context "production App Store payload is missing data.appAppleId"
          (and_then (get data_value "appAppleId") value_as_string)
    refuse_if (not (str_eq actual expected))
        "App Store appAppleId does not match the configured app"

  unfoldable pub expected_environment : Value → String
  unfolding credential_string normalize_apple_environment
  expected_environment credentials =
      unwrap_or
        (Option.map normalize_apple_environment (credential_string rt credentials "environment"))
        "both"

  unfoldable pub check_environment : Value → Value → Try String (Unit {0})
  unfolding normalize_apple_environment
  check_environment credentials data_value = do
    stated ←
        context "verified App Store payload is missing data.environment"
          (get_str rt data_value "environment")
    let actual = normalize_apple_environment stated
    let expected = expected_environment credentials
    refuse_if (not (str_eq expected "both") && not (str_eq expected actual))
        "App Store environment does not match the configured source"
    if str_eq actual "production" then check_app_id credentials data_value else pass tt

  abbrev verify_present : List Certificate → String → Option String → Try String (Unit {0})
  verify_present roots message none = pass tt
  verify_present roots message (some jws) = do
    recontext message (verify_apple_jws jws roots)
    pass tt

  -- One turn of the loop over the two nested tokens.
  unfoldable pub verify_field : List Certificate → Value → String → Try String (Unit {0})
  verify_field roots data_value field =
      verify_present roots ("App Store " +++ field +++ " verification failed")
        (get_str rt data_value field)

  unfoldable pub verify_app_store_payload : Value → Option Value → Try String Value
  verify_app_store_payload payload configured = do
    credentials ← context "App Store verification credentials are required (bundle_id)" configured
    signed_payload ←
        context "App Store Server Notifications V2 payload must contain signedPayload"
          (get_str rt payload "signedPayload")
    roots ← apple_root_certificates credentials
    decoded ←
        recontext "App Store signedPayload verification failed"
          (verify_apple_jws signed_payload roots)
    data_value ← context "verified App Store payload is missing data" (get decoded "data")
    check_bundle credentials data_value
    check_environment credentials data_value
    verify_field roots data_value "signedTransactionInfo"
    verify_field roots data_value "signedRenewalInfo"
    pass decoded
