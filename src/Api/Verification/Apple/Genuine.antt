-- ===== src/Api/Verification/Apple/Genuine.antt =====
-- What a webhook of the App Store that passed `verify_app_store_payload` is known to be.
use revtern.Prelude.{
  ℕ, String, true, false, ◌&&◌, not, some, List, [], ◌∷◌, ◌≡◌, ◌⊎◌, inl, inr, str_eq, eq_iff,
  length, and_then, Bool-cases, not-false, or-false, arith,
}
use revtern.Prelude.Split.{split, as_bytes}
use revtern.Runtime.{Runtime}
use revtern.Core.{◌+++◌}
use revtern.Connectors.Decode.{get_str}
use revtern.Api.Try.{
  pass, after_pass, context_inv, after_context, after_recontext, after_refuse, refuse_if_inv,
}
use revtern.Api.Http.{Outside, AppleJwsHeader}
use revtern.Api.Verification.{credential_string, normalize_apple_environment}
use revtern.Api.Verification.Apple.{
  jws_parts, leaf_and_untrusted, split_at, read_certificates, trusted_leaf, check_signature,
  verify_apple_jws, apple_root_certificates, value_as_string, check_bundle, check_app_id,
  expected_environment, check_environment, verify_field, verify_app_store_payload,
}

pub same_text : (s t : String) → not (str_eq s t) ≡ false → s ≡ t
same_text s t h = grind (arith, eq_iff, not-false (str_eq s t) h)

jws_parts_inv :
    (parts : List String) {h p s : String}
    → jws_parts parts ≡ pass (h, p, s)
    → parts ≡ h ∷ p ∷ s ∷ []
jws_parts_inv [] e = cc e
jws_parts_inv (a ∷ []) e = cc e
jws_parts_inv (a ∷ b ∷ []) e = cc e
jws_parts_inv (a ∷ b ∷ c ∷ []) e = cc e
jws_parts_inv (a ∷ b ∷ c ∷ d ∷ parts) e = cc e

leaf_and_untrusted_inv :
    {A : Type 0} (xs : List A) {x : A} {rest : List A}
    → leaf_and_untrusted xs ≡ pass (x, rest)
    → xs ≡ x ∷ rest
leaf_and_untrusted_inv [] h = cc h
leaf_and_untrusted_inv (y ∷ ys) h = cc h

one_of_two : (s t u v : String) → not (str_eq s t) && not (str_eq u v) ≡ false → (s ≡ t) ⊎ (u ≡ v)
one_of_two s t u v h = elim (Bool-cases (str_eq s t)) [
  | inl same ↦ inl (grind (arith, eq_iff, same))
  | inr apart ↦ inr (same_text u v (rw apart at h))
]

module _ (rt : Runtime) (out : Outside rt.Value) where
  open rt use {Value, get, from_slice, decode_url_safe}
  open out use {Certificate, read_jws_header, chain_is_trusted, verify_es256}

  -- The header of a token names ES256 and a chain of certificates from the leaf to a root.
  pub record IsTrusted (roots : List Certificate) (header_part : String) (leaf : Certificate)
      : Type 0 where
    pub header : AppleJwsHeader
    pub untrusted : List Certificate
    pub reads : and_then (decode_url_safe header_part) read_jws_header ≡ some header
    pub is_es256 : header.alg ≡ "ES256"
    pub chain : read_certificates rt out header.x5c ≡ pass (leaf ∷ untrusted)
    pub is_trusted : chain_is_trusted roots leaf untrusted ≡ some true

  -- A token of three parts: the leaf of a trusted chain has signed the first two with 64 bytes, and
  -- the second is the value.
  pub record IsSigned (roots : List Certificate) (jws : String) (value : Value) : Type 0 where
    pub header_part : String
    pub payload_part : String
    pub signature_part : String
    pub has_parts : split b'.' jws ≡ header_part ∷ payload_part ∷ signature_part ∷ []
    pub leaf : Certificate
    pub has_leaf : IsTrusted roots header_part leaf
    pub signature : List ℕ
    pub has_signature : decode_url_safe signature_part ≡ some signature
    pub is_64_bytes : length signature ≡ 64
    pub is_valid :
        verify_es256 leaf
          (as_bytes (header_part +++ "." +++ payload_part))
          (split_at 32 signature).0
          (split_at 32 signature).1
        ≡ some true
    pub is_payload : and_then (decode_url_safe payload_part) from_slice ≡ some value

  trusted_leaf_lem :
      (roots : List Certificate) (header_part : String) {leaf : Certificate}
      → trusted_leaf rt out roots header_part ≡ pass leaf
      → IsTrusted roots header_part leaf
  unfolding trusted_leaf
  trusted_leaf_lem roots header_part h = after_context _ _ _ h λ bytes decoded h1.
      after_context _ _ _ h1 λ header read h2. after_refuse _ _ _ h2 λ accepted h3.
        after_pass _ _ h3 λ certificates collected h4.
          after_pass _ _ h4 λ (first, untrusted) split_off h5.
            after_context _ _ _ h5 λ verified chained h6. after_refuse _ _ _ h6 λ trusted h7.
              record {
                header = header;
                untrusted = untrusted;
                reads = rw decoded read;
                is_es256 = same_text header.alg "ES256" (or-false _ _ accepted).0;
                chain = cc (leaf_and_untrusted_inv certificates split_off, collected, h7);
                is_trusted = cc (not-false verified trusted, chained, h7);
              }

  verify_apple_jws_lem :
      (jws : String) (roots : List Certificate) {value : Value}
      → verify_apple_jws rt out jws roots ≡ pass value
      → IsSigned roots jws value
  unfolding verify_apple_jws check_signature
  verify_apple_jws_lem jws roots h =
      after_pass _ _ h λ (header_part, payload_part, signature_part) parts h1.
        after_pass _ _ h1 λ leaf trusted h2. after_pass _ _ h2 λ u signed h3.
          after_context _ _ _ h3 λ payload decoded h4.
            after_context _ _ _ signed λ signature has_signature h5.
              after_refuse _ _ _ h5 λ is_long h6. after_context _ _ _ h6 λ valid checked h7.
                record {
                  header_part = header_part;
                  payload_part = payload_part;
                  signature_part = signature_part;
                  has_parts = jws_parts_inv (split b'.' jws) parts;
                  leaf = leaf;
                  has_leaf = trusted_leaf_lem roots header_part trusted;
                  signature = signature;
                  has_signature = has_signature;
                  is_64_bytes = ground (arith, not-false _ is_long);
                  is_valid = cc (checked, not-false valid (refuse_if_inv _ _ h7));
                  is_payload = rw decoded (context_inv _ _ h4);
                }

  -- The nested token of a field, if the field holds one, is signed too.
  pub NestedIsSigned : List Certificate → Value → String → Type 0
  NestedIsSigned roots data_value field =
      (jws : String)
      → get_str rt data_value field ≡ some jws
      → (value : Value) × IsSigned roots jws value

  -- The application and the environment of a payload are those that the credentials name.
  pub record IsForApp (credentials data_value : Value) : Type 0 where
    pub bundle : String
    pub expected_bundle : credential_string rt credentials "bundle_id" ≡ some bundle
    pub is_bundle : get_str rt data_value "bundleId" ≡ some bundle
    pub environment : String
    pub is_stated : get_str rt data_value "environment" ≡ some environment
    pub is_expected :
        (expected_environment rt out credentials ≡ "both")
        ⊎ (expected_environment rt out credentials ≡ normalize_apple_environment environment)
    pub is_app :
        normalize_apple_environment environment ≡ "production"
        → (app_id : String) × (credential_string rt credentials "app_apple_id" ≡ some app_id)
          × (and_then (get data_value "appAppleId") (value_as_string rt out) ≡ some app_id)

  pub record IsGenuine (payload credentials decoded : Value) : Type 0 where
    pub signed_payload : String
    pub is_sent : get_str rt payload "signedPayload" ≡ some signed_payload
    pub roots : List Certificate
    pub are_roots : apple_root_certificates rt out credentials ≡ pass roots
    pub is_signed : IsSigned roots signed_payload decoded
    pub data_value : Value
    pub has_data : get decoded "data" ≡ some data_value
    pub is_for_app : IsForApp credentials data_value
    pub transaction : NestedIsSigned roots data_value "signedTransactionInfo"
    pub renewal : NestedIsSigned roots data_value "signedRenewalInfo"

  verify_field_lem :
      (roots : List Certificate) (data_value : Value) (field : String) {u : Unit {0}}
      → verify_field rt out roots data_value field ≡ pass u
      → NestedIsSigned roots data_value field
  unfolding verify_field NestedIsSigned
  verify_field_lem roots data_value field h jws found =
      after_recontext _ _ _ (rw found at h)
        λ value verified h1. (value, verify_apple_jws_lem jws roots verified)

  check_app_lem :
      (credentials data_value : Value) {u v : Unit {0}}
      → check_bundle rt out credentials data_value ≡ pass u
      → check_environment rt out credentials data_value ≡ pass v
      → IsForApp credentials data_value
  unfolding check_bundle check_environment check_app_id
  check_app_lem credentials data_value hb he = after_context _ _ _ hb λ expected configured b1.
      after_context _ _ _ b1 λ actual named b2. after_context _ _ _ he λ environment stated e1.
        after_refuse _ _ _ e1 λ allowed e2. record {
          bundle = expected;
          expected_bundle = configured;
          is_bundle = cc (named, same_text actual expected (refuse_if_inv _ _ b2));
          environment = environment;
          is_stated = stated;
          is_expected = one_of_two _ _ _ _ allowed;
          is_app = λ production.
              after_context _ _ _ (rw production at e2) λ app_id app_configured a1.
                after_context _ _ _ a1 λ actual_app app_named a2. (
                  app_id,
                  app_configured,
                  cc (app_named, same_text actual_app app_id (refuse_if_inv _ _ a2)),
                );
        }

  -- A webhook of the App Store that passes the verification was signed by the leaf of a certificate
  -- chain that ends in a trusted root, with every token nested in it, and is for the bundle, the
  -- environment and, in production, the App Store id that the source's credentials name.
  pub verify_app_store_payload-IsGenuine :
      (payload credentials decoded : Value)
      → verify_app_store_payload rt out payload (some credentials) ≡ pass decoded
      → IsGenuine payload credentials decoded
  unfolding verify_app_store_payload
  verify_app_store_payload-IsGenuine payload credentials decoded h =
      after_pass (pass credentials) _ h λ given is_given h1.
        after_context _ _ _ h1 λ signed_payload sent h2. after_pass _ _ h2 λ roots are_roots h3.
          after_recontext _ _ _ h3 λ value verified h4.
            after_context _ _ _ h4 λ data_value has_data h5. after_pass _ _ h5 λ u bundle h6.
              after_pass _ _ h6 λ v environment h7. after_pass _ _ h7 λ w transaction h8.
                after_pass _ _ h8 λ x renewal h9. record {
                  signed_payload = signed_payload;
                  is_sent = sent;
                  roots = roots;
                  are_roots = cc (is_given, are_roots);
                  is_signed = verify_apple_jws_lem signed_payload roots (cc (verified, h9));
                  data_value = data_value;
                  has_data = cc (has_data, h9);
                  is_for_app =
                      check_app_lem credentials data_value (cc (bundle, is_given))
                        (cc (environment, is_given));
                  transaction =
                      verify_field_lem roots data_value "signedTransactionInfo" transaction;
                  renewal = verify_field_lem roots data_value "signedRenewalInfo" renewal;
                }
