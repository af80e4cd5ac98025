-- ===== src/Examples/Service.antt =====
-- A platform of numbered documents to run the service on: a document is a number, its fields are a
-- table, and the texts that carry signed documents are decoded by name.
use revtern.Prelude.{
  ℕ, ◌*◌, ◌/◌, String, Bool, true, false, ◌&&◌, Option, none, some, List, [], ◌∷◌, ◌++◌,
  if◌then◌else◌, str_eq, nat_eq,
}
use revtern.Prelude.Int.{ℤ, pos, negsuc}
use revtern.Runtime.{Runtime, View, string, object}
use revtern.Api.Try.{pass, fail}
use revtern.Api.Http.{Outside, AppleJwsHeader}
use revtern.Api.CatchUp.Batch.{Network}

abbrev lookup : ℕ → List (ℕ × String) → Option String
lookup n [] = none
lookup n ((m, text) ∷ entries) = if nat_eq m n then some text else lookup n entries

abbrev field : ℕ → String → List (ℕ × String × ℕ) → Option ℕ
field n name [] = none
field n name ((m, key, value) ∷ entries) =
    if nat_eq m n && str_eq key name then some value else field n name entries

abbrev named : {A : Type 0} → String → List (String × A) → Option A
named name [] = none
named name ((key, value) ∷ entries) = if str_eq key name then some value else named name entries

abbrev texts : List (ℕ × String)
texts =
    (21, "h.p.s")
    ∷ (22, "com.example")
    ∷ (23, "Sandbox")
    ∷ (24, "renewal")
    ∷ (25, "aud")
    ∷ (26, "svc")
    ∷ (27, "true")
    ∷ (28, "projects/p/subscriptions/s")
    ∷ (29, "tok")
    ∷ (30, "s3cret")
    ∷ (31, "e1")
    ∷ []

-- 1 is a webhook of the App Store, 2 what it has signed and 4 the credentials for it; 5 is one of
-- Google Play, 6 its credentials and 7 the claims of its token; 8 is one of another source.
abbrev fields_of : List (ℕ × String × ℕ)
fields_of =
    (1, "signedPayload", 21)
    ∷ (2, "data", 3)
    ∷ (3, "bundleId", 22)
    ∷ (3, "environment", 23)
    ∷ (4, "bundle_id", 22)
    ∷ (5, "event_id", 31)
    ∷ (6, "pubsub_oidc_audience", 25)
    ∷ (6, "pubsub_service_account_email", 26)
    ∷ (6, "pubsub_subscription", 28)
    ∷ (6, "access_token", 29)
    ∷ (7, "email", 26)
    ∷ (7, "email_verified", 27)
    ∷ (8, "shared_secret", 30)
    ∷ (8, "event_id", 31)
    ∷ []

abbrev view_of : Option String → View ℤ
view_of none = object
view_of (some text) = string text

abbrev whole : ℤ → Option ℕ
whole (pos n) = some n
whole (negsuc n) = none

abbrev only : List ℕ → Option ℕ
only [] = none
only (n ∷ []) = some n
only (n ∷ m ∷ ns) = none

abbrev eight : List ℕ
eight = 0 ∷ 0 ∷ 0 ∷ 0 ∷ 0 ∷ 0 ∷ 0 ∷ 0 ∷ []

abbrev signature : List ℕ
signature = eight ++ (eight ++ (eight ++ (eight ++ (eight ++ (eight ++ (eight ++ eight))))))

abbrev pub service_platform : Runtime
service_platform = record {
  Value = ℕ;
  Number = ℤ;
  F64 = ℕ;
  view = λ n. view_of (lookup n texts);
  get = λ n name. field n name fields_of;
  pointer = λ n path. none;
  as_i64 = λ n. some n;
  as_f64 = whole;
  number_to_string = λ n. "1";
  to_vec = λ n. n ∷ [];
  from_slice = only;
  parse_f64 = λ s. none;
  times_100 = λ x. x * 100;
  round = λ x. x;
  cast_i64 = λ x. pos x;
  parse_rfc3339 = λ s. none;
  from_unix_timestamp = whole;
  date = λ at. at / 86_400;
  decode_standard = λ s. named s (("leaf", 7 ∷ []) ∷ []);
  decode_url_safe = λ s. named s (("h", 10 ∷ []) ∷ ("p", 2 ∷ []) ∷ ("s", signature) ∷ []);
  sha256 = λ bytes. bytes;
  uuid = λ n. "0";
  row_not_found_text = "no rows";
  out_of_range_text = "bigint out of range";
}

abbrev pub bytes_equal : List ℕ → List ℕ → Bool
bytes_equal [] [] = true
bytes_equal [] (y ∷ ys) = false
bytes_equal (x ∷ xs) [] = false
bytes_equal (x ∷ xs) (y ∷ ys) = nat_eq x y && bytes_equal xs ys

abbrev jws_header : List ℕ → Option AppleJwsHeader
jws_header bytes = some (record { alg = "ES256"; x5c = "leaf" ∷ [] })

abbrev twelve : List ℕ
twelve = eight ++ 0 ∷ 0 ∷ 0 ∷ 0 ∷ []

-- Certificates, keys and key sets are numbers; every signature is right.
abbrev pub service_outside : Outside ℕ
service_outside = record {
  Certificate = ℕ;
  JwkSet = ℕ;
  Jwk = ℕ;
  DecodingKey = ℕ;
  as_array = λ n. none;
  read_jws_header = jws_header;
  memcmp_eq = bytes_equal;
  apple_root_certificates_pem = "roots";
  stack_from_pem = λ s. some (1 ∷ []);
  from_der = only;
  chain_is_trusted = λ roots leaf untrusted. some true;
  verify_es256 = λ leaf message r s. some true;
  decode_header = λ token. some (record { is_rs256 = true; kid = some "k1" });
  find_key = λ jwks kid. if str_eq kid "k1" then some jwks else none;
  key_count = λ jwks. jwks;
  from_jwk = λ jwk. some jwk;
  decode_claims = λ token key audience issuers required. some 7;
  encrypt = λ key nonce text. some text;
  decrypt = λ key nonce text. some text;
  encode_no_pad = λ bytes. "packed";
  decode_no_pad = λ s. named s (("apple", twelve ++ 4 ∷ []) ∷ ("google", twelve ++ 6 ∷ []) ∷ []);
  google_play_payload = λ payload credentials. payload;
  library_error = "library error";
  last_tick = 1_000_000_000_000_000;
}

abbrev pub service_network : Network ℕ
service_network = record {
  Message = ℕ;
  notification_history = λ host token from to cursor. fail "no history";
  pull = λ subscription token limit. pass (record { ack_id = some "a1"; message = 5 } ∷ []);
  acknowledge = λ subscription token ids. pass tt;
  EncodingKey = ℕ;
  from_ec_pem = λ bytes. some 1;
  encode = λ key_id claims key. some "jwt";
  token_now = pos 0;
  google_access_token = λ credentials scope. pass "tok";
  signed_payload_json = λ signed. 1;
  pubsub_json = λ message subscription. message;
}
