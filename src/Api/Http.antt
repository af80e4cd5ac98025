-- ===== src/Api/Http.antt =====
-- What the API service calls and this repository does not implement: HTTP headers and responses,
-- certificates, signed tokens and their key sets, encrypted credentials and date parsing.
use revtern.Prelude.{ℕ, String, Bool, Option, List, and_then, str_eq, find}

-- A header's name in lower case, and its value if that is visible ASCII (`to_str`).
abbrev pub Headers : Type 0
Headers = List (String × Option String)

-- `headers.get(name).and_then(|value| value.to_str().ok())`.
unfoldable pub header : Headers → String → Option String
unfolding find
header headers name = and_then (find (λ entry. str_eq entry.0 name) headers) λ entry. entry.1

-- The header of a JWS as serde reads it: `alg` a text and `x5c` a list of texts.
pub record AppleJwsHeader : Type 0 where
  pub alg : String
  pub x5c : List String

-- The two fields of a token's header that are read.
pub record TokenHeader : Type 0 where
  pub is_rs256 : Bool
  pub kid : Option String

-- A response of the key endpoint; `keys` is the body if it is a key set.
pub record KeyResponse (JwkSet : Type 0) : Type 0 where
  pub is_success : Bool
  pub cache_control : Option String
  pub keys : Option JwkSet

pub record Outside (V : Type 0) : Type 1 where
  pub Certificate : Type 0
  pub JwkSet : Type 0
  pub Jwk : Type 0
  pub DecodingKey : Type 0
  -- `serde_json`
  pub as_array : V → Option (List V)
  pub read_jws_header : List ℕ → Option AppleJwsHeader
  -- `openssl`
  pub memcmp_eq : List ℕ → List ℕ → Bool
  pub apple_root_certificates_pem : String
  pub stack_from_pem : String → Option (List Certificate)
  pub from_der : List ℕ → Option Certificate
  pub chain_is_trusted : List Certificate → Certificate → List Certificate → Option Bool
  pub verify_es256 : Certificate → List ℕ → List ℕ → List ℕ → Option Bool
  -- `jsonwebtoken`
  pub decode_header : String → Option TokenHeader
  pub find_key : JwkSet → String → Option Jwk
  pub key_count : JwkSet → ℕ
  pub from_jwk : Jwk → Option DecodingKey
  pub decode_claims : String → DecodingKey → String → List String → List String → Option V
  -- `aes_gcm` (the key's digest, the nonce, the text) and `base64`
  pub encrypt : List ℕ → List ℕ → List ℕ → Option (List ℕ)
  pub decrypt : List ℕ → List ℕ → List ℕ → Option (List ℕ)
  pub encode_no_pad : List ℕ → String
  pub decode_no_pad : String → Option (List ℕ)
  -- `google_play_processing_payload`, which calls the Google Play API
  pub google_play_payload : V → Option V → V
  -- the text that a library's own error displays
  pub library_error : String
  -- the last `std::time::Instant`, in nanoseconds
  pub last_tick : ℕ
