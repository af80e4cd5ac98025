-- ===== src/Api/Crypto.antt =====
-- crates/api/src/crypto.rs: the credentials of a data source, encrypted for the database.
pub mod Recovered
use revtern.Prelude.{ℕ, String, not, List, ◌++◌, length, ltb}
use revtern.Prelude.Split.{as_bytes}
use revtern.Runtime.{Runtime}
use revtern.Core.{sha256_hex}
use revtern.Api.Try.{Try, pass, ◌>>=◌, ◌>>◌, context, refuse_if}
use revtern.Api.Http.{Outside}
use revtern.Api.Verification.Apple.{split_at}

module _ (rt : Runtime) (out : Outside rt.Value) where
  open rt use {sha256}
  open out use {encrypt, decrypt, encode_no_pad, decode_no_pad}

  unfoldable pub hash_secret : String → String
  hash_secret secret = sha256_hex rt (as_bytes secret)

  -- The random nonce of twelve bytes is an argument.
  unfoldable pub encrypt_json : String → List ℕ → List ℕ → Try String String
  encrypt_json secret_key nonce plaintext = do
    ciphertext ←
        context "encrypt credentials" (encrypt (sha256 (as_bytes secret_key)) nonce plaintext)
    pass (encode_no_pad (nonce ++ ciphertext))

  unfoldable pub decrypt_json : String → String → Try String (List ℕ)
  decrypt_json secret_key encoded = do
    packed ← context "decode encrypted credentials" (decode_no_pad encoded)
    refuse_if (not (ltb 12 (length packed))) "encrypted credentials are malformed"
    let (nonce, ciphertext) = split_at 12 packed
    context "decrypt credentials" (decrypt (sha256 (as_bytes secret_key)) nonce ciphertext)
