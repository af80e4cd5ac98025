-- ===== src/Api/Crypto/Recovered.antt =====
-- crates/api/src/crypto.rs: credentials that were encrypted are read again with the same key.
use revtern.Prelude.{
  ℕ, ◌+◌, ◌^◌, ◌-◌, ◌≤◌, zero, suc, String, true, some, List, [], ◌∷◌, ◌++◌, length, ltb, ◌≡◌, refl,
  arith,
}
use revtern.Prelude.Split.{as_bytes}
use revtern.Runtime.{Runtime}
use revtern.Api.Try.{pass, ◌>>=◌}
use revtern.Api.Http.{Outside}
use revtern.Api.Verification.Apple.{split_at}
use revtern.Api.Crypto.{encrypt_json, decrypt_json}

split_at-append : (n : ℕ) (xs ys : List ℕ) → length xs ≡ n → split_at n (xs ++ ys) ≡ (xs, ys)
unfolding split_at
split_at-append zero [] ys h = refl
split_at-append zero (x ∷ xs) ys h = absurd (omega arith)
split_at-append (suc n) [] ys h = absurd (omega arith)
split_at-append (suc n) (x ∷ xs) ys h = rw (split_at-append n xs ys (omega arith)) refl

length-append : (xs ys : List ℕ) → length (xs ++ ys) ≡ length xs + length ys
length-append [] ys = omega arith
length-append (x ∷ xs) ys = rw (length-append xs ys) (omega arith)

module _ (rt : Runtime) (out : Outside rt.Value) where
  open rt use {sha256}
  open out use {encrypt, decrypt, encode_no_pad, decode_no_pad}

  -- AES-256-GCM with nonces of twelve bytes encrypts every text of at most 2³⁶ − 32 bytes; a tag of
  -- 16 bytes is added, and the same key and nonce decrypt what was encrypted.
  unfoldable pub Deciphers : Type 0
  Deciphers =
      (secret_key : String) (nonce plaintext : List ℕ)
      → length nonce ≡ 12
      → length plaintext ≤ 2 ^ 36 - 32
      → (ciphertext : List ℕ) × (encrypt (sha256 (as_bytes secret_key)) nonce plaintext
          ≡ some ciphertext)
        × (length ciphertext ≡ length plaintext + 16)
        × (decrypt (sha256 (as_bytes secret_key)) nonce ciphertext ≡ some plaintext)

  -- Bytes that are written in base64 are read again.
  unfoldable pub Decodes : Type 0
  Decodes = (bytes : List ℕ) → decode_no_pad (encode_no_pad bytes) ≡ some bytes

  -- Twelve bytes and a tag of 16 are not refused as malformed.
  unpack :
      (nonce ciphertext plaintext : List ℕ)
      → length nonce ≡ 12
      → length ciphertext ≡ length plaintext + 16
      → (ltb 12 (length (nonce ++ ciphertext)) ≡ true)
        × (split_at 12 (nonce ++ ciphertext) ≡ (nonce, ciphertext))
  unpack nonce ciphertext plaintext twelve tagged = (
    rw (length-append nonce ciphertext) (ground arith),
    split_at-append 12 nonce ciphertext twelve,
  )

  -- The credentials of at most 2³⁶ − 32 bytes are encrypted under every nonce of twelve bytes, and
  -- the text that is stored for them is decrypted to them, where the cipher and base64 are inverse.
  pub decrypt_json-encrypt_json :
      Deciphers
      → Decodes
      → (secret_key : String) (nonce plaintext : List ℕ) → length nonce ≡ 12
      → length plaintext ≤ 2 ^ 36 - 32
      → (encoded : String) × (encrypt_json rt out secret_key nonce plaintext ≡ pass encoded)
        × (decrypt_json rt out secret_key encoded ≡ pass plaintext)
  unfolding encrypt_json decrypt_json ◌>>=◌ Deciphers Decodes
  decrypt_json-encrypt_json deciphers decodes secret_key nonce plaintext twelve short =
      let (ciphertext, encrypted, tagged, decrypted) =
        deciphers secret_key nonce plaintext twelve short in
      let unpacked = unpack nonce ciphertext plaintext twelve tagged in
      (
        encode_no_pad (nonce ++ ciphertext),
        rw encrypted refl,
        rw (decodes (nonce ++ ciphertext)) (rw unpacked.0 (rw unpacked.1 (rw decrypted refl))),
      )
