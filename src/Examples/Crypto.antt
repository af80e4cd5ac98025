-- ===== src/Examples/Crypto.antt =====
-- A cipher that puts its tag of sixteen bytes before the text, and an encoding that writes every
-- byte as a row of strokes.
use Prim.Native.Char.{code}
use Prim.Native.String.{[], ◌∷◌, char_at}
use mathlib.Core.List.{[] as nil, ◌∷◌ as cons}
use revtern.Prelude.{
  ℕ, ◌≡◌, refl, ap, zero, suc, String, some, List, ◌++◌, nat_eq, if◌then◌else◌, arith,
}
use revtern.Api.Http.{Outside}
use revtern.Api.Try.{pass}
use revtern.Api.Verification.Apple.{split_at}
use revtern.Api.Crypto.{encrypt_json, decrypt_json}
use revtern.Api.Crypto.Recovered.{Deciphers, Decodes, decrypt_json-encrypt_json}
use revtern.Examples.Service.{service_platform, service_outside}

abbrev zeros : ℕ → List ℕ
zeros zero = nil
zeros (suc n) = cons 0 (zeros n)

abbrev strokes : ℕ → String → String
strokes zero s = char_at "." 0 ∷ s
strokes (suc n) s = char_at "|" 0 ∷ strokes n s

abbrev written : List ℕ → String
written nil = []
written (cons n ns) = strokes n (written ns)

abbrev one_more : List ℕ → List ℕ
one_more nil = nil
one_more (cons n ns) = cons (suc n) ns

abbrev read_back : String → List ℕ
read_back [] = nil
read_back (c ∷ s) =
    let rest = read_back s in if nat_eq (code c) b'|' then one_more rest else cons 0 rest

abbrev vault : Outside ℕ
vault = record service_outside {
  encrypt = λ key nonce text. some (zeros 16 ++ text);
  decrypt = λ key nonce text. some (split_at 16 text).1;
  encode_no_pad = written;
  decode_no_pad = λ s. some (read_back s);
}

read_back-strokes : (n : ℕ) (s : String) → read_back (strokes n s) ≡ cons n (read_back s)
read_back-strokes zero s = refl
read_back-strokes (suc n) s = rw (read_back-strokes n s) refl

read_back-written : (bytes : List ℕ) → read_back (written bytes) ≡ bytes
read_back-written nil = refl
read_back-written (cons n ns) =
    rw (read_back-strokes n (written ns)) (rw (read_back-written ns) refl)

vault-Decodes : Decodes service_platform vault
unfolding Decodes
vault-Decodes bytes = ap some (read_back-written bytes)

vault-Deciphers : Deciphers service_platform vault
unfolding Deciphers split_at
vault-Deciphers secret_key nonce plaintext twelve short =
    (zeros 16 ++ plaintext, refl, omega arith, refl)

secret : List ℕ
secret = cons 123 (cons 125 nil)

decrypt_json-encrypt_json_example :
    (encoded : String) × (encrypt_json service_platform vault "key" (zeros 12) secret
      ≡ pass encoded)
    × (decrypt_json service_platform vault "key" encoded ≡ pass secret)
unfolding secret
decrypt_json-encrypt_json_example =
    decrypt_json-encrypt_json service_platform vault vault-Deciphers vault-Decodes "key" (zeros 12)
      secret refl (omega arith)
