-- ===== src/Core/Hex.antt =====
-- `hex_lower`: two digits for each byte, from which the bytes can be read again.
use Prim.Native.Char.{Char, code}
use Prim.Native.String.{char_at, count}
use text.Mathlib.TextLemmas.{nil-append, cons-append, length-cons}
use revtern.Prelude.{
  ℕ, ◌+◌, ◌-◌, ◌*◌, ◌/◌, ◌%◌, ◌<◌, String, true, ◌≡◌, refl, List, [], ◌∷◌, length, All, arith,
  nat_eq, leb, if◌then◌else◌,
}
use revtern.Prelude.Tables.{accepts, accepts-entry}
use revtern.Core.{hex_lower}

-- The value of a digit, and the bytes that a text of digits stands for.
unfoldable pub digit_value : Char → ℕ
digit_value c = if leb (code c) b'9' then code c - b'0' else code c - b'a' + 10

unfoldable pub read_hex : String → List ℕ
unfolding digit_value
read_hex String.[] = []
read_hex (String.◌∷◌ c String.[]) = []
read_hex (String.◌∷◌ c (String.◌∷◌ d s)) = (digit_value c * 16 + digit_value d) ∷ read_hex s

digit_table : accepts (λ n. nat_eq (digit_value (char_at "0123456789abcdef" n)) n) 16 ≡ true
unfolding accepts digit_value
digit_table = refl

digit_value_lem : (n : ℕ) → n < 16 → digit_value (char_at "0123456789abcdef" n) ≡ n
digit_value_lem n h = ground (
  arith,
  accepts-entry (λ n. nat_eq (digit_value (char_at "0123456789abcdef" n)) n) 16 n h digit_table,
)

hex_lower-cons :
    (b : ℕ) (bytes : List ℕ)
    → hex_lower (b ∷ bytes)
      ≡ String.◌∷◌
          (char_at "0123456789abcdef" (b / 16))
          (String.◌∷◌ (char_at "0123456789abcdef" (b % 16)) (hex_lower bytes))
unfolding hex_lower
hex_lower-cons b bytes = rw (cons-append, nil-append, cons-append, nil-append)

-- The digits of a list of bytes read back as that list, and there are two for each byte.
pub read_hex-hex_lower :
    (bytes : List ℕ)
    → All (λ b. b < 256) bytes
    → (read_hex (hex_lower bytes) ≡ bytes) × (count (hex_lower bytes) ≡ 2 * length bytes)
unfolding read_hex
read_hex-hex_lower [] h = unfold hex_lower in (refl, refl)
read_hex-hex_lower (b ∷ bytes) h =
    let (read, size) = read_hex-hex_lower bytes h.1 in
    rw hex_lower-cons (
      ground (arith, read, digit_value_lem (b / 16), digit_value_lem (b % 16)),
      rw (length-cons, length-cons) (omega (arith, size)),
    )
