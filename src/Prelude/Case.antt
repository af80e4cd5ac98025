-- ===== src/Prelude/Case.antt =====
-- The two case mappings of a text agree: each forgets what the other changes.
use Prim.Native.Nat.{ℕ, ◌+◌, ◌-◌, ◌<◌}
use Prim.Native.Char.{Char, code}
use Prim.Native.String.{String, [], ◌∷◌, char_at}
use mathlib.Core.Path.{◌≡◌, refl}
use mathlib.Core.Bool.{true, ◌&&◌}
use native.Mathlib.Omega.{arith}
use text.Mathlib.TextEquality.{Char-path}
use revtern.Prelude.Tests.{leb, nat_eq, if◌then◌else◌}
use revtern.Prelude.Tables.{accepts, accepts-entry}
use revtern.Prelude.Text.{lower_char, upper_char, map_chars, to_ascii_lowercase, to_ascii_uppercase}

abbrev lower_at : ℕ → ℕ
lower_at n = code (char_at "abcdefghijklmnopqrstuvwxyz" n)

abbrev upper_at : ℕ → ℕ
upper_at n = code (char_at "ABCDEFGHIJKLMNOPQRSTUVWXYZ" n)

lower_table : accepts (λ n. nat_eq (lower_at n) (n + b'a')) 26 ≡ true
unfolding accepts
lower_table = refl

upper_table : accepts (λ n. nat_eq (upper_at n) (n + b'A')) 26 ≡ true
unfolding accepts
upper_table = refl

lower_at_lem : (n : ℕ) → n < 26 → lower_at n ≡ n + b'a'
lower_at_lem n h =
    ground (arith, accepts-entry (λ n. nat_eq (lower_at n) (n + b'a')) 26 n h lower_table)

upper_at_lem : (n : ℕ) → n < 26 → upper_at n ≡ n + b'A'
upper_at_lem n h =
    ground (arith, accepts-entry (λ n. nat_eq (upper_at n) (n + b'A')) 26 n h upper_table)

-- The code of a mapped character.
code-lower_char :
    (c : Char)
    → code (lower_char c) ≡ (if leb b'A' (code c) && leb (code c) b'Z' then code c + 32 else code c)
unfolding lower_char
code-lower_char c = ground (arith, lower_at_lem (code c - b'A'))

code-upper_char :
    (c : Char)
    → code (upper_char c) ≡ (if leb b'a' (code c) && leb (code c) b'z' then code c - 32 else code c)
unfolding upper_char
code-upper_char c = ground (arith, upper_at_lem (code c - b'a'))

lower_char-upper_char : (c : Char) → lower_char (upper_char c) ≡ lower_char c
lower_char-upper_char c =
    Char-path _ _
      (ground (arith, code-lower_char (upper_char c), code-upper_char c, code-lower_char c))

lower_char_idem : (c : Char) → lower_char (lower_char c) ≡ lower_char c
lower_char_idem c =
    Char-path _ _ (ground (arith, code-lower_char (lower_char c), code-lower_char c))

pub lowercase-uppercase :
    (s : String) → to_ascii_lowercase (to_ascii_uppercase s) ≡ to_ascii_lowercase s
unfolding map_chars to_ascii_lowercase to_ascii_uppercase
lowercase-uppercase [] = refl
lowercase-uppercase (c ∷ s) = cc (lower_char-upper_char c, lowercase-uppercase s)

pub lowercase_idem : (s : String) → to_ascii_lowercase (to_ascii_lowercase s) ≡ to_ascii_lowercase s
unfolding map_chars to_ascii_lowercase
lowercase_idem [] = refl
lowercase_idem (c ∷ s) = cc (lower_char_idem c, lowercase_idem s)
