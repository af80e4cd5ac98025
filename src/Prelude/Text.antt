-- ===== src/Prelude/Text.antt =====
-- The operations of Rust's `str` that the program uses, over the native texts.
use Prim.Native.Nat.{ℕ, ◌+◌, ◌-◌, ◌*◌, ◌^◌}
use Prim.Native.Char.{Char, code}
use Prim.Native.String.{String, [], ◌∷◌, char_at}
use mathlib.Core.Bool.{Bool, true, false, ◌&&◌, ◌||◌}
use mathlib.Core.Option
use mathlib.Core.Option.{Option, none, some}
use revtern.Prelude.Tests.{ltb, leb, nat_eq, if◌then◌else◌}
use revtern.Prelude.Results.{and_then}
use revtern.Prelude.Int.{ℤ, pos, negsuc, sub_ℕ}

-- `to_ascii_lowercase` and `to_ascii_uppercase` of one character.
unfoldable pub lower_char : Char → Char
lower_char c =
    if leb b'A' (code c) && leb (code c) b'Z'
    then char_at "abcdefghijklmnopqrstuvwxyz" (code c - b'A')
    else c

unfoldable pub upper_char : Char → Char
upper_char c =
    if leb b'a' (code c) && leb (code c) b'z'
    then char_at "ABCDEFGHIJKLMNOPQRSTUVWXYZ" (code c - b'a')
    else c

unfoldable pub map_chars : (Char → Char) → String → String
map_chars f [] = []
map_chars f (c ∷ s) = f c ∷ map_chars f s

unfoldable pub to_ascii_lowercase : String → String
unfolding map_chars lower_char
to_ascii_lowercase s = map_chars lower_char s

unfoldable pub to_ascii_uppercase : String → String
unfolding map_chars upper_char
to_ascii_uppercase s = map_chars upper_char s

unfoldable pub starts_with : String → String → Bool
starts_with s [] = true
starts_with [] (d ∷ t) = false
starts_with (c ∷ s) (d ∷ t) = nat_eq (code c) (code d) && starts_with s t

unfoldable pub contains : String → String → Bool
unfolding starts_with
contains [] t = starts_with [] t
contains (c ∷ s) t = starts_with (c ∷ s) t || contains s t

unfoldable pub ends_with : String → String → Bool
unfolding starts_with
ends_with [] t = starts_with t [] && starts_with [] t
ends_with (c ∷ s) t = starts_with (c ∷ s) t && starts_with t (c ∷ s) || ends_with s t

abbrev pub is_empty : String → Bool
is_empty [] = true
is_empty (c ∷ s) = false

-- `char::is_whitespace`, Unicode's White_Space.
unfoldable pub is_whitespace : ℕ → Bool
is_whitespace c =
    (leb 9 c && leb c 13)
    || nat_eq c 32
    || nat_eq c 0x85
    || nat_eq c 0xa0
    || nat_eq c 0x1680
    || (leb 0x2000 c && leb c 0x200a)
    || nat_eq c 0x2028
    || nat_eq c 0x2029
    || nat_eq c 0x202f
    || nat_eq c 0x205f
    || nat_eq c 0x3000

unfoldable pub trim_start : String → String
unfolding is_whitespace
trim_start [] = []
trim_start (c ∷ s) = if is_whitespace (code c) then trim_start s else c ∷ s

unfoldable pub trim_end : String → String
unfolding is_whitespace
trim_end [] = []
trim_end (c ∷ s) =
    let rest = trim_end s in if is_empty rest && is_whitespace (code c) then [] else c ∷ rest

unfoldable pub trim : String → String
unfolding trim_start trim_end
trim s = trim_end (trim_start s)

-- `s.split(sep).nth(1)`: what stands between the first separator and the second, or the end.
unfoldable pub before : ℕ → String → String
before sep [] = []
before sep (c ∷ s) = if nat_eq (code c) sep then [] else c ∷ before sep s

unfoldable pub split_nth_1 : ℕ → String → Option String
unfolding before
split_nth_1 sep [] = none
split_nth_1 sep (c ∷ s) = if nat_eq (code c) sep then some (before sep s) else split_nth_1 sep s

-- The digits of `str::parse` for an integer type; `+` and `-` may stand in front of them.
unfoldable pub parse_digits : ℕ → String → Option ℕ
parse_digits n [] = some n
parse_digits n (c ∷ s) =
    if leb b'0' (code c) && leb (code c) b'9'
    then parse_digits (n * 10 + (code c - b'0')) s
    else none

unfoldable pub parse_natural : String → Option ℕ
unfolding parse_digits
parse_natural [] = none
parse_natural (c ∷ s) = parse_digits 0 (c ∷ s)

abbrev negated : ℕ → ℤ
negated n = sub_ℕ 0 n

unfoldable pub parse_int : String → Option ℤ
unfolding parse_natural
parse_int [] = none
parse_int (c ∷ s) =
    if nat_eq (code c) b'-'
    then Option.map negated (parse_natural s)
    else if nat_eq (code c) b'+'
    then Option.map pos (parse_natural s)
    else Option.map pos (parse_natural (c ∷ s))

abbrev in_range : ℕ → ℤ → Option ℤ
in_range bound (pos n) = if ltb n bound then some (pos n) else none
in_range bound (negsuc n) = if ltb n bound then some (negsuc n) else none

-- `parse::<i64>` and `parse::<i128>`.
unfoldable pub parse_i64 : String → Option ℤ
unfolding parse_int
parse_i64 s = and_then (parse_int s) (in_range (2 ^ 63))

unfoldable pub parse_i128 : String → Option ℤ
unfolding parse_int
parse_i128 s = and_then (parse_int s) (in_range (2 ^ 127))
