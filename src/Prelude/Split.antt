-- ===== src/Prelude/Split.antt =====
-- The operations of Rust's `str` that take a text apart, and its bytes.
use Prim.Native.Nat.{ℕ, ◌+◌, ◌/◌, ◌%◌, ◌^◌}
use Prim.Native.Char.{Char, code}
use Prim.Native.String.{String, [], ◌∷◌, char_at}
use mathlib.Core.Bool.{true, false, ◌&&◌}
use mathlib.Core.Option
use mathlib.Core.Option.{Option, none, some}
use mathlib.Core.List.{List, [] as nil, ◌∷◌ as cons, ◌++◌}
use revtern.Prelude.Tests.{ltb, nat_eq, if◌then◌else◌}
use revtern.Prelude.Results.{and_then}
use revtern.Prelude.Text.{is_empty, parse_natural}

-- `strip_prefix`.
unfoldable pub strip_prefix : String → String → Option String
strip_prefix s [] = some s
strip_prefix [] (d ∷ t) = none
strip_prefix (c ∷ s) (d ∷ t) = if nat_eq (code c) (code d) then strip_prefix s t else none

abbrev push_front : Char → List String → List String
push_front c nil = cons (c ∷ []) nil
push_front c (cons part parts) = cons (c ∷ part) parts

-- `split(sep)`: always one part more than separators.
unfoldable pub split : ℕ → String → List String
split sep [] = cons [] nil
split sep (c ∷ s) =
    let parts = split sep s in if nat_eq (code c) sep then cons [] parts else push_front c parts

-- `split_once(sep)`.
abbrev before_rest : Char → String × String → String × String
before_rest c (first, rest) = (c ∷ first, rest)

unfoldable pub split_once : ℕ → String → Option (String × String)
split_once sep [] = none
split_once sep (c ∷ s) =
    let found = split_once sep s in
    if nat_eq (code c) sep then some ([], s) else Option.map (before_rest c) found

-- `trim_start_matches`, `trim_end_matches` and `trim_matches` of one character.
unfoldable pub trim_start_matches : ℕ → String → String
trim_start_matches sep [] = []
trim_start_matches sep (c ∷ s) =
    let rest = trim_start_matches sep s in if nat_eq (code c) sep then rest else c ∷ s

unfoldable pub trim_end_matches : ℕ → String → String
trim_end_matches sep [] = []
trim_end_matches sep (c ∷ s) =
    let rest = trim_end_matches sep s in
    if is_empty rest && nat_eq (code c) sep then [] else c ∷ rest

unfoldable pub trim_matches : ℕ → String → String
unfolding trim_start_matches trim_end_matches
trim_matches sep s = trim_end_matches sep (trim_start_matches sep s)

-- `parse::<u64>`: a `+` may stand in front of the digits.
abbrev in_u64 : ℕ → Option ℕ
in_u64 n = if ltb n (2 ^ 64) then some n else none

abbrev unsigned : String → Option ℕ
unsigned [] = none
unsigned (c ∷ s) = if nat_eq (code c) b'+' then parse_natural s else parse_natural (c ∷ s)

unfoldable pub parse_u64 : String → Option ℕ
parse_u64 s = and_then (unsigned s) in_u64

-- `as_bytes`: UTF-8.
unfoldable pub char_bytes : ℕ → List ℕ
char_bytes c =
    if ltb c 0x80
    then cons c nil
    else if ltb c 0x800
    then cons (0xc0 + c / 64) (cons (0x80 + c % 64) nil)
    else if ltb c 0x10000
    then cons (0xe0 + c / 4096) (cons (0x80 + c / 64 % 64) (cons (0x80 + c % 64) nil))
    else cons (0xf0 + c / 262144)
        (cons (0x80 + c / 4096 % 64) (cons (0x80 + c / 64 % 64) (cons (0x80 + c % 64) nil)))

unfoldable pub as_bytes : String → List ℕ
as_bytes [] = nil
as_bytes (c ∷ s) = char_bytes (code c) ++ as_bytes s

-- `replace(from, to)` of one character by another.
unfoldable pub replace_char : ℕ → Char → String → String
replace_char old new [] = []
replace_char old new (c ∷ s) = (if nat_eq (code c) old then new else c) ∷ replace_char old new s

-- `replace("\\n", "\n")`: a backslash and an n become the end of a line.
unfoldable pub unescape_newlines : String → String
unescape_newlines [] = []
unescape_newlines (c ∷ []) = c ∷ []
unescape_newlines (c ∷ d ∷ s) = elim (nat_eq (code c) 92 && nat_eq (code d) b'n') [
  | true ↦ char_at "\n" 0 ∷ unescape_newlines s
  | false ↦ c ∷ unescape_newlines (d ∷ s)
]
