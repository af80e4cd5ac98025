-- ===== src/Connectors/Pick.antt =====
-- crates/connectors/src/lib.rs: reading the first usable field among several names.
use Prim.Native.Char.{Char, code}
use Prim.Native.String.{char_at}
use revtern.Prelude.{
  String, Bool, true, false, not, Option, none, some, List, [], ◌∷◌, if◌then◌else◌, and_then,
  or_else, unwrap_or, nat_eq,
}
use mathlib.Core.Option
use revtern.Prelude.Int.{ℤ, pos, eq_ℤ}
use revtern.Prelude.Text.{map_chars, trim, is_empty, ends_with, to_ascii_lowercase}
use revtern.Runtime.{Instant, Runtime, View, null, bool, number, string, array, object}
use revtern.Core.{◌+++◌, one_of, normalize_money_minor, parse_time}

-- `for name in names { … return r; … }`, then `None`: `some r` from the body returns `r`.
unfoldable pub for_names {ℓ} : {A : Type ℓ} → (String → Option (Option A)) → List String → Option A
for_names body [] = none
for_names body (name ∷ names) = unwrap_or (body name) (for_names body names)

abbrev dot_to_slash : Char → Char
dot_to_slash c = if nat_eq (code c) b'.' then char_at "/" 0 else c

-- `name.replace('.', "/")` behind a slash.
unfoldable pub pointer_of : String → String
unfolding map_chars
pointer_of name = "/" +++ map_chars dot_to_slash name

abbrev pub bool_text : Bool → String
bool_text true = "true"
bool_text false = "false"

module _ (rt : Runtime) where
  open rt use {Value, Number, view, get, pointer, as_i64, number_to_string}

  -- `value.get(name).or_else(|| value.pointer(…))`.
  unfoldable pub field_at : Value → String → Option Value
  unfolding pointer_of
  field_at value name = or_else (get value name) (pointer value (pointer_of name))

  abbrev text_outcome : View Number → Option (Option String)
  text_outcome (string text) = if not (is_empty (trim text)) then some (some (trim text)) else none
  text_outcome (number n) = some (some (number_to_string n))
  text_outcome (bool flag) = some (some (bool_text flag))
  text_outcome null = none
  text_outcome array = none
  text_outcome object = none

  abbrev view_at : Value → String → Option (View Number)
  view_at value name = Option.map view (field_at value name)

  unfoldable pub pick_string : Value → List String → Option String
  unfolding for_names
  pick_string value names = for_names (λ name. and_then (view_at value name) text_outcome) names

  abbrev i64_of_view : View Number → Option ℤ
  i64_of_view (number n) = as_i64 n
  i64_of_view null = none
  i64_of_view (bool b) = none
  i64_of_view (string text) = none
  i64_of_view array = none
  i64_of_view object = none

  -- A field whose name ends in `_minor` is taken as it is if it is an integer.
  abbrev money_outcome : String → Value → Option ℤ
  money_outcome name found =
      or_else (if ends_with name "_minor" then i64_of_view (view found) else none)
        (normalize_money_minor rt found)

  unfoldable pub pick_money : Value → List String → Option ℤ
  unfolding for_names
  pick_money value names =
      for_names (λ name. Option.map some (and_then (field_at value name) (money_outcome name)))
        names

  unfoldable pub pick_optional_time : Value → List String → Option Instant
  unfolding for_names
  pick_optional_time value names =
      for_names (λ name. Option.map some (and_then (field_at value name) (parse_time rt))) names

  -- `now` is the time that the clock shows if it is read.
  unfoldable pub pick_time : Instant → Value → List String → Instant
  unfolding pick_optional_time
  pick_time now value names = unwrap_or (pick_optional_time value names) now

  abbrev flag_of_text : String → Option (Option Bool)
  flag_of_text text =
      if one_of text ("true" ∷ "1" ∷ "yes" ∷ [])
      then some (some true)
      else if one_of text ("false" ∷ "0" ∷ "no" ∷ [])
      then some (some false)
      else none

  abbrev is_nonzero : ℤ → Bool
  is_nonzero n = not (eq_ℤ n (pos 0))

  -- A number that is no `i64` ends the search with no answer.
  abbrev flag_outcome : View Number → Option (Option Bool)
  flag_outcome (bool flag) = some (some flag)
  flag_outcome (number n) = some (Option.map is_nonzero (as_i64 n))
  flag_outcome (string text) = flag_of_text (to_ascii_lowercase (trim text))
  flag_outcome null = none
  flag_outcome array = none
  flag_outcome object = none

  unfoldable pub pick_bool : Value → List String → Option Bool
  unfolding for_names
  pick_bool value names = for_names (λ name. and_then (view_at value name) flag_outcome) names
