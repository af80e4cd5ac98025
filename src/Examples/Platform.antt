-- ===== src/Examples/Platform.antt =====
-- A platform to run the model on: objects of texts and integers for JSON, whole numbers for floats,
-- and decoders that know no encoding.
use revtern.Prelude.{ℕ, ◌*◌, ◌/◌, String, Option, none, some, List, [], ◌∷◌, if◌then◌else◌, str_eq}
use revtern.Prelude.Int.{ℤ, pos, negsuc}
use revtern.Runtime.{Runtime, View, number, string, object}

pub data Leaf : Type 0 where
  text : String → Leaf
  int : ℤ → Leaf

pub data Json : Type 0 where
  leaf : Leaf → Json
  fields : List (String × Leaf) → Json

abbrev view_json : Json → View ℤ
view_json (leaf (text s)) = string s
view_json (leaf (int n)) = number n
view_json (fields entries) = object

abbrev field_of : String → List (String × Leaf) → Option Json
field_of name [] = none
field_of name ((key, found) ∷ entries) =
    if str_eq key name then some (leaf found) else field_of name entries

abbrev get_json : Json → String → Option Json
get_json (leaf found) name = none
get_json (fields entries) name = field_of name entries

abbrev whole : ℤ → Option ℕ
whole (pos n) = some n
whole (negsuc n) = none

abbrev pub small_platform : Runtime
small_platform = record {
  Value = Json;
  Number = ℤ;
  F64 = ℕ;
  view = view_json;
  get = get_json;
  pointer = λ value path. none;
  as_i64 = λ n. some n;
  as_f64 = whole;
  number_to_string = λ n. "1";
  to_vec = λ value. [];
  from_slice = λ bytes. none;
  parse_f64 = λ s. none;
  times_100 = λ x. x * 100;
  round = λ x. x;
  cast_i64 = λ x. pos x;
  parse_rfc3339 = λ s. none;
  from_unix_timestamp = whole;
  date = λ at. at / 86_400;
  decode_standard = λ s. none;
  decode_url_safe = λ s. none;
  sha256 = λ bytes. bytes;
  uuid = λ n. "0";
  row_not_found_text = "no rows returned by a query that expected to return at least one row";
  out_of_range_text = "bigint out of range";
}
