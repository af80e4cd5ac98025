-- ===== src/Connectors/Decode.antt =====
-- crates/connectors/src/lib.rs: payloads inside payloads, and Apple's prices.
use mathlib.Core.Option
use revtern.Prelude.{String, Option, none, some, and_then}
use revtern.Prelude.Int.{ℤ, div_i64}
use revtern.Prelude.Text.{split_nth_1, parse_i64}
use revtern.Runtime.{Runtime, View, null, bool, number, string, array, object}

module _ (rt : Runtime) where
  open rt use {
    Value, Number, view, get, pointer, as_i64, from_slice, decode_standard, decode_url_safe,
  }

  abbrev text_of_view : View Number → Option String
  text_of_view (string text) = some text
  text_of_view null = none
  text_of_view (bool b) = none
  text_of_view (number n) = none
  text_of_view array = none
  text_of_view object = none

  -- `Value::as_str`.
  abbrev pub as_str : Value → Option String
  as_str value = text_of_view (view value)

  abbrev pub get_str : Value → String → Option String
  get_str value name = and_then (get value name) as_str

  unfoldable pub decode_pubsub_data : Value → Option Value
  decode_pubsub_data payload =
      and_then (and_then (pointer payload "/message/data") as_str)
        λ encoded. and_then (decode_standard encoded) from_slice

  unfoldable pub decode_jws_payload : String → Option Value
  decode_jws_payload jws =
      and_then (split_nth_1 b'.' jws) λ payload. and_then (decode_url_safe payload) from_slice

  abbrev milliunits_of_view : View Number → Option ℤ
  milliunits_of_view (number n) = as_i64 n
  milliunits_of_view (string text) = parse_i64 text
  milliunits_of_view null = none
  milliunits_of_view (bool b) = none
  milliunits_of_view array = none
  milliunits_of_view object = none

  abbrev tenth : ℤ → ℤ
  tenth raw = div_i64 raw 10

  unfoldable pub apple_price_minor : Value → Option ℤ
  apple_price_minor value =
      Option.map tenth (and_then (get value "price") λ price. milliunits_of_view (view price))
