-- ===== src/Runtime.antt =====
-- What the crates call and this repository does not implement, as one parameter of the model:
-- `serde_json` values, `f64`, the `time`, `base64`, `sha2` and `uuid` crates, and the texts of the
-- database driver's errors.
use revtern.Prelude.{ℕ, String, Bool, Option, List}
use revtern.Prelude.Int.{ℤ}

-- A point in time (`OffsetDateTime`): of it the code uses the order, and its date by `date` below.
abbrev pub Instant : Type 0
Instant = ℕ

-- The variants of `serde_json::Value` on which the code matches; arrays and objects are only
-- looked into by `get` and `pointer`.
pub data View (N : Type 0) : Type 0 where
  null : View N
  bool : Bool → View N
  number : N → View N
  string : String → View N
  array : View N
  object : View N

pub record Runtime : Type 1 where
  pub Value : Type 0
  pub Number : Type 0
  pub F64 : Type 0
  pub view : Value → View Number
  pub get : Value → String → Option Value
  pub pointer : Value → String → Option Value
  pub as_i64 : Number → Option ℤ
  pub as_f64 : Number → Option F64
  pub number_to_string : Number → String
  pub to_vec : Value → List ℕ
  pub from_slice : List ℕ → Option Value
  pub parse_f64 : String → Option F64
  pub times_100 : F64 → F64
  pub round : F64 → F64
  pub cast_i64 : F64 → ℤ
  pub parse_rfc3339 : String → Option Instant
  pub from_unix_timestamp : ℤ → Option Instant
  pub date : Instant → ℕ
  pub decode_standard : String → Option (List ℕ)
  pub decode_url_safe : String → Option (List ℕ)
  pub sha256 : List ℕ → List ℕ
  pub uuid : ℕ → String
  pub row_not_found_text : String
  pub out_of_range_text : String
