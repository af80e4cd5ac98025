-- ===== src/Connectors/Environment.antt =====
-- crates/connectors/src/lib.rs: the environment in which a purchase was made.
use mathlib.Core.Option
use Prim.Native.Char.{Char, code}
use Prim.Native.String.{char_at}
use revtern.Prelude.{
  String, Bool, true, false, ◌||◌, Option, none, some, List, [], ◌∷◌, if◌then◌else◌, and_then,
  or_else, unwrap_or, nat_eq,
}
use revtern.Prelude.Text.{map_chars, trim, is_empty, to_ascii_lowercase}
use revtern.Runtime.{Runtime, View, null, bool, number, string, array, object}
use revtern.Core.{match_arm}
use revtern.Connectors.Pick.{for_names, field_at}

abbrev separator_to_underscore : Char → Char
separator_to_underscore c =
    if nat_eq (code c) b' ' || nat_eq (code c) b'-' then char_at "_" 0 else c

abbrev pub environment_arms : List (String × String)
environment_arms =
    ("prod", "production")
    ∷ ("production", "production")
    ∷ ("live", "production")
    ∷ ("real", "production")
    ∷ ("sandbox", "sandbox")
    ∷ ("test", "test")
    ∷ ("testing", "test")
    ∷ ("license_test", "test")
    ∷ ("test_purchase", "test")
    ∷ ("unknown", "unknown")
    ∷ []

-- The last arm of the match is `other => other`.
unfoldable pub normalize_environment : String → Option String
normalize_environment raw =
    let normalized = map_chars separator_to_underscore (to_ascii_lowercase (trim raw)) in
    if is_empty normalized
    then none
    else some (unwrap_or (match_arm normalized environment_arms) normalized)

abbrev pub flag_environment : Bool → String
flag_environment true = "production"
flag_environment false = "test"

abbrev pub environment_names : List String
environment_names = "environment" ∷ "env" ∷ "store_environment" ∷ "source_environment" ∷ []

module _ (rt : Runtime) where
  open rt use {Value, Number, view, get}

  abbrev environment_outcome : View Number → Option (Option String)
  environment_outcome (string text) = Option.map some (normalize_environment text)
  environment_outcome (bool flag) = some (some (flag_environment flag))
  environment_outcome null = none
  environment_outcome (number n) = none
  environment_outcome array = none
  environment_outcome object = none

  abbrev as_bool : View Number → Option Bool
  as_bool (bool flag) = some flag
  as_bool null = none
  as_bool (number n) = none
  as_bool (string text) = none
  as_bool array = none
  as_bool object = none

  abbrev flag_at : Value → String → Option Bool
  flag_at value name = and_then (get value name) (λ found. as_bool (view found))

  abbrev sandbox_flag : Option Bool → Option String
  sandbox_flag (some true) = some "sandbox"
  sandbox_flag (some false) = none
  sandbox_flag none = none

  unfoldable pub event_environment : Value → Option String
  unfolding for_names
  event_environment value =
      or_else
        (for_names
          (λ name. and_then (field_at rt value name) (λ found. environment_outcome (view found)))
          environment_names)
        (or_else (Option.map flag_environment (flag_at value "livemode"))
          (sandbox_flag (flag_at value "sandbox")))
