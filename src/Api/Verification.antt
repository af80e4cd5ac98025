-- ===== src/Api/Verification.antt =====
-- crates/api/src/webhook_verification.rs: who may deliver a webhook.
pub mod Secret
pub mod Apple
pub mod Keys
pub mod Google
use revtern.Prelude.{String, Bool, Option, none, some, ◌||◌, ◌∷◌, [], if◌then◌else◌, and_then, not}
use revtern.Prelude.Text.{trim, to_ascii_lowercase, is_empty}
use revtern.Prelude.Split.{strip_prefix}
use revtern.Core.{match_arm}
use revtern.Prelude.{unwrap_or}
use mathlib.Core.Option
use revtern.Runtime.{Runtime}
use revtern.Connectors.Decode.{get_str}
use revtern.Api.Http.{Headers, header}

-- `filter(|value| !value.is_empty())`.
unfoldable pub nonempty : String → Option String
nonempty s = if is_empty s then none else some s

-- The token of `authorization: Bearer …`, trimmed, if there is one.
unfoldable pub bearer_header : Headers → Option String
unfolding header nonempty
bearer_header headers =
    and_then (and_then (header headers "authorization") λ value. strip_prefix value "Bearer ")
      λ token. nonempty (trim token)

unfoldable pub normalize_apple_environment : String → String
normalize_apple_environment value =
    unwrap_or
      (match_arm (to_ascii_lowercase (trim value)) (
        ("production", "production")
        ∷ ("prod", "production")
        ∷ ("sandbox", "sandbox")
        ∷ ("xcode", "test")
        ∷ ("localtesting", "test")
        ∷ ("test", "test")
        ∷ ("both", "both")
        ∷ ("any", "both")
        ∷ []))
      "unknown"

module _ (rt : Runtime) where
  open rt use {Value}

  unfoldable pub credential_string : Value → String → Option String
  unfolding nonempty
  credential_string credentials key =
      and_then (get_str rt credentials key) λ value. nonempty (trim value)
