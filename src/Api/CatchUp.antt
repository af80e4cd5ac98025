-- ===== src/Api/CatchUp.antt =====
-- The catch-up of missed webhooks: `catch_up_window`, `parse_catch_up_time`, `run_webhook_catch_up`
-- and the writes of `catch_up_data_source` in crates/api/src/routes.rs, over the batches of
-- crates/api/src/catchup.rs.
pub mod Window
pub mod Batch
pub mod Run
use mathlib.Core.Option
use revtern.Prelude.{
  ℕ, ◌+◌, ◌-◌, ◌*◌, String, Bool, true, false, ◌&&◌, Option, none, some, List, [], ◌∷◌, length, ltb,
  min, max, unwrap_or, or_else, if◌then◌else◌, str_eq,
}
use revtern.Runtime.{Instant, Runtime}
use revtern.Jobs.Tables.{Db, DataSource}
use revtern.Api.Try
use revtern.Api.Try.{Try, pass, fail}
use revtern.Api.Http.{Outside}
use revtern.Api.Handler.{
  ApiError, bad_request, unauthorized, anyhow, Handler, ◌>>=◌, ◌>>◌, pure, lift, guard_that, ok_or,
}
use revtern.Api.Verification.Apple.{verify_app_store_payload}
use revtern.Api.Verification.Google.{verify_google_play_package}
use revtern.Api.Webhooks.{
  WebhookStoreContext, StoredWebhookPayload, source_credentials, store_webhook_payload,
}
use revtern.Api.Webhooks.Receive.{app_of}

pub record CatchUpRequest : Type 0 where
  pub from : Option String
  pub to : Option String
  pub limit : Option ℕ
  pub cursor : Option String

pub record CatchUpWindow : Type 0 where
  pub from : Instant
  pub to : Instant
  pub limit : ℕ
  pub cursor : Option String

abbrev pub second : ℕ
second = 1_000_000

abbrev pub day : ℕ
day = 86_400 * second

-- `clamp(low, high)`.
abbrev pub clamp : ℕ → ℕ → ℕ → ℕ
clamp n low high = min (max n low) high

-- `parse_date` reads YYYY-MM-DD, to the start of that day.
module _ (rt : Runtime) (parse_date : String → Option Instant) where
  open rt use {parse_rfc3339}

  abbrev day_time : Bool → Option Instant → Try ApiError Instant
  day_time end_of_day none = fail (bad_request "catch-up time must be RFC3339 or YYYY-MM-DD")
  day_time end_of_day (some start) = pass (if end_of_day then start + day - second else start)

  abbrev time_or_day : String → Bool → Option Instant → Try ApiError Instant
  time_or_day value end_of_day (some time) = pass time
  time_or_day value end_of_day none = day_time end_of_day (parse_date value)

  unfoldable pub parse_catch_up_time : String → Bool → Try ApiError Instant
  parse_catch_up_time value end_of_day = time_or_day value end_of_day (parse_rfc3339 value)

  -- `map(…).transpose()?.unwrap_or(default)`.
  abbrev pub time_or : Option String → Bool → Instant → Try ApiError Instant
  time_or none end_of_day default = pass default
  time_or (some value) end_of_day default = parse_catch_up_time value end_of_day

  unfoldable pub catch_up_window : Instant → CatchUpRequest → Try ApiError CatchUpWindow
  unfolding parse_catch_up_time
  catch_up_window now input = Try.◌>>=◌ (time_or input.to true now) λ to.
      Try.◌>>=◌ (time_or input.from false (to - 7 * day)) λ from.
        Try.◌>>◌ (Try.refuse_if (ltb to from) (bad_request "from must be before to")) (
          pass (record {
            from = from;
            to = to;
            limit = clamp (unwrap_or input.limit 100) 1 500;
            cursor = input.cursor;
          }))
