-- ===== src/Examples/CatchUp.antt =====
-- A catch-up of one missed webhook of Google Play, and the bounds of its window.
use revtern.Prelude.{ℕ, ◌*◌, String, Option, none, some, [], ◌∷◌, refl}
use revtern.Runtime.{Instant}
use revtern.Jobs.Tables.{Db, DataSource, RawEvent}
use revtern.Api.Try
use revtern.Api.Try.{pass}
use revtern.Api.Handler.{◌>>=◌}
use revtern.Api.CatchUp.{CatchUpRequest, CatchUpWindow, day, catch_up_window}
use revtern.Api.CatchUp.Window.{IsBounded, catch_up_window-IsBounded}
use revtern.Examples.Service.{service_platform}
use revtern.Examples.Webhooks.{custom_source, known_raw, empty_db}

abbrev no_date : String → Option Instant
no_date value = none

abbrev whole_week : CatchUpRequest
whole_week = record { from = none; to = none; limit = some 900; cursor = none }

abbrev week_window : CatchUpWindow
week_window = record { from = 0; to = 7 * day; limit = 500; cursor = none }

catch_up_window-IsBounded_example :
    IsBounded service_platform no_date (7 * day) whole_week week_window
unfolding catch_up_window Try.◌>>=◌
catch_up_window-IsBounded_example =
    catch_up_window-IsBounded service_platform no_date (7 * day) whole_week week_window refl

abbrev google_source : DataSource
google_source = record custom_source {
  source_type = "google_play";
  encrypted_credentials = some "google";
}

abbrev known_google : RawEvent ℕ
known_google = record known_raw { source_type = "google_play"; source_event_id = "05" }

abbrev google_db : Db ℕ
google_db = record empty_db { data_sources = google_source ∷ []; raw_events = known_google ∷ [] }
