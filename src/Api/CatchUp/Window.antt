-- ===== src/Api/CatchUp/Window.antt =====
-- The bounds of a catch-up window.
use revtern.Prelude.{ℕ, ◌-◌, ◌*◌, ◌≤◌, String, true, false, Option, ◌≡◌, ltb, unwrap_or, arith}
use revtern.Runtime.{Instant, Runtime}
use revtern.Api.Try.{pass, after_pass, after_refuse, pass_inj}
use revtern.Api.CatchUp.{CatchUpRequest, CatchUpWindow, clamp, day, time_or, catch_up_window}

-- A window that does not end before it starts, of 1 to 500 events, at the times that the request
-- names, or the last seven days.
pub record IsBounded (rt : Runtime) (parse_date : String → Option Instant) (now : Instant)
    (input : CatchUpRequest) (window : CatchUpWindow) : Type 0 where
  pub in_order : window.from ≤ window.to
  pub at_least_one : 1 ≤ window.limit
  pub at_most_500 : window.limit ≤ 500
  pub ends : time_or rt parse_date input.to true now ≡ pass window.to
  pub starts : time_or rt parse_date input.from false (window.to - 7 * day) ≡ pass window.from

clamp-bounds : (n : ℕ) → (1 ≤ clamp n 1 500) × (clamp n 1 500 ≤ 500)
clamp-bounds n = (ground arith, ground arith)

not-ltb : (a b : ℕ) → ltb a b ≡ false → b ≤ a
not-ltb a b h = ground arith

-- Every window that a request is given is in order, asks for 1 to 500 events, and stands at the times
-- that the request names or, where it names none, ends now and starts seven days before its end.
pub catch_up_window-IsBounded :
    (rt : Runtime) (parse_date : String → Option Instant) (now : Instant) (input : CatchUpRequest)
    (window : CatchUpWindow)
    → catch_up_window rt parse_date now input ≡ pass window
    → IsBounded rt parse_date now input window
unfolding catch_up_window
catch_up_window-IsBounded rt parse_date now input window h = after_pass _ _ h λ to ends h1.
    after_pass _ _ h1 λ from starts h2. after_refuse _ _ _ h2 λ in_order h3.
      rw (← pass_inj h3) (record {
        in_order = not-ltb to from in_order;
        at_least_one = (clamp-bounds (unwrap_or input.limit 100)).0;
        at_most_500 = (clamp-bounds (unwrap_or input.limit 100)).1;
        ends = ends;
        starts = starts;
      })
