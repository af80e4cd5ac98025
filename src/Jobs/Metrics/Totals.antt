-- ===== src/Jobs/Metrics/Totals.antt =====
-- The sums of a rollup row fit together.
use revtern.Prelude.{
  ℕ, String, Bool, true, false, ◌&&◌, ◌≡◌, refl, Option, none, some, List, [], ◌∷◌, arith,
  if◌then◌else◌, unwrap_or, find, All, Bool-cases, inl, inr,
}
use revtern.Prelude.Rows.{All-find, All-put}
use revtern.Prelude.Int.{
  ℤ, pos, negsuc, ◌-ℤ◌, int_laws, in_i64, abs_i64, sub_i64, wrap_i64, wrap_i64_self,
}
use revtern.Runtime.{Runtime}
use revtern.Core.{is_revenue_event, is_refund_event}
use revtern.Core.Vocabulary.{one_of-apart}
use revtern.Connectors.Event.{ExtractedEvent}
use revtern.Jobs.Tables.{Db, DailyMetric}
use revtern.Jobs.Exec.{Result, ok, err, draw_id}
use revtern.Jobs.Keeps.{Keeps, keeps_rules}
use revtern.Jobs.Metrics.{
  add_metric, merge_metric, new_metric, merged_metric, same_bucket, stored_metric, write_metric,
  update_daily_metric, fits_bigint,
}

-- Net revenue is gross revenue less refunds.
abbrev pub IsBalanced : DailyMetric → Type 0
IsBalanced m = m.net_revenue_minor ≡ m.gross_revenue_minor -ℤ m.refund_amount_minor

-- The amounts for which `i64` negates without wrapping.
abbrev pub IsAmount : ℤ → Type 0
IsAmount a = in_i64 (pos 0 -ℤ a) && in_i64 a ≡ true

add_metric-IsBalanced :
    (old excluded : DailyMetric)
    → IsBalanced old
    → IsBalanced excluded
    → IsBalanced (add_metric old excluded)
unfolding add_metric
add_metric-IsBalanced old excluded h k = rw (h, k) (omega int_laws)

-- No event type is both a sale and a refund.
not_both : (t : String) → is_revenue_event t && is_refund_event t ≡ false
unfolding is_revenue_event is_refund_event
not_both t =
    one_of-apart t ("purchase" ∷ "one_time_purchase" ∷ "trial_converted" ∷ "renewal" ∷ [])
      ("refund" ∷ "partial_refund" ∷ "revocation" ∷ []) refl

difference :
    (a : ℤ) (sale refund : Bool)
    → IsAmount a
    → sale && refund ≡ false
    → in_i64 ((if sale then a else pos 0) -ℤ (if refund then abs_i64 a else pos 0)) ≡ true
unfolding abs_i64 wrap_i64 ◌-ℤ◌
difference (pos n) true true h k = cc k
difference (pos n) true false h k = ground arith
difference (pos n) false true h k = ground arith
difference (pos n) false false h k = refl
difference (negsuc n) true true h k = cc k
difference (negsuc n) true false h k = ground arith
difference (negsuc n) false true h k = ground arith
difference (negsuc n) false false h k = refl

new_metric-IsBalanced :
    (id w : String) (day : ℕ) (app_id : String) (logical : Option String)
    (source_type event_type : String) (e : ExtractedEvent)
    → IsAmount (unwrap_or e.amount_minor (pos 0))
    → IsBalanced (new_metric id w day app_id logical source_type event_type e)
unfolding new_metric sub_i64
new_metric-IsBalanced id w day app_id logical source_type event_type e h = wrap_i64_self _ (
    difference (unwrap_or e.amount_minor (pos 0)) (is_revenue_event event_type)
      (is_refund_event event_type) h (not_both event_type))

-- Every rollup row of the database is balanced.
abbrev pub HasBalanced : {V : Type 0} → Db V → Type 0
HasBalanced db = All IsBalanced db.daily_metrics

merge_metric-IsBalanced :
    (old excluded row : DailyMetric)
    → merge_metric old excluded ≡ ok row
    → IsBalanced old
    → IsBalanced excluded
    → IsBalanced row
unfolding merge_metric
merge_metric-IsBalanced old excluded row e h k =
    elim (Bool-cases (fits_bigint (add_metric old excluded))) [
      | inl fits ↦
          let same : add_metric old excluded ≡ row = cc (rw fits at e) in
          rw (← same) (add_metric-IsBalanced old excluded h k)
      | inr out ↦ cc (rw out at e)
    ]

merged_metric-IsBalanced :
    (rows : List DailyMetric) (p : DailyMetric → Bool) (old : Option DailyMetric)
    (excluded row : DailyMetric)
    → All IsBalanced rows
    → find p rows ≡ old
    → IsBalanced excluded
    → merged_metric old excluded ≡ ok row
    → IsBalanced row
merged_metric-IsBalanced rows p none excluded row all e h k =
    let same : excluded ≡ row = cc k in rw (← same) h
merged_metric-IsBalanced rows p (some old) excluded row all e h k =
    merge_metric-IsBalanced old excluded row k (All-find IsBalanced p rows all e) h

stored_metric-HasBalanced :
    {V : Type 0} (row : DailyMetric) (db : Db V) (r : Result DailyMetric)
    → HasBalanced db
    → ((m : DailyMetric) → r ≡ ok m → IsBalanced m)
    → HasBalanced (stored_metric row db r).1
stored_metric-HasBalanced row db (ok m) all h =
    All-put IsBalanced (same_bucket row) m db.daily_metrics all (h m refl)
stored_metric-HasBalanced row db (err e) all h = all

write_metric-Keeps :
    {V : Type 0} (row : DailyMetric) → IsBalanced row → Keeps {V = V} HasBalanced (write_metric row)
unfolding write_metric
write_metric-Keeps row h = record {
  after = λ db all.
      stored_metric-HasBalanced row db _ all
        (λ m e. merged_metric-IsBalanced db.daily_metrics (same_bucket row) _ row m all refl h e);
}

module _ (rt : Runtime) where
  open rt use {Value, date}

  draw_id-Keeps : (prefix : String) → Keeps {V = Value} HasBalanced (draw_id rt prefix)
  unfolding draw_id
  draw_id-Keeps prefix = record { after = λ db h. h }

  update_daily_metric-Keeps :
      (w app_id : String) (logical : Option String) (source_type event_type : String)
      (e : ExtractedEvent)
      → IsAmount (unwrap_or e.amount_minor (pos 0))
      → Keeps {V = Value} HasBalanced
          (update_daily_metric rt w app_id logical source_type event_type e)
  unfolding update_daily_metric
  update_daily_metric-Keeps w app_id logical source_type event_type e h =
      search
        (
          keeps_rules,
          draw_id-Keeps,
          λ (id : String).
              write_metric-Keeps {V = Value}
                (new_metric id w (date e.occurred_at) app_id logical source_type event_type e)
                (new_metric-IsBalanced id w (date e.occurred_at) app_id logical source_type
                  event_type e h),
        )
        depth 8

  -- If every rollup row has a net revenue of its gross revenue less its refunds, and the amount of
  -- an event (zero if there is none) fits `i64` with both signs, every row has so after
  -- `update_daily_metric` counted the event, also if a sum fails.
  pub update_daily_metric-HasBalanced :
      (db : Db Value) (workspace_id app_id : String) (logical_product_id : Option String)
      (source_type event_type : String) (e : ExtractedEvent)
      → IsAmount (unwrap_or e.amount_minor (pos 0))
      → HasBalanced db
      → HasBalanced
          (update_daily_metric rt workspace_id app_id logical_product_id source_type event_type e
            db).1
  update_daily_metric-HasBalanced db workspace_id app_id logical source_type event_type e h all =
      (update_daily_metric-Keeps workspace_id app_id logical source_type event_type e h).after db
        all
