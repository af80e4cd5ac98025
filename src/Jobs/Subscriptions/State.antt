-- ===== src/Jobs/Subscriptions/State.antt =====
-- A subscription shows the event with the latest provider time, whatever the order of arrival.
use mathlib.Core.List.{Memᴰ}
use revtern.Prelude.{
  ◌≡◌, refl, ◌∙◌, ◌⊎◌, inl, inr, List, [], ◌∷◌, arith, leb, max, ◌≤◌, All, Bool-cases,
}
use revtern.Jobs.Tables.{Subscription}
use revtern.Jobs.Subscriptions.{merge_subscription}

-- The row after the rows that the events propose were merged into it, in their order of arrival.
unfoldable pub project_all : Subscription → List Subscription → Subscription
project_all row [] = row
project_all row (e ∷ events) = project_all (merge_subscription row e) events

-- `row` is in the state that `e` proposes.
pub record Shows (row e : Subscription) : Type 0 where
  pub status : row.status ≡ e.status
  pub will_renew : row.will_renew ≡ e.will_renew
  pub in_grace_period : row.in_grace_period ≡ e.in_grace_period
  pub in_billing_retry : row.in_billing_retry ≡ e.in_billing_retry
  pub status_updated_at : row.status_updated_at ≡ e.status_updated_at

Shows-refl : (e : Subscription) → Shows e e
Shows-refl e = record {
  status = refl;
  will_renew = refl;
  in_grace_period = refl;
  in_billing_retry = refl;
  status_updated_at = refl;
}

Shows-merge :
    (row e : Subscription)
    → Shows (merge_subscription row e) row ⊎ Shows (merge_subscription row e) e
unfolding merge_subscription
Shows-merge row e = elim (Bool-cases (leb row.status_updated_at e.status_updated_at)) [
  | inl newer ↦ inr (ground (arith, newer))
  | inr older ↦ inl (ground (arith, older))
]

status_updated_at-merge :
    (row e : Subscription)
    → (merge_subscription row e).status_updated_at ≡ max row.status_updated_at e.status_updated_at
unfolding merge_subscription
status_updated_at-merge row e = refl

Shows-trans : {a b c : Subscription} → Shows a b → Shows b c → Shows a c
Shows-trans p q = record {
  status = p.status ∙ q.status;
  will_renew = p.will_renew ∙ q.will_renew;
  in_grace_period = p.in_grace_period ∙ q.in_grace_period;
  in_billing_retry = p.in_billing_retry ∙ q.in_billing_retry;
  status_updated_at = p.status_updated_at ∙ q.status_updated_at;
}

-- The state that a run of events leaves is that of the row or of one of the events, and neither
-- the row nor any event is of a later time.
pub record IsLatest (row : Subscription) (events : List Subscription) (last : Subscription)
    : Type 0 where
  pub source : Subscription
  pub proposed : (source ≡ row) ⊎ Memᴰ source events
  pub shown : Shows last source
  pub row_before : row.status_updated_at ≤ last.status_updated_at
  pub events_before : All (λ e. e.status_updated_at ≤ last.status_updated_at) events

extend :
    (row e : Subscription) (events : List Subscription) (last : Subscription)
    → IsLatest (merge_subscription row e) events last
    → IsLatest row (e ∷ events) last
extend row e events last l =
    let times = status_updated_at-merge row e in
    let row_time : row.status_updated_at ≤ last.status_updated_at =
      omega (arith, times, l.row_before) in
    let e_time : e.status_updated_at ≤ last.status_updated_at =
      omega (arith, times, l.row_before) in
    elim l.proposed [
      | inl same ↦ elim (Shows-merge row e) [
        | inl old ↦ record {
          source = row;
          proposed = inl refl;
          shown = Shows-trans l.shown (rw same old);
          row_before = row_time;
          events_before = (e_time, l.events_before);
        }
        | inr new ↦ record {
          source = e;
          proposed = inr (Memᴰ.head refl);
          shown = Shows-trans l.shown (rw same new);
          row_before = row_time;
          events_before = (e_time, l.events_before);
        }
      ]
      | inr listed ↦ record {
        source = l.source;
        proposed = inr (Memᴰ.tail listed);
        shown = l.shown;
        row_before = row_time;
        events_before = (e_time, l.events_before);
      }
    ]

-- However the events about a subscription arrive, its row ends with the status, the renewal flag,
-- the two retry flags and the time that one of them, or the row itself, proposed; and no event,
-- nor the row, had a later time.
pub project_all-IsLatest :
    (row : Subscription) (events : List Subscription) → IsLatest row events (project_all row events)
unfolding project_all
project_all-IsLatest row [] = record {
  source = row;
  proposed = inl refl;
  shown = Shows-refl row;
  row_before = omega arith;
  events_before = tt;
}
project_all-IsLatest row (e ∷ events) =
    extend row e events (project_all (merge_subscription row e) events)
      (project_all-IsLatest (merge_subscription row e) events)
