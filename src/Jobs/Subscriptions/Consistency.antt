-- ===== src/Jobs/Subscriptions/Consistency.antt =====
-- The flags of a subscription say what its status says.
use revtern.Prelude.{
  ℕ, String, Bool, true, false, ◌≡◌, refl, Option, none, some, List, arith, str_eq, eq_iff, eq_refl,
  unwrap_or, All, find, Bool-cases, inl, inr,
}
use revtern.Runtime.{Instant, Runtime}
use revtern.Core.{match_arm}
use revtern.Core.Vocabulary.{sole, match_arm-sole}
use revtern.Prelude.Rows.{All-find, All-put, All-update_where}
use revtern.Jobs.Tables.{Db, Subscription, Transaction}
use revtern.Jobs.Exec.{Result, ok, err, draw_id}
use revtern.Jobs.Products.{write_product}
use revtern.Jobs.Customers.{write_customer}
use revtern.Jobs.Transactions.{
  new_transaction, stored_transaction, write_transaction, link_transaction,
}
use revtern.Jobs.Process.{process_raw_event}
use revtern.Jobs.Invariants.{KeepsWrites, ledger_writes, process_raw_event-Keeps}
use revtern.Jobs.Keeps.{Keeps}
use revtern.Jobs.Ledger.{ProjectionContext}
use revtern.Jobs.Subscriptions.{
  subscription_status, subscription_arms, new_subscription, merge_subscription, merged_subscription,
  is_subscription, write_subscription, link_subscription,
}

-- Exactly the status `grace_period` goes with `in_grace_period`, and exactly `billing_retry` with
-- `in_billing_retry`.
pub record IsConsistent (s : Subscription) : Type 0 where
  pub grace : s.in_grace_period ≡ str_eq s.status "grace_period"
  pub retry : s.in_billing_retry ≡ str_eq s.status "billing_retry"

flag_of_arm :
    (s p w : String)
    → str_eq (unwrap_or (match_arm p subscription_arms) "active") w ≡ true
    → sole p w subscription_arms ≡ true
    → str_eq "active" w ≡ false
    → str_eq s p ≡ str_eq (unwrap_or (match_arm s subscription_arms) "active") w
flag_of_arm s p w own h k = elim (Bool-cases (str_eq s p)) [
  | inl same ↦ rw ((eq_iff s p).0 same) (cc (eq_refl p, own))
  | inr apart ↦ cc (apart, match_arm-sole s p w "active" subscription_arms h k apart)
]

status_flags :
    (event_type : String)
    → (str_eq event_type "grace_period_started"
        ≡ str_eq (subscription_status event_type) "grace_period")
      × (str_eq event_type "billing_issue"
          ≡ str_eq (subscription_status event_type) "billing_retry")
unfolding subscription_status match_arm
status_flags t = (
  flag_of_arm t "grace_period_started" "grace_period" refl refl refl,
  flag_of_arm t "billing_issue" "billing_retry" refl refl refl,
)

new_subscription-IsConsistent :
    (id key : String) (latest : Option String) (event_type : String) (c : ProjectionContext)
    → IsConsistent (new_subscription id key latest event_type c)
unfolding new_subscription
new_subscription-IsConsistent id key latest event_type c = record {
  grace = (status_flags event_type).0;
  retry = (status_flags event_type).1;
}

merge_subscription-IsConsistent :
    (old excluded : Subscription)
    → IsConsistent old
    → IsConsistent excluded
    → IsConsistent (merge_subscription old excluded)
unfolding merge_subscription
merge_subscription-IsConsistent old excluded h k = ground arith

-- Every subscription of the database is consistent.
abbrev pub HasConsistent : {V : Type 0} → Db V → Type 0
HasConsistent db = All IsConsistent db.subscriptions

merged-IsConsistent :
    (rows : List Subscription) (p : Subscription → Bool) (old : Option Subscription)
    (excluded : Subscription)
    → All IsConsistent rows
    → find p rows ≡ old
    → IsConsistent excluded
    → IsConsistent (merged_subscription old excluded)
merged-IsConsistent rows p none excluded all e h = h
merged-IsConsistent rows p (some old) excluded all e h =
    merge_subscription-IsConsistent old excluded (All-find IsConsistent p rows all e) h

write_subscription-Keeps :
    {V : Type 0} (row : Subscription)
    → IsConsistent row
    → Keeps {V = V} HasConsistent (write_subscription row)
unfolding write_subscription
write_subscription-Keeps row h = record {
  after = λ db all.
      let same = is_subscription row.app_id row.subscription_key in
      All-put IsConsistent same _ db.subscriptions all
        (merged-IsConsistent db.subscriptions same (find same db.subscriptions) row all refl h);
}

link_subscription-Keeps :
    {V : Type 0} (app_id key sub : String)
    → Keeps {V = V} HasConsistent (link_subscription app_id key sub)
unfolding link_subscription
link_subscription-Keeps app_id key sub = record {
  after = λ db all.
      All-update_where IsConsistent _ _ db.subscriptions all
        (λ s c. record { grace = c.grace; retry = c.retry });
}

stored_transaction-HasConsistent :
    {V : Type 0} (row : Transaction) (db : Db V) (r : Result Transaction)
    → HasConsistent db
    → HasConsistent (stored_transaction row db r).1
stored_transaction-HasConsistent row db (ok t) h = h
stored_transaction-HasConsistent row db (err e) h = h

subscription_writes : (rt : Runtime) → KeepsWrites rt HasConsistent
unfolding draw_id write_product write_customer write_transaction link_transaction
subscription_writes rt =
    ledger_writes rt
      (record {
        rollups = record { ids = λ db n h. h; metrics = λ db rows h. h };
        events = λ db rows h. h;
        raw_events = λ db rows h. h;
      })
      (record {
        draws = λ prefix. record { after = λ db h. h };
        product = λ now row. record { after = λ db h. h };
        customer = λ id w app_id key source_type at. record { after = λ db h. h };
        transaction = λ id event_id event_type c. record {
          after = λ db h.
              stored_transaction-HasConsistent (new_transaction id event_id event_type c) db _ h;
        };
        linked_transaction = λ app_id key id. record { after = λ db h. h };
        subscription = λ id key latest event_type c.
            write_subscription-Keeps (new_subscription id key latest event_type c)
              (new_subscription-IsConsistent id key latest event_type c);
        linked_subscription = link_subscription-Keeps;
      })

-- If every subscription of the database has the grace-period flag exactly with the status
-- `grace_period` and the retry flag exactly with the status `billing_retry`, every subscription
-- has them so after a run of `process_raw_event`, also if the run fails.
pub process_raw_event-HasConsistent :
    (rt : Runtime) (now : Instant) (clock : ℕ → Instant) (raw_event_id : String) (db : Db rt.Value)
    → HasConsistent db
    → HasConsistent (process_raw_event rt now clock raw_event_id db).1
process_raw_event-HasConsistent rt now clock raw_event_id db h =
    (process_raw_event-Keeps rt (subscription_writes rt) now clock raw_event_id).after db h
