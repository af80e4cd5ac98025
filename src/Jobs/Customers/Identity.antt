-- ===== src/Jobs/Customers/Identity.antt =====
-- The two expressions by which rows are linked to customers name the same customer.
use revtern.Prelude.{
  ℕ, ◌&&◌, String, Bool, ◌≡◌, refl, Option, none, some, List, [], ◌∷◌, arith, str_eq, eq_iff, All,
  find,
}
use revtern.Runtime.{Instant, Runtime}
use revtern.Prelude.Rows.{All-find, All-put}
use revtern.Jobs.Tables.{Db, Customer, Transaction}
use revtern.Jobs.Exec.{Result, ok, err, draw_id}
use revtern.Jobs.Keeps.{Keeps}
use revtern.Jobs.Products.{write_product}
use revtern.Jobs.Transactions.{
  new_transaction, stored_transaction, write_transaction, link_transaction,
}
use revtern.Jobs.Subscriptions.{write_subscription, link_subscription}
use revtern.Jobs.Process.{process_raw_event}
use revtern.Jobs.Invariants.{KeepsWrites, ledger_writes, process_raw_event-Keeps}
use revtern.Jobs.Customers.{
  customer_identity_key, transaction_identity_key, new_customer, merged_customer, is_customer,
  opt_is, write_customer, customer_of_transaction, customer_of_subscription,
}

-- The row has one identity, whichever column it stands in.
abbrev pub IsIdentified : Customer → Type 0
IsIdentified c = customer_identity_key c ≡ transaction_identity_key c

new_customer-IsIdentified :
    (id w app_id key source_type : String) (at : Instant)
    → (customer_identity_key (new_customer id w app_id key source_type at) ≡ some key)
      × IsIdentified (new_customer id w app_id key source_type at)
unfolding customer_identity_key transaction_identity_key new_customer
new_customer-IsIdentified id w app_id key source_type at = ground (
  arith,
  eq_iff source_type "app_store",
  eq_iff source_type "google_play",
  eq_iff source_type "revenuecat",
)

-- Every customer of the database has one identity.
abbrev pub HasIdentified : {V : Type 0} → Db V → Type 0
HasIdentified db = All IsIdentified db.customers

merged-IsIdentified :
    (rows : List Customer) (p : Customer → Bool) (old : Option Customer) (excluded : Customer)
    → All IsIdentified rows
    → find p rows ≡ old
    → IsIdentified excluded
    → IsIdentified (merged_customer old excluded)
unfolding customer_identity_key transaction_identity_key
merged-IsIdentified rows p none excluded all e h = h
merged-IsIdentified rows p (some old) excluded all e h = All-find IsIdentified p rows all e

write_customer-Keeps :
    (rt : Runtime) (app_id key : String) (row : Customer)
    → IsIdentified row
    → Keeps HasIdentified (write_customer rt app_id key row)
unfolding write_customer
write_customer-Keeps rt app_id key row h = record {
  after = λ db all.
      let same = is_customer app_id key in
      All-put IsIdentified same _ db.customers all
        (merged-IsIdentified db.customers same (find same db.customers) row all refl h);
}

stored_transaction-HasIdentified :
    {V : Type 0} (row : Transaction) (db : Db V) (r : Result Transaction)
    → HasIdentified db
    → HasIdentified (stored_transaction row db r).1
stored_transaction-HasIdentified row db (ok t) h = h
stored_transaction-HasIdentified row db (err e) h = h

customer_writes : (rt : Runtime) → KeepsWrites rt HasIdentified
unfolding draw_id write_product write_transaction link_transaction write_subscription
    link_subscription
customer_writes rt =
    ledger_writes rt
      (record {
        rollups = record { ids = λ db n h. h; metrics = λ db rows h. h };
        events = λ db rows h. h;
        raw_events = λ db rows h. h;
      })
      (record {
        draws = λ prefix. record { after = λ db h. h };
        product = λ now row. record { after = λ db h. h };
        customer = λ id w app_id key source_type at.
            write_customer-Keeps rt app_id key (new_customer id w app_id key source_type at)
              (new_customer-IsIdentified id w app_id key source_type at).1;
        transaction = λ id event_id event_type c. record {
          after = λ db h.
              stored_transaction-HasIdentified (new_transaction id event_id event_type c) db _ h;
        };
        linked_transaction = λ app_id key id. record { after = λ db h. h };
        subscription = λ id key latest event_type c. record { after = λ db h. h };
        linked_subscription = λ app_id key sub. record { after = λ db h. h };
      })

same_customer :
    (app_id key : String) (rows : List Customer)
    → All IsIdentified rows
    → find (λ c. str_eq c.app_id app_id && opt_is (transaction_identity_key c) key) rows
      ≡ find (is_customer app_id key) rows
unfolding find
same_customer app_id key [] all = refl
same_customer app_id key (c ∷ rows) all = rw (all.0, same_customer app_id key rows all.1)

-- If in every customer the generated identity column agrees with the expression that
-- `project_transaction` compares, this still holds after a run of `process_raw_event`, also if the
-- run fails, and then transactions and subscriptions are linked to the same customer: the two
-- queries answer the same for every application and key.
pub process_raw_event-HasIdentified :
    (rt : Runtime) (now : Instant) (clock : ℕ → Instant) (raw_event_id : String) (db : Db rt.Value)
    (app_id key : String)
    → HasIdentified db
    → let after = (process_raw_event rt now clock raw_event_id db).1 in
      HasIdentified after
      × (customer_of_transaction app_id key after ≡ customer_of_subscription app_id key after)
unfolding customer_of_transaction customer_of_subscription
process_raw_event-HasIdentified rt now clock raw_event_id db app_id key h =
    let kept =
      (process_raw_event-Keeps rt (customer_writes rt) now clock raw_event_id).after db h in
    (kept, rw (same_customer app_id key _ kept))
