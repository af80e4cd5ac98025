-- ===== src/Jobs/Transactions.antt =====
-- `project_transaction`: the row of each purchase, kept up to date by the events about it.
pub mod Merge
pub mod Refunds
use mathlib.Core.Option
use revtern.Prelude.{
  ℕ, String, Bool, true, false, ◌&&◌, ◌||◌, not, Option, none, some, List, [], ◌∷◌, if◌then◌else◌,
  unwrap_or, or_else, str_eq, leb, min, max, find, put, update_where,
}
use revtern.Prelude.Int.{ℤ, pos, ◌+ℤ◌, in_i64, eq_ℤ, abs_i64}
use revtern.Runtime.{Instant, Runtime}
use revtern.Core.{is_revenue_event, is_refund_event, match_arm}
use revtern.Connectors.Event.{ExtractedEvent}
use revtern.Jobs.Tables.{Db, Transaction}
use revtern.Jobs.Exec.{
  Exec, Result, ok, err, out_of_range, ◌>>=◌, ◌>>◌, pure, lift, modify, draw_id,
}
use revtern.Jobs.Ledger.{ProjectionContext}
use revtern.Jobs.Customers.{upsert_customer, customer_of_transaction}

-- `a + b` on `bigint` columns.
abbrev pub add_bigint : ℤ → ℤ → Result ℤ
add_bigint a b = if in_i64 (a +ℤ b) then ok (a +ℤ b) else err out_of_range

abbrev pub transaction_arms : List (String × String)
transaction_arms =
    ("renewal", "renewed")
    ∷ ("refund", "refunded")
    ∷ ("partial_refund", "partially_refunded")
    ∷ ("revocation", "revoked")
    ∷ []

unfoldable pub transaction_status : String → String
transaction_status event_type = unwrap_or (match_arm event_type transaction_arms) "paid"

abbrev pub is_transaction : String → String → String → Transaction → Bool
is_transaction app_id source_type key t =
    str_eq t.app_id app_id && str_eq t.source_type source_type && str_eq t.transaction_key key

abbrev some_total : Result ℤ → Result (Option ℤ)
some_total (ok total) = ok (some total)
some_total (err e) = err e

-- The new value of `refund_amount_minor`, by cases on the value of `excluded`.
abbrev pub refund_case : Transaction → Transaction → Option ℤ → Result (Option ℤ)
refund_case old excluded none = ok old.refund_amount_minor
refund_case old excluded (some amount) =
    if str_eq old.latest_event_id excluded.latest_event_id
    then ok old.refund_amount_minor
    else some_total (add_bigint (unwrap_or old.refund_amount_minor (pos 0)) amount)

unfoldable pub merge_refund : Transaction → Transaction → Result (Option ℤ)
merge_refund old excluded = refund_case old excluded excluded.refund_amount_minor

-- The columns besides the refunded amount. The event that is not older than the row wins.
unfoldable pub merge_columns : Transaction → Transaction → Option ℤ → Transaction
merge_columns old excluded refund =
    let newer = leb old.status_updated_at excluded.status_updated_at in
    record old {
      environment = excluded.environment;
      purchase_time = min old.purchase_time excluded.purchase_time;
      amount_minor =
          if eq_ℤ old.amount_minor (pos 0) then excluded.amount_minor else old.amount_minor;
      currency = if str_eq old.currency "UNKNOWN" then excluded.currency else old.currency;
      country = or_else old.country excluded.country;
      status = if newer then excluded.status else old.status;
      source_status = if newer then excluded.source_status else old.source_status;
      status_updated_at = max old.status_updated_at excluded.status_updated_at;
      refunded_at = or_else excluded.refunded_at old.refunded_at;
      refund_amount_minor = refund;
      latest_event_id = if newer then excluded.latest_event_id else old.latest_event_id;
      logical_product_id = or_else old.logical_product_id excluded.logical_product_id;
    }

abbrev pub with_refund : Transaction → Transaction → Result (Option ℤ) → Result Transaction
with_refund old excluded (ok refund) = ok (merge_columns old excluded refund)
with_refund old excluded (err e) = err e

-- `on conflict … do update`.
unfoldable pub merge_transaction : Transaction → Transaction → Result Transaction
merge_transaction old excluded = with_refund old excluded (merge_refund old excluded)

-- The row that an event proposes.
unfoldable pub new_transaction : String → String → String → ProjectionContext → Transaction
unfolding transaction_status
new_transaction id normalized_event_id event_type projection =
    let extracted = projection.extracted in
    let amount = unwrap_or extracted.amount_minor (pos 0) in
    record {
      id = id;
      workspace_id = projection.workspace_id;
      app_id = projection.app_id;
      source_product_id = projection.source_product_id;
      logical_product_id = projection.logical_product_id;
      customer_id = none;
      platform = extracted.platform;
      transaction_key = unwrap_or extracted.transaction_key normalized_event_id;
      original_transaction_key = extracted.original_transaction_key;
      source_type = projection.source_type;
      environment = extracted.environment;
      purchase_time = unwrap_or extracted.purchase_time extracted.occurred_at;
      amount_minor = amount;
      currency = unwrap_or extracted.currency "UNKNOWN";
      country = extracted.country;
      status = transaction_status event_type;
      source_status = some extracted.source_event_type;
      status_reason = none;
      status_updated_at = extracted.occurred_at;
      refunded_at = if is_refund_event event_type then some extracted.occurred_at else none;
      refund_amount_minor = if is_refund_event event_type then some (abs_i64 amount) else none;
      created_from_event_id = normalized_event_id;
      latest_event_id = normalized_event_id;
    }

abbrev pub merged_transaction : Option Transaction → Transaction → Result Transaction
merged_transaction none excluded = ok excluded
merged_transaction (some old) excluded = merge_transaction old excluded

abbrev has_id : String → Transaction → Bool
has_id id t = str_eq t.id id

abbrev pub row_of : Transaction → Transaction → Bool
row_of excluded = is_transaction excluded.app_id excluded.source_type excluded.transaction_key

module _ {V : Type 0} where
  abbrev pub stored_transaction : Transaction → Db V → Result Transaction → Result String × Db V
  stored_transaction excluded db (err e) = (err e, db)
  stored_transaction excluded db (ok row) =
      (ok row.id, record db { transactions = put (row_of excluded) row db.transactions })

  unfoldable pub write_transaction : Transaction → Exec V String
  unfolding merge_transaction
  write_transaction excluded db =
      stored_transaction excluded db
        (merged_transaction (find (row_of excluded) db.transactions) excluded)

  unfoldable pub link_transaction : String → String → String → Exec V (Unit {0})
  unfolding customer_of_transaction
  link_transaction app_id customer_key transaction_id db =
      let customer = customer_of_transaction app_id customer_key db in
      pure tt (record db {
        transactions =
            update_where (has_id transaction_id) (λ t. record t { customer_id = customer })
              db.transactions;
      })

module _ (rt : Runtime) where
  open rt use {Value}

  unfoldable pub attach_customer :
      ProjectionContext → String → Option String → Exec Value (Option String)
  attach_customer projection transaction_id none = pure (some transaction_id)
  attach_customer projection transaction_id (some customer_key) = do
    upsert_customer rt projection.workspace_id projection.app_id customer_key projection.source_type
        projection.extracted.occurred_at
    link_transaction projection.app_id customer_key transaction_id
    pure (some transaction_id)

  unfoldable pub project_transaction :
      String → String → ProjectionContext → Exec Value (Option String)
  project_transaction normalized_event_id event_type projection =
      if not (is_revenue_event event_type) && not (is_refund_event event_type)
      then pure none
      else do
        id ← draw_id rt "txn"
        transaction_id ←
            write_transaction (new_transaction id normalized_event_id event_type projection)
        attach_customer projection transaction_id projection.extracted.customer_key
