-- ===== src/Jobs/Transactions/Merge.antt =====
-- The columns of a transaction that do not depend on the order in which its events arrive.
use revtern.Prelude.{◌≡◌, ◌≢◌, refl, Option, arith}
use revtern.Prelude.Int.{ℤ}
use revtern.Jobs.Tables.{Transaction}
use revtern.Jobs.Exec.{Result, ok, err}
use revtern.Jobs.Transactions.{merge_transaction, merge_refund, merge_columns, with_refund}

-- Two rows agree on the columns that follow the provider's clock.
pub record SameProgress (a b : Transaction) : Type 0 where
  pub status : a.status ≡ b.status
  pub source_status : a.source_status ≡ b.source_status
  pub status_updated_at : a.status_updated_at ≡ b.status_updated_at
  pub latest_event_id : a.latest_event_id ≡ b.latest_event_id
  pub purchase_time : a.purchase_time ≡ b.purchase_time

with_refund_ok :
    (old excluded row : Transaction) (r : Result (Option ℤ))
    → with_refund old excluded r ≡ ok row
    → (refund : Option ℤ) × (r ≡ ok refund) × (row ≡ merge_columns old excluded refund)
with_refund_ok old excluded row (ok refund) h = (refund, refl, cc)
with_refund_ok old excluded row (err e) h = cc

pub merge_transaction_ok :
    (old excluded row : Transaction)
    → merge_transaction old excluded ≡ ok row
    → (refund : Option ℤ) × (merge_refund old excluded ≡ ok refund)
      × (row ≡ merge_columns old excluded refund)
unfolding merge_transaction
merge_transaction_ok old excluded row h = with_refund_ok old excluded row _ h

columns_commute :
    (row a b : Transaction) (r s t u : Option ℤ)
    → a.status_updated_at ≢ b.status_updated_at
    → SameProgress
        (merge_columns (merge_columns row a r) b s)
        (merge_columns (merge_columns row b t) a u)
unfolding merge_columns
columns_commute row a b r s t u apart = record {
  status = ground arith;
  source_status = ground arith;
  status_updated_at = omega arith;
  latest_event_id = ground arith;
  purchase_time = omega arith;
}

-- Two events with different times, merged into a row in either order without a failure, leave the
-- same status, source status, status time, latest event and purchase time.
pub merge_transaction_order :
    (row a b row_a row_ab row_b row_ba : Transaction)
    → merge_transaction row a ≡ ok row_a
    → merge_transaction row_a b ≡ ok row_ab
    → merge_transaction row b ≡ ok row_b
    → merge_transaction row_b a ≡ ok row_ba
    → a.status_updated_at ≢ b.status_updated_at
    → SameProgress row_ab row_ba
merge_transaction_order row a b row_a row_ab row_b row_ba ea eab eb eba apart =
    let (r, _, same_a) = merge_transaction_ok row a row_a ea in
    let (s, _, same_ab) = merge_transaction_ok row_a b row_ab eab in
    let (t, _, same_b) = merge_transaction_ok row b row_b eb in
    let (u, _, same_ba) = merge_transaction_ok row_b a row_ba eba in
    rw (same_ab, same_ba, same_a, same_b) (columns_commute row a b r s t u apart)
