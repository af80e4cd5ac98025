-- ===== src/Jobs/Transactions/Refunds.antt =====
-- The refunded amount of a transaction: added up once for each event that is not the latest one.
use revtern.Prelude.{
  String, Bool, true, false, ◌≡◌, ◌≢◌, refl, sym, ap, ◌∙◌, Option, none, some, arith, leb, eq_iff,
  eq_refl, if◌then◌else◌, unwrap_or, ◌≤◌, ◌<◌,
}
use revtern.Prelude.Int.{ℤ, pos, ◌+ℤ◌, int_laws}
use revtern.Jobs.Tables.{Transaction}
use revtern.Jobs.Exec.{ok}
use revtern.Jobs.Transactions.{merge_transaction, merge_refund, merge_columns, refund_case}
use revtern.Jobs.Transactions.Merge.{merge_transaction_ok}

-- The amounts without the bounds of `bigint`.
abbrev pub added : Option ℤ → Option ℤ → Option ℤ
added total none = total
added total (some amount) = some (unwrap_or total (pos 0) +ℤ amount)

refund_case-added :
    (old excluded : Transaction) (amount refund : Option ℤ)
    → old.latest_event_id ≢ excluded.latest_event_id
    → refund_case old excluded amount ≡ ok refund
    → refund ≡ added old.refund_amount_minor amount
refund_case-added old excluded none refund apart h = cc
refund_case-added old excluded (some x) refund apart h =
    ground (arith, eq_iff old.latest_event_id excluded.latest_event_id)

merge_added :
    (old excluded row : Transaction)
    → old.latest_event_id ≢ excluded.latest_event_id
    → merge_transaction old excluded ≡ ok row
    → row.refund_amount_minor ≡ added old.refund_amount_minor excluded.refund_amount_minor
unfolding merge_refund merge_columns
merge_added old excluded row apart h =
    let (refund, merged, same) = merge_transaction_ok old excluded row h in
    rw same (refund_case-added old excluded excluded.refund_amount_minor refund apart merged)

latest_after :
    (old excluded row : Transaction)
    → merge_transaction old excluded ≡ ok row
    → row.latest_event_id ≡ (
        if leb old.status_updated_at excluded.status_updated_at
        then excluded.latest_event_id
        else old.latest_event_id)
unfolding merge_columns
latest_after old excluded row h =
    let (refund, merged, same) = merge_transaction_ok old excluded row h in rw same

added_comm : (total a b : Option ℤ) → added (added total a) b ≡ added (added total b) a
added_comm total none b = refl
added_comm total (some x) none = refl
added_comm total (some x) (some y) = ap some (omega int_laws)

if_apart : (b : Bool) {x y z id : String} → y ≢ id → x ≢ id → z ≡ (if b then x else y) → z ≢ id
if_apart true p q e = λ f. q (sym e ∙ f)
if_apart false p q e = λ f. p (sym e ∙ f)

latest_apart :
    (old excluded row : Transaction) (id : String)
    → merge_transaction old excluded ≡ ok row
    → old.latest_event_id ≢ id
    → excluded.latest_event_id ≢ id
    → row.latest_event_id ≢ id
latest_apart old excluded row id h p q =
    if_apart (leb old.status_updated_at excluded.status_updated_at) p q
      (latest_after old excluded row h)

-- Merged into a row in either order, two events whose ids differ from one another and from the
-- row's latest event leave the same refunded amount.
pub refund_order :
    (row a b row_a row_ab row_b row_ba : Transaction)
    → merge_transaction row a ≡ ok row_a
    → merge_transaction row_a b ≡ ok row_ab
    → merge_transaction row b ≡ ok row_b
    → merge_transaction row_b a ≡ ok row_ba
    → row.latest_event_id ≢ a.latest_event_id
    → row.latest_event_id ≢ b.latest_event_id
    → a.latest_event_id ≢ b.latest_event_id
    → row_ab.refund_amount_minor ≡ row_ba.refund_amount_minor
refund_order row a b row_a row_ab row_b row_ba ea eab eb eba ra rb ab =
    let first = merge_added row a row_a ra ea in
    let second =
      merge_added row_a b row_ab (latest_apart row a row_a b.latest_event_id ea rb ab) eab in
    let other = merge_added row b row_b rb eb in
    let last =
      merge_added row_b a row_ba
        (latest_apart row b row_b a.latest_event_id eb ra (λ e. ab (sym e))) eba in
    cc (
      first,
      second,
      other,
      last,
      added_comm row.refund_amount_minor a.refund_amount_minor b.refund_amount_minor,
    )

columns_again :
    (row event : Transaction) (refund : Option ℤ)
    → row.status_updated_at ≤ event.status_updated_at
    → merge_columns (merge_columns row event refund) event refund ≡ merge_columns row event refund
unfolding merge_columns
columns_again row event refund newer = ground arith

refund_again :
    (row event : Transaction) (refund amount : Option ℤ)
    → row.status_updated_at ≤ event.status_updated_at
    → refund_case (merge_columns row event refund) event amount ≡ ok refund
unfolding merge_columns
refund_again row event refund none newer = refl
refund_again row event refund (some x) newer = ground (arith, eq_refl event.latest_event_id)

-- An event that is not older than the row, merged a second time, changes nothing.
pub merge_transaction_again :
    (row event merged : Transaction)
    → merge_transaction row event ≡ ok merged
    → row.status_updated_at ≤ event.status_updated_at
    → merge_transaction merged event ≡ ok merged
unfolding merge_transaction merge_refund
merge_transaction_again row event merged h newer =
    let (refund, _, same) = merge_transaction_ok row event merged h in
    rw (
      same,
      refund_again row event refund event.refund_amount_minor newer,
      columns_again row event refund newer,
    )

-- A refund that is older than the row, and is not its latest event, is added a second time if its
-- event is merged a second time (and the sum still fits).
pub stale_refund_added_again :
    (row event once twice : Transaction) (amount : ℤ)
    → event.status_updated_at < row.status_updated_at
    → row.latest_event_id ≢ event.latest_event_id
    → event.refund_amount_minor ≡ some amount
    → merge_transaction row event ≡ ok once
    → merge_transaction once event ≡ ok twice
    → twice.refund_amount_minor
      ≡ some (unwrap_or row.refund_amount_minor (pos 0) +ℤ amount +ℤ amount)
stale_refund_added_again row event once twice amount older apart refund h k =
    let kept : once.latest_event_id ≡ row.latest_event_id =
      latest_after row event once h ∙ ground arith in
    let first = merge_added row event once apart h in
    let second = merge_added once event twice (λ e. apart (sym kept ∙ e)) k in
    rw second (rw first (rw refund))
