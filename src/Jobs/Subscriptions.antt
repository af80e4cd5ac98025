-- ===== src/Jobs/Subscriptions.antt =====
-- `project_subscription`: the state of each subscription, moved by events in the provider's order.
pub mod State
pub mod Consistency
use mathlib.Core.Option
use revtern.Prelude.{
  ℕ, String, Bool, true, false, ◌&&◌, ◌||◌, not, Option, none, some, List, [], ◌∷◌, if◌then◌else◌,
  unwrap_or, or_else, str_eq, leb, min, max, find, put, update_where,
}
use revtern.Runtime.{Instant, Runtime}
use revtern.Core.{one_of, match_arm}
use revtern.Connectors.Event.{ExtractedEvent}
use revtern.Jobs.Tables.{Db, Subscription}
use revtern.Jobs.Exec.{Exec, ◌>>=◌, ◌>>◌, pure, modify, draw_id}
use revtern.Jobs.Ledger.{ProjectionContext}
use revtern.Jobs.Customers.{upsert_customer, customer_of_subscription}

abbrev pub lifecycle_types : List String
lifecycle_types =
    "trial_started" ∷ "renewal" ∷ "cancellation" ∷ "expiration" ∷ "billing_issue"
    ∷ "grace_period_started" ∷ "grace_period_ended" ∷ "reactivation" ∷ []

abbrev pub subscription_arms : List (String × String)
subscription_arms =
    ("trial_started", "trialing")
    ∷ ("cancellation", "cancelled_active")
    ∷ ("expiration", "expired")
    ∷ ("billing_issue", "billing_retry")
    ∷ ("grace_period_started", "grace_period")
    ∷ ("grace_period_ended", "active")
    ∷ ("reactivation", "active")
    ∷ ("refund", "refunded")
    ∷ ("revocation", "refunded")
    ∷ []

unfoldable pub subscription_status : String → String
subscription_status event_type = unwrap_or (match_arm event_type subscription_arms) "active"

abbrev pub is_subscription : String → String → Subscription → Bool
is_subscription app_id key s = str_eq s.app_id app_id && str_eq s.subscription_key key

-- `on conflict … do update`: an event that is older than the row moves no state.
unfoldable pub merge_subscription : Subscription → Subscription → Subscription
merge_subscription old excluded =
    let newer = leb old.status_updated_at excluded.status_updated_at in
    record old {
      environment = excluded.environment;
      status = if newer then excluded.status else old.status;
      status_updated_at = max old.status_updated_at excluded.status_updated_at;
      source_product_id = or_else old.source_product_id excluded.source_product_id;
      logical_product_id = or_else old.logical_product_id excluded.logical_product_id;
      started_at = min old.started_at excluded.started_at;
      current_period_start =
          if newer
          then or_else excluded.current_period_start old.current_period_start
          else old.current_period_start;
      current_period_end =
          if newer
          then or_else excluded.current_period_end old.current_period_end
          else old.current_period_end;
      cancelled_at = or_else excluded.cancelled_at old.cancelled_at;
      expired_at = or_else excluded.expired_at old.expired_at;
      will_renew = if newer then excluded.will_renew else old.will_renew;
      in_grace_period = if newer then excluded.in_grace_period else old.in_grace_period;
      in_billing_retry = if newer then excluded.in_billing_retry else old.in_billing_retry;
      latest_transaction_id =
          if newer
          then or_else excluded.latest_transaction_id old.latest_transaction_id
          else old.latest_transaction_id;
    }

-- The row that an event proposes.
unfoldable pub new_subscription :
    String → String → Option String → String → ProjectionContext → Subscription
unfolding subscription_status
new_subscription id subscription_key latest_transaction_id event_type projection =
    let extracted = projection.extracted in
    record {
      id = id;
      workspace_id = projection.workspace_id;
      app_id = projection.app_id;
      source_product_id = projection.source_product_id;
      logical_product_id = projection.logical_product_id;
      customer_id = none;
      platform = extracted.platform;
      subscription_key = subscription_key;
      original_transaction_key = extracted.original_transaction_key;
      environment = extracted.environment;
      status = subscription_status event_type;
      started_at = unwrap_or extracted.purchase_time extracted.occurred_at;
      current_period_start = or_else extracted.period_start extracted.purchase_time;
      current_period_end = extracted.period_end;
      cancelled_at = if str_eq event_type "cancellation" then some extracted.occurred_at else none;
      expired_at = if str_eq event_type "expiration" then some extracted.occurred_at else none;
      will_renew =
          unwrap_or extracted.will_renew
            (not (one_of event_type ("cancellation" ∷ "expiration" ∷ [])));
      in_grace_period = str_eq event_type "grace_period_started";
      in_billing_retry = str_eq event_type "billing_issue";
      latest_transaction_id = latest_transaction_id;
      status_updated_at = extracted.occurred_at;
    }

abbrev pub merged_subscription : Option Subscription → Subscription → Subscription
merged_subscription none excluded = excluded
merged_subscription (some old) excluded = merge_subscription old excluded

abbrev pub subscription_key_of : ExtractedEvent → Option String
subscription_key_of extracted =
    or_else (or_else extracted.subscription_key extracted.original_transaction_key)
      extracted.transaction_key

module _ {V : Type 0} where
  unfoldable pub write_subscription : Subscription → Exec V (Unit {0})
  unfolding merge_subscription
  write_subscription excluded db =
      let is_same = is_subscription excluded.app_id excluded.subscription_key in
      let row = merged_subscription (find is_same db.subscriptions) excluded in
      pure tt (record db { subscriptions = put is_same row db.subscriptions })

  unfoldable pub link_subscription : String → String → String → Exec V (Unit {0})
  unfolding customer_of_subscription
  link_subscription app_id customer_key subscription_key db =
      let customer = customer_of_subscription app_id customer_key db in
      pure tt (record db {
        subscriptions =
            update_where (is_subscription app_id subscription_key)
              (λ s. record s { customer_id = customer }) db.subscriptions;
      })

module _ (rt : Runtime) where
  open rt use {Value}

  unfoldable pub attach_subscriber :
      ProjectionContext → String → Option String → Exec Value (Unit {0})
  attach_subscriber projection subscription_key none = pure tt
  attach_subscriber projection subscription_key (some customer_key) = do
    upsert_customer rt projection.workspace_id projection.app_id customer_key projection.source_type
        projection.extracted.occurred_at
    link_subscription projection.app_id customer_key subscription_key

  unfoldable pub project_key :
      Option String → String → ProjectionContext → Option String → Exec Value (Unit {0})
  project_key latest_transaction_id event_type projection none = pure tt
  project_key latest_transaction_id event_type projection (some subscription_key) = do
    id ← draw_id rt "sub"
    write_subscription
        (new_subscription id subscription_key latest_transaction_id event_type projection)
    attach_subscriber projection subscription_key projection.extracted.customer_key

  unfoldable pub project_subscription :
      Option String → String → ProjectionContext → Exec Value (Unit {0})
  project_subscription latest_transaction_id event_type projection =
      if not (str_eq projection.extracted.product_kind "subscription")
        && not (one_of event_type lifecycle_types)
      then pure tt
      else project_key latest_transaction_id event_type projection
          (subscription_key_of projection.extracted)
