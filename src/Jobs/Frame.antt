-- ===== src/Jobs/Frame.antt =====
-- Which tables the projections write: a property that does not depend on those is kept.
use revtern.Prelude.{ℕ, String, Option, none, some, List}
use revtern.Runtime.{Instant, Runtime}
use revtern.Connectors.Event.{ExtractedEvent}
use revtern.Jobs.Tables.{Db, SourceProduct, Customer, Transaction, Subscription}
use revtern.Jobs.Exec.{Result, ok, err, draw_id}
use revtern.Jobs.Keeps.{Keeps, keeps_rules, Keeps-pure}
use revtern.Jobs.Products.{
  write_product, upsert_product, upsert_source_product, active_logical_product,
}
use revtern.Jobs.Customers.{new_customer, write_customer, upsert_customer}
use revtern.Jobs.Ledger.{ProjectionContext}
use revtern.Jobs.Transactions.{
  new_transaction, stored_transaction, write_transaction, link_transaction, attach_customer,
  project_transaction,
}
use revtern.Jobs.Subscriptions.{
  new_subscription, write_subscription, link_subscription, attach_subscriber, project_key,
  project_subscription,
}

-- `P` does not depend on the tables of products, customers, transactions and subscriptions.
pub record IgnoresProjections {V : Type 0} (P : Db V → Type 0) : Type 0 where
  pub ids : (db : Db V) (n : ℕ) → P db → P (record db { ids_drawn = n })
  pub products :
      (db : Db V) (rows : List (SourceProduct V)) → P db → P (record db { source_products = rows })
  pub customers : (db : Db V) (rows : List Customer) → P db → P (record db { customers = rows })
  pub transactions :
      (db : Db V) (rows : List Transaction) → P db → P (record db { transactions = rows })
  pub subscriptions :
      (db : Db V) (rows : List Subscription) → P db → P (record db { subscriptions = rows })

-- `P` is kept by each write that the projections of an event make.
pub record KeepsProjections (rt : Runtime) (P : Db rt.Value → Type 0) : Type 0 where
  pub draws : (prefix : String) → Keeps P (draw_id rt prefix)
  pub product : (now : Instant) (row : SourceProduct rt.Value) → Keeps P (write_product now row)
  pub customer :
      (id w app_id key source_type : String) (at : Instant)
      → Keeps P (write_customer rt app_id key (new_customer id w app_id key source_type at))
  pub transaction :
      (id event_id event_type : String) (c : ProjectionContext)
      → Keeps P (write_transaction {V = rt.Value} (new_transaction id event_id event_type c))
  pub linked_transaction :
      (app_id key id : String) → Keeps P (link_transaction {V = rt.Value} app_id key id)
  pub subscription :
      (id key : String) (latest : Option String) (event_type : String) (c : ProjectionContext)
      → Keeps P (write_subscription {V = rt.Value} (new_subscription id key latest event_type c))
  pub linked_subscription :
      (app_id key sub : String) → Keeps P (link_subscription {V = rt.Value} app_id key sub)

stored_transaction-Keeps :
    {V : Type 0} {P : Db V → Type 0} (ig : IgnoresProjections P) (row : Transaction) (db : Db V)
    (r : Result Transaction)
    → P db
    → P (stored_transaction row db r).1
stored_transaction-Keeps ig row db (ok t) h = ig.transactions db _ h
stored_transaction-Keeps ig row db (err e) h = h

pub ignores_projections :
    (rt : Runtime) {P : Db rt.Value → Type 0} → IgnoresProjections P → KeepsProjections rt P
unfolding draw_id write_product write_customer write_transaction link_transaction write_subscription
    link_subscription
ignores_projections rt ig = record {
  draws = λ prefix. record { after = λ db h. ig.ids db _ h };
  product = λ now row. record { after = λ db h. ig.products db _ h };
  customer = λ id w app_id key source_type at. record { after = λ db h. ig.customers db _ h };
  transaction = λ id event_id event_type c. record {
    after = λ db h. stored_transaction-Keeps ig (new_transaction id event_id event_type c) db _ h;
  };
  linked_transaction = λ app_id key id. record { after = λ db h. ig.transactions db _ h };
  subscription = λ id key latest event_type c. record { after = λ db h. ig.subscriptions db _ h };
  linked_subscription = λ app_id key sub. record { after = λ db h. ig.subscriptions db _ h };
}

pub active_logical_product-Keeps :
    {V : Type 0} (P : Db V → Type 0) (app_id : String) (id : Option String)
    → Keeps P (active_logical_product {V = V} app_id id)
unfolding active_logical_product
active_logical_product-Keeps P app_id none = Keeps-pure none
active_logical_product-Keeps P app_id (some id) = record { after = λ db h. h }

module _ (rt : Runtime) {P : Db rt.Value → Type 0} (kp : KeepsProjections rt P) where
  open rt use {Value}

  upsert_customer-Keeps :
      (workspace_id app_id key source_type : String) (at : Instant)
      → Keeps P (upsert_customer rt workspace_id app_id key source_type at)
  unfolding upsert_customer
  upsert_customer-Keeps workspace_id app_id key source_type at =
      search (keeps_rules, kp.draws, kp.customer)

  attach_customer-Keeps :
      (c : ProjectionContext) (id : String) (key : Option String)
      → Keeps P (attach_customer rt c id key)
  unfolding attach_customer
  attach_customer-Keeps c id none = Keeps-pure (some id)
  attach_customer-Keeps c id (some key) =
      search (keeps_rules, upsert_customer-Keeps, kp.linked_transaction)

  pub project_transaction-Keeps :
      (event_id event_type : String) (c : ProjectionContext)
      → Keeps P (project_transaction rt event_id event_type c)
  unfolding project_transaction
  project_transaction-Keeps event_id event_type c =
      search (keeps_rules, kp.draws, kp.transaction, attach_customer-Keeps)

  attach_subscriber-Keeps :
      (c : ProjectionContext) (sub : String) (key : Option String)
      → Keeps P (attach_subscriber rt c sub key)
  unfolding attach_subscriber
  attach_subscriber-Keeps c sub none = Keeps-pure tt
  attach_subscriber-Keeps c sub (some key) =
      search (keeps_rules, upsert_customer-Keeps, kp.linked_subscription)

  project_key-Keeps :
      (latest : Option String) (event_type : String) (c : ProjectionContext) (key : Option String)
      → Keeps P (project_key rt latest event_type c key)
  unfolding project_key
  project_key-Keeps latest event_type c none = Keeps-pure tt
  project_key-Keeps latest event_type c (some key) =
      search (keeps_rules, kp.draws, kp.subscription, attach_subscriber-Keeps)

  pub project_subscription-Keeps :
      (latest : Option String) (event_type : String) (c : ProjectionContext)
      → Keeps P (project_subscription rt latest event_type c)
  unfolding project_subscription
  project_subscription-Keeps latest event_type c = search (keeps_rules, project_key-Keeps)

  upsert_product-Keeps :
      (now : Instant) (w d a t : String) (e : ExtractedEvent) (v : Value) (key : Option String)
      → Keeps P (upsert_product rt now w d a t e v key)
  unfolding upsert_product
  upsert_product-Keeps now w d a t e v none = Keeps-pure none
  upsert_product-Keeps now w d a t e v (some key) = search (keeps_rules, kp.draws, kp.product)

  pub upsert_source_product-Keeps :
      (now : Instant) (w d a t : String) (e : ExtractedEvent) (v : Value)
      → Keeps P (upsert_source_product rt now w d a t e v)
  unfolding upsert_source_product
  upsert_source_product-Keeps now w d a t e v = upsert_product-Keeps now w d a t e v _
