-- ===== src/Jobs/Customers.antt =====
-- `upsert_customer`, and the two queries that link a row to its customer.
pub mod Identity
use mathlib.Core.Option
use revtern.Prelude.{
  String, Bool, true, false, ◌&&◌, Option, none, some, if◌then◌else◌, or_else, str_eq, find, put,
}
use revtern.Runtime.{Instant, Runtime}
use revtern.Jobs.Tables.{Db, Customer}
use revtern.Jobs.Exec.{Exec, ◌>>=◌, ◌>>◌, pure, modify, draw_id}

-- A column against a value: `null` is equal to nothing.
abbrev pub opt_is : Option String → String → Bool
opt_is none s = false
opt_is (some t) s = str_eq t s

-- The generated column `customer_identity_key` of the table.
unfoldable pub customer_identity_key : Customer → Option String
customer_identity_key c = or_else c.app_user_id (
    or_else c.apple_app_account_token
      (or_else c.google_obfuscated_account_id c.revenuecat_app_user_id))

-- The expression that `project_transaction` compares instead.
unfoldable pub transaction_identity_key : Customer → Option String
transaction_identity_key c = or_else c.app_user_id (
    or_else c.revenuecat_app_user_id
      (or_else c.google_obfuscated_account_id c.apple_app_account_token))

abbrev customer_id_of : Customer → String
customer_id_of c = c.id

-- The row to insert: the key stands in the column of its provider.
unfoldable pub new_customer : String → String → String → String → String → Instant → Customer
new_customer id workspace_id app_id customer_key source_type occurred_at =
    let apple = str_eq source_type "app_store" in
    let google = str_eq source_type "google_play" in
    let revenuecat = str_eq source_type "revenuecat" in
    record {
      id = id;
      workspace_id = workspace_id;
      app_id = app_id;
      app_user_id =
          if apple
          then none
          else if google
          then none
          else if revenuecat
          then none
          else some customer_key;
      apple_app_account_token = if apple then some customer_key else none;
      google_obfuscated_account_id = if google then some customer_key else none;
      revenuecat_app_user_id = if revenuecat then some customer_key else none;
      first_seen_at = occurred_at;
      last_seen_at = occurred_at;
    }

abbrev pub is_customer : String → String → Customer → Bool
is_customer app_id key c = str_eq c.app_id app_id && opt_is (customer_identity_key c) key

abbrev pub merged_customer : Option Customer → Customer → Customer
merged_customer none excluded = excluded
merged_customer (some old) excluded = record old { last_seen_at = excluded.last_seen_at }

module _ (rt : Runtime) where
  open rt use {Value}

  unfoldable pub write_customer : String → String → Customer → Exec Value (Unit {0})
  write_customer app_id customer_key excluded db =
      let is_same = is_customer app_id customer_key in
      let row = merged_customer (find is_same db.customers) excluded in
      pure tt (record db { customers = put is_same row db.customers })

  unfoldable pub upsert_customer :
      String → String → String → String → Instant → Exec Value (Unit {0})
  upsert_customer workspace_id app_id customer_key source_type occurred_at = do
    id ← draw_id rt "cus"
    write_customer app_id customer_key
        (new_customer id workspace_id app_id customer_key source_type occurred_at)

-- `select id from customers where app_id = $1 and … = $2 limit 1`, for each of the two.
module _ {V : Type 0} where
  unfoldable pub customer_of_transaction : String → String → Db V → Option String
  customer_of_transaction app_id customer_key db = Option.map customer_id_of (
      find (λ c. str_eq c.app_id app_id && opt_is (transaction_identity_key c) customer_key)
        db.customers)

  unfoldable pub customer_of_subscription : String → String → Db V → Option String
  customer_of_subscription app_id customer_key db =
      Option.map customer_id_of (find (is_customer app_id customer_key) db.customers)
