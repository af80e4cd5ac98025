-- ===== src/Jobs/Products.antt =====
-- `upsert_source_product` and `active_logical_product`.
use mathlib.Core.Option
use revtern.Prelude.{
  String, Bool, ◌&&◌, Option, none, some, List, [], ◌∷◌, if◌then◌else◌, or_else, str_eq, ltb, find,
  put,
}
use revtern.Runtime.{Instant, Runtime}
use revtern.Connectors.Event.{ExtractedEvent}
use revtern.Jobs.Tables.{SourceProduct, ProductMapping}
use revtern.Jobs.Exec.{Exec, ◌>>=◌, pure, gets, draw_id}

-- `order by created_at desc limit 1`.
abbrev later_mapping : ProductMapping → Option ProductMapping → ProductMapping
later_mapping m none = m
later_mapping m (some best) = if ltb m.created_at best.created_at then best else m

unfoldable pub latest_mapping : String → String → List ProductMapping → Option ProductMapping
latest_mapping app_id source_product_id [] = none
latest_mapping app_id source_product_id (m ∷ ms) =
    let best = latest_mapping app_id source_product_id ms in
    if str_eq m.app_id app_id && str_eq m.source_product_id source_product_id && m.active
    then some (later_mapping m best)
    else best

abbrev logical_id : ProductMapping → String
logical_id m = m.logical_product_id

-- `on conflict … do update`: `excluded` is the row that was to be inserted.
module _ {V : Type 0} where
  abbrev pub is_product : String → String → String → SourceProduct V → Bool
  is_product workspace_id data_source_id key row =
      str_eq row.workspace_id workspace_id
      && str_eq row.data_source_id data_source_id
      && str_eq row.source_product_key key

  unfoldable pub merge_source_product :
      Instant → SourceProduct V → SourceProduct V → SourceProduct V
  merge_source_product now old excluded = record old {
    last_seen_at = now;
    display_name = or_else excluded.display_name old.display_name;
    product_kind =
        if str_eq old.product_kind "unknown" then excluded.product_kind else old.product_kind;
    billing_period =
        if str_eq old.billing_period "unknown" then excluded.billing_period else old.billing_period;
    amount_minor = or_else old.amount_minor excluded.amount_minor;
    currency = or_else old.currency excluded.currency;
    app_id = or_else old.app_id excluded.app_id;
    -- `old || excluded` on objects: both fields are those of the right operand.
    raw_metadata = excluded.raw_metadata;
  }

  abbrev pub merged_product : Instant → Option (SourceProduct V) → SourceProduct V → SourceProduct V
  merged_product now none excluded = excluded
  merged_product now (some old) excluded = merge_source_product now old excluded

  unfoldable pub write_product : Instant → SourceProduct V → Exec V String
  unfolding merge_source_product
  write_product now excluded db =
      let is_same =
        is_product excluded.workspace_id excluded.data_source_id excluded.source_product_key in
      let row = merged_product now (find is_same db.source_products) excluded in
      pure row.id (record db { source_products = put is_same row db.source_products })

  unfoldable pub active_logical_product : String → Option String → Exec V (Option String)
  unfolding latest_mapping
  active_logical_product app_id none = pure none
  active_logical_product app_id (some source_product_id) =
      gets λ db. Option.map logical_id (latest_mapping app_id source_product_id db.product_mappings)

module _ (rt : Runtime) (now : Instant) where
  open rt use {Value}

  unfoldable pub upsert_product :
      String
      → String
      → String
      → String
      → ExtractedEvent
      → Value
      → Option String
      → Exec Value (Option String)
  upsert_product workspace_id data_source_id app_id source_type extracted payload none = pure none
  upsert_product workspace_id data_source_id app_id source_type extracted payload (some key) = do
    id ← draw_id rt "sp"
    source_product_id ← write_product now (record {
      id = id;
      workspace_id = workspace_id;
      data_source_id = data_source_id;
      app_id = some app_id;
      source_type = source_type;
      platform = extracted.platform;
      external_product_id = extracted.external_product_id;
      external_base_plan_id = extracted.external_base_plan_id;
      external_offer_id = extracted.external_offer_id;
      display_name = extracted.display_name;
      product_kind = extracted.product_kind;
      billing_period = extracted.billing_period;
      amount_minor = extracted.amount_minor;
      currency = extracted.currency;
      raw_metadata = record { first_payload = payload; warnings = extracted.warnings };
      mapping_state = "unmapped";
      source_product_key = key;
      first_seen_at = now;
      last_seen_at = now;
    })
    pure (some source_product_id)

  unfoldable pub upsert_source_product :
      String → String → String → String → ExtractedEvent → Value → Exec Value (Option String)
  upsert_source_product workspace_id data_source_id app_id source_type extracted payload =
      upsert_product workspace_id data_source_id app_id source_type extracted payload
        extracted.source_product_key
