-- ===== src/Jobs/Replay/Twice.antt =====
-- A run of `process_raw_event` that succeeds, and a second run for the same raw event.
use mathlib.Core.Option
use revtern.Prelude.{
  ℕ, ◌+◌, String, Bool, true, ◌≡◌, refl, ap, ◌∙◌, Option, none, some, [], ◌∷◌, ◌++◌, eq_refl,
  unwrap_or, find, update_where, Option-cases, inl, inr,
}
use revtern.Prelude.Rows.{find-update_where, find-append_self}
use revtern.Runtime.{Instant, Runtime}
use revtern.Core.{new_id}
use revtern.Connectors.Event.{ExtractedEvent}
use revtern.Connectors.Extract.Types.{extract_event-IsTyped, normalized_event_type-clock}
use revtern.Jobs.Tables.{Db, RawEvent, DataSource, NormalizedEvent}
use revtern.Jobs.Exec.{ok, draw_id, ◌>>=◌}
use revtern.Jobs.Keeps.{Keeps, keeps_rules, Keeps-bind, Keeps-lift, Turns, Turns-bind, Turns-after}
use revtern.Jobs.Frame.{
  IgnoresProjections, ignores_projections, project_transaction-Keeps, project_subscription-Keeps,
  upsert_source_product-Keeps, active_logical_product-Keeps,
}
use revtern.Jobs.Invariants.{IgnoresRollups, update_daily_metric-Keeps}
use revtern.Jobs.Ledger.{
  ProjectionContext, is_event, new_event, refresh_event, write_event, insert_normalized_event,
}
use revtern.Jobs.Replay.{is_normalized, refreshed_known, replay-daily_metrics}
use revtern.Jobs.Process.{
  has_raw_id, has_source_id, fetch_raw_event, finished_raw, finish_raw_event, count_once,
  project_event, extracted_from, process_row, process_raw_event,
}

-- The raw event is stored and joined with its source, and its payload is of this type.
record IsFed (rt : Runtime) (now : Instant) (clock : ℕ → Instant) (raw_event_id event_type : String)
    (db : Db rt.Value) : Type 0 where
  raw : RawEvent rt.Value
  source : DataSource
  stored : find (has_raw_id raw_event_id) db.raw_events ≡ some raw
  joined : find (has_source_id raw.data_source_id) db.data_sources ≡ some source
  typed : (extracted_from rt now clock raw).normalized_event_type ≡ some event_type

-- And the ledger has its event.
record IsRecorded (rt : Runtime) (now : Instant) (clock : ℕ → Instant)
    (raw_event_id event_type : String) (db : Db rt.Value) : Type 0 where
  fed : IsFed rt now clock raw_event_id event_type db
  known : is_normalized raw_event_id event_type db ≡ true

module _ (rt : Runtime) (now : Instant) (clock : ℕ → Instant) (id type : String) where
  open rt use {Value}

  IsFed-with :
      (db db' : Db Value)
      → db'.raw_events ≡ db.raw_events
      → db'.data_sources ≡ db.data_sources
      → IsFed rt now clock id type db
      → IsFed rt now clock id type db'
  IsFed-with db db' raws sources h = record {
    raw = h.raw;
    source = h.source;
    stored = rw raws h.stored;
    joined = rw sources h.joined;
    typed = h.typed;
  }

  IsFed-ignores : IgnoresProjections (IsFed rt now clock id type)
  IsFed-ignores = record {
    ids = λ db n h. IsFed-with db (record db { ids_drawn = n }) refl refl h;
    products = λ db rows h. IsFed-with db (record db { source_products = rows }) refl refl h;
    customers = λ db rows h. IsFed-with db (record db { customers = rows }) refl refl h;
    transactions = λ db rows h. IsFed-with db (record db { transactions = rows }) refl refl h;
    subscriptions = λ db rows h. IsFed-with db (record db { subscriptions = rows }) refl refl h;
  }

  IsRecorded-ignores : IgnoresProjections (IsRecorded rt now clock id type)
  IsRecorded-ignores =
      let ig = IsFed-ignores in
      record {
        ids = λ db n h. record { fed = ig.ids db n h.fed; known = h.known };
        products = λ db rows h. record { fed = ig.products db rows h.fed; known = h.known };
        customers = λ db rows h. record { fed = ig.customers db rows h.fed; known = h.known };
        transactions = λ db rows h. record { fed = ig.transactions db rows h.fed; known = h.known };
        subscriptions =
            λ db rows h. record { fed = ig.subscriptions db rows h.fed; known = h.known };
      }

  IsRecorded-rollups : IgnoresRollups (IsRecorded rt now clock id type)
  IsRecorded-rollups = record {
    ids = IsRecorded-ignores.ids;
    metrics = λ db rows h. record {
      fed = IsFed-with db (record db { daily_metrics = rows }) refl refl h.fed;
      known = h.known;
    };
  }

  write_event-IsRecorded :
      (event_id data_source_id : String) (c : ProjectionContext) (old : Option NormalizedEvent)
      (db : Db Value)
      → find (is_event id type) db.normalized_events ≡ old
      → IsFed rt now clock id type db
      → IsRecorded rt now clock id type
          (write_event id type c (new_event event_id id data_source_id type c) old db).1
  unfolding write_event
  write_event-IsRecorded event_id data_source_id c none db e h =
      let row = new_event event_id id data_source_id type c in
      record {
        fed =
            IsFed-with db (record db { normalized_events = db.normalized_events ++ row ∷ [] }) refl
              refl h;
        known =
            find-append_self (is_event id type) db.normalized_events row
              (rw (eq_refl id, eq_refl type) refl);
      }
  write_event-IsRecorded event_id data_source_id c (some old) db e h = record {
    fed =
        IsFed-with db
          (record db {
            normalized_events =
                update_where (is_event id type) (refresh_event c) db.normalized_events;
          })
          refl refl h;
    known = refreshed_known id type c db.normalized_events (rw e refl);
  }

  insert-Turns :
      (data_source_id : String) (c : ProjectionContext)
      → Turns
          (IsFed rt now clock id type)
          (IsRecorded rt now clock id type)
          (insert_normalized_event rt id data_source_id type c)
  unfolding insert_normalized_event draw_id ◌>>=◌
  insert-Turns data_source_id c = record {
    done = λ db h a e.
        let drawn = record db { ids_drawn = db.ids_drawn + 1 } in
        write_event-IsRecorded (new_id rt db.ids_drawn "ne") data_source_id c
          (find (is_event id type) db.normalized_events) drawn refl
          (IsFed-ignores.ids db (db.ids_drawn + 1) h);
  }

  finish_raw_event-Keeps :
      (e : ExtractedEvent) (product : Option String)
      → Keeps (IsRecorded rt now clock id type) (finish_raw_event id e product)
  unfolding finish_raw_event
  finish_raw_event-Keeps e product = record {
    after = λ db h. record {
      fed = record {
        raw = finished_raw e product h.fed.raw;
        source = h.fed.source;
        stored =
            find-update_where (has_raw_id id) (finished_raw e product) db.raw_events (λ x k. k)
            ∙ ap (Option.map (finished_raw e product)) h.fed.stored;
        joined = h.fed.joined;
        typed = h.fed.typed;
      };
      known = h.known;
    };
  }

  count_once-Keeps :
      (inserted : Bool) (c : ProjectionContext)
      → Keeps (IsRecorded rt now clock id type) (count_once rt now clock inserted type c)
  unfolding count_once
  count_once-Keeps inserted c =
      search (keeps_rules, update_daily_metric-Keeps rt IsRecorded-rollups)

  project_event-Turns :
      (data_source_id : String) (c : ProjectionContext) (found : Option String)
      → found ≡ some type
      → Turns
          (IsFed rt now clock id type)
          (IsRecorded rt now clock id type)
          (project_event rt now clock id data_source_id c found)
  unfolding project_event
  project_event-Turns data_source_id c found e =
      let kept = ignores_projections rt IsRecorded-ignores in
      rw e (
        Turns-bind _ _ (insert-Turns data_source_id c) λ a.
          Keeps-bind _ _ (project_transaction-Keeps rt kept a.0 type c) λ txn.
            Keeps-bind _ _ (project_subscription-Keeps rt kept txn type c)
              λ _. count_once-Keeps a.1 c)

  process_row-Turns :
      (raw : RawEvent Value) (app_hint : Option String)
      → (extracted_from rt now clock raw).normalized_event_type ≡ some type
      → Turns
          (IsFed rt now clock id type)
          (IsRecorded rt now clock id type)
          (process_row rt now clock id raw app_hint)
  unfolding process_row
  process_row-Turns raw app_hint e =
      let kept = ignores_projections rt IsFed-ignores in
      Turns-after _ _ (Keeps-lift _) λ app_id.
        Turns-after _ _ (upsert_source_product-Keeps rt kept now _ _ _ _ _ _) λ product.
          Turns-after _ _ (active_logical_product-Keeps _ app_id product) λ logical.
            Turns-bind _ _ (project_event-Turns _ _ _ e) λ _. finish_raw_event-Keeps _ product

  -- The row that the first query of a run finds, and what it says of the tables.
  fetch-IsFed :
      (db : Db Value) (raw : RawEvent Value) (app_hint : Option String)
      → fetch_raw_event id db ≡ some (raw, app_hint)
      → (extracted_from rt now clock raw).normalized_event_type ≡ some type
      → IsFed rt now clock id type db
  unfolding fetch_raw_event
  fetch-IsFed db raw app_hint found typed =
      elim (Option-cases (find (has_raw_id id) db.raw_events)) [
        | inl missing ↦ cc (rw missing at found)
        | inr (row, stored) ↦
            elim (Option-cases (find (has_source_id row.data_source_id) db.data_sources)) [
              | inl missing ↦ cc (rw missing at (rw stored at found))
              | inr (source, joined) ↦
                  let same : row ≡ raw = cc (rw joined at (rw stored at found)) in
                  record {
                    raw = row;
                    source = source;
                    stored = stored;
                    joined = joined;
                    typed = rw same typed;
                  }
            ]
      ]

  IsFed-fetch :
      (db : Db Value) (h : IsFed rt now clock id type db)
      → fetch_raw_event id db ≡ some (h.raw, h.source.app_id)
  unfolding fetch_raw_event
  IsFed-fetch db h = rw (h.stored) (rw (h.joined))

module _ (rt : Runtime) (now later : Instant) (clock clock' : ℕ → Instant) where
  open rt use {Value}

  again :
      (db db' : Db Value) (id : String) (found : Option (RawEvent Value × Option String))
      → fetch_raw_event id db ≡ found
      → (process_raw_event rt now clock id db).0 ≡ ok tt
      → db' ≡ (process_raw_event rt now clock id db).1
      → (process_raw_event rt later clock' id db').1.daily_metrics ≡ db'.daily_metrics
  unfolding process_raw_event ◌>>=◌
  again db db' id none e done same = cc (rw e at done)
  again db db' id (some (raw, app_hint)) e done same =
      let (type, typed, _) =
        extract_event-IsTyped rt clock raw.source_type raw.source_event_id
          (unwrap_or raw.processing_payload raw.payload) in
      let recorded =
        (process_row-Turns rt now clock id type raw app_hint typed).done db
          (fetch-IsFed rt now clock id type db raw app_hint e typed) tt (rw e at done) in
      let recorded' : IsRecorded rt now clock id type db' = rw same (rw e recorded) in
      let row = recorded'.fed.raw in
      replay-daily_metrics rt later clock' db' id type row recorded'.fed.source.app_id
        (IsFed-fetch rt now clock id type db' recorded'.fed)
        (normalized_event_type-clock rt clock' clock row.source_type row.source_event_id
            (unwrap_or row.processing_payload row.payload)
          ∙ recorded'.fed.typed)
        recorded'.known

  -- After a run of `process_raw_event` that succeeds, a second run for the same raw event, at any
  -- time, leaves every daily rollup as the first run left it, also if the second run fails.
  pub process_raw_event-process_raw_event :
      (db : Db Value) (raw_event_id : String)
      → (process_raw_event rt now clock raw_event_id db).0 ≡ ok tt
      → let after = (process_raw_event rt now clock raw_event_id db).1 in
        (process_raw_event rt later clock' raw_event_id after).1.daily_metrics ≡ after.daily_metrics
  process_raw_event-process_raw_event db raw_event_id done =
      again db _ raw_event_id (fetch_raw_event raw_event_id db) refl done refl
