-- ===== src/Api/Webhooks/Cases.antt =====
-- The cases of `store_webhook_payload`: the insert is refused, the delivery is known, or it is added.
use mathlib.Core.Option
use mathlib.Core.Option.{some_inj}
use revtern.Prelude.{
  ◌+◌, String, Bool, true, false, Option, none, some, [], ◌∷◌, ◌++◌, ◌≡◌, ◌⊎◌, refl, inl, inr, find,
  update_where, Option-cases,
}
use revtern.Prelude.Rows.{map-find, map-append}
use revtern.Runtime.{Runtime}
use revtern.Core.{new_id}
use revtern.Jobs.Tables.{Db, RawEvent}
use revtern.Jobs.Exec.{draw_id}
use revtern.Jobs.Process.{has_source_id}
use revtern.Api.Try.{Try, pass, fail}
use revtern.Api.Http.{Outside}
use revtern.Api.Handler.{ApiError, sqlx, ◌>>=◌, pure}
use revtern.Api.Preserves.{Preserves-pure, Preserves-bind, Yields-pass, Yields-bind, Yields-either}
use revtern.Api.Webhooks.{
  Course, insert_raw_event, look_up_raw_event, execute, WebhookStoreContext, StoredWebhookPayload,
  is_delivery, insert_raw, active_source, add_raw, delivered_event, stored_raw, after_insert,
  store_webhook_payload,
}
use revtern.Api.Webhooks.Deliveries.{
  Delivery, Delivered, delivery_of, same_delivery, deliveries, unless_refused-Preserves,
  after_insert-Preserves,
}
use revtern.Api.Webhooks.Answers.{IsRefusal, Names, execute-Yields, after_insert_answers}

module _ (rt : Runtime) (out : Outside rt.Value) (course : Course) where
  open rt use {Value}

  abbrev pub drawn : Db Value → Db Value
  drawn db = record db { ids_drawn = db.ids_drawn + 1 }

  -- The database after the payload was looked up, with the source marked as active.
  abbrev pub touched : WebhookStoreContext Value → Db Value → Db Value
  touched ctx db = record (drawn db) {
    data_sources =
        update_where (has_source_id ctx.source_id) (active_source course.now) db.data_sources;
  }

  abbrev pub event_id_of : WebhookStoreContext Value → Value → String
  event_id_of ctx payload = (delivered_event rt out course ctx payload).source_event_id

  abbrev pub found_in : WebhookStoreContext Value → Value → Db Value → Option (RawEvent Value)
  found_in ctx payload db = find (is_delivery ctx.source_id (event_id_of ctx payload)) db.raw_events

  abbrev pub new_row : WebhookStoreContext Value → Value → Db Value → RawEvent Value
  new_row ctx payload db =
      stored_raw rt out (new_id rt db.ids_drawn "raw") course ctx payload
        (delivered_event rt out course ctx payload)

  abbrev pub new_entry : WebhookStoreContext Value → Value → Db Value → Delivery
  new_entry ctx payload db = (new_id rt db.ids_drawn "raw", ctx.source_id, event_id_of ctx payload)

  refused_insert :
      (ctx : WebhookStoreContext Value) (payload : Value) (db : Db Value) (text : String)
      → course.refusal insert_raw_event ≡ some text
      → store_webhook_payload rt out course ctx payload db ≡ (fail (sqlx text), drawn db)
  unfolding store_webhook_payload ◌>>=◌ draw_id insert_raw
  refused_insert ctx payload db text h = rw h

  pub known_delivery :
      (ctx : WebhookStoreContext Value) (payload : Value) (db : Db Value) (row : RawEvent Value)
      → course.refusal insert_raw_event ≡ none
      → found_in ctx payload db ≡ some row
      → store_webhook_payload rt out course ctx payload db
        ≡ (execute course look_up_raw_event (pure (row.id, false)) >>= λ stored.
              after_insert rt out course ctx.source_id stored)
            (drawn db)
  unfolding store_webhook_payload ◌>>=◌ draw_id insert_raw
  known_delivery ctx payload db row accepted h = rw accepted (rw h)

  new_delivery :
      (ctx : WebhookStoreContext Value) (payload : Value) (db : Db Value)
      → course.refusal insert_raw_event ≡ none
      → found_in ctx payload db ≡ none
      → store_webhook_payload rt out course ctx payload db
        ≡ after_insert rt out course ctx.source_id
            (new_id rt db.ids_drawn "raw", true)
            (add_raw (new_row ctx payload db) (drawn db))
  unfolding store_webhook_payload ◌>>=◌ draw_id insert_raw stored_raw
  new_delivery ctx payload db accepted h = rw accepted (rw h)

  pub found_entry :
      (ctx : WebhookStoreContext Value) (payload : Value) (db : Db Value)
      → Option.map delivery_of (found_in ctx payload db)
        ≡ find (same_delivery ctx.source_id (event_id_of ctx payload)) (deliveries db)
  unfolding is_delivery
  found_entry ctx payload db = map-find delivery_of _ _ db.raw_events (λ x. refl)

  -- What the call did to the deliveries, and how it answered.
  module _ (ctx : WebhookStoreContext Value) (payload : Value) (db : Db Value) where
    abbrev pub called : Try ApiError StoredWebhookPayload × Db Value
    called = store_webhook_payload rt out course ctx payload db

    abbrev pub Answers : String → Bool → Type 0
    Answers id inserted =
        ((stored : StoredWebhookPayload) × (called.0 ≡ pass stored) × Names id inserted stored)
        ⊎ ((e : ApiError) × (called.0 ≡ fail e) × IsRefusal course e)

    pub record IsRefusedAtOnce : Type 0 where
      pub text : String
      pub is_refused : course.refusal insert_raw_event ≡ some text
      pub is_answer : called ≡ (fail (sqlx text), drawn db)

    pub record IsKnown : Type 0 where
      pub row : RawEvent Value
      pub is_accepted : course.refusal insert_raw_event ≡ none
      pub was_found : found_in ctx payload db ≡ some row
      pub answers : Answers row.id false
      pub are_kept : deliveries called.1 ≡ deliveries db

    pub record IsAdded : Type 0 where
      pub is_accepted : course.refusal insert_raw_event ≡ none
      pub was_absent : found_in ctx payload db ≡ none
      pub answers : Answers (new_id rt db.ids_drawn "raw") true
      pub are_added : deliveries called.1 ≡ deliveries db ++ new_entry ctx payload db ∷ []

    is_known :
        (row : RawEvent Value)
        → course.refusal insert_raw_event ≡ none
        → found_in ctx payload db ≡ some row
        → IsKnown
    is_known row accepted found =
        let m = execute course look_up_raw_event (pure {S = Db Value} (row.id, false)) in
        let f = after_insert rt out course ctx.source_id in
        let same = known_delivery ctx payload db row accepted found in
        record {
          row = row;
          is_accepted = accepted;
          was_found = found;
          answers = rw same (
              Yields-either _ (drawn db) (
                Yields-bind {Q = λ stored. stored ≡ (row.id, false)} m f
                  (execute-Yields course look_up_raw_event _
                    (Yields-pass _ (λ s. (row.id, false)) (λ s. refl) (λ s. refl)))
                  λ stored known.
                    rw known (after_insert_answers rt out course ctx.source_id row.id false)));
          are_kept = rw same (
              (Preserves-bind {P = Delivered (deliveries db)} m f
                  (unless_refused-Preserves rt (deliveries db) look_up_raw_event
                    (course.refusal look_up_raw_event) _ (Preserves-pure (row.id, false)))
                  λ stored.
                    after_insert-Preserves rt (deliveries db) out course ctx.source_id stored).held
                (drawn db) refl);
        }

    is_added : course.refusal insert_raw_event ≡ none → found_in ctx payload db ≡ none → IsAdded
    unfolding stored_raw
    is_added accepted absent =
        let same = new_delivery ctx payload db accepted absent in
        let id = new_id rt db.ids_drawn "raw" in
        let db' = add_raw (new_row ctx payload db) (drawn db) in
        record {
          is_accepted = accepted;
          was_absent = absent;
          answers =
              rw same
                (Yields-either _ db' (after_insert_answers rt out course ctx.source_id id true));
          are_added = rw same (
              (after_insert-Preserves rt (deliveries db ++ new_entry ctx payload db ∷ []) out course
                  ctx.source_id (id, true)).held
                db' (map-append delivery_of db.raw_events (new_row ctx payload db)));
        }

    pub delivery_cases : IsRefusedAtOnce ⊎ IsKnown ⊎ IsAdded
    delivery_cases = elim (Option-cases (course.refusal insert_raw_event)) [
      | inr (text, refusal) ↦ inl (record {
        text = text;
        is_refused = refusal;
        is_answer = refused_insert ctx payload db text refusal;
      })
      | inl accepted ↦ elim (Option-cases (found_in ctx payload db)) [
        | inl absent ↦ inr (inr (is_added accepted absent))
        | inr (row, found) ↦ inr (inl (is_known row accepted found))
      ]
    ]
