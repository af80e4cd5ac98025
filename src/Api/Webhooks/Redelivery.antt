-- ===== src/Api/Webhooks/Redelivery.antt =====
-- A delivery that was stored before: it is answered with the row that is there.
use mathlib.Core.Option
use mathlib.Core.Option.{some_inj}
use revtern.Prelude.{
  String, Bool, true, false, Option, none, some, ◌≡◌, ◌⊎◌, refl, ap, sym, ◌∙◌, inl, inr, find,
  eq_refl,
}
use revtern.Prelude.Rows.{find-append_new}
use revtern.Runtime.{Runtime}
use revtern.Core.{new_id}
use revtern.Jobs.Tables.{Db, RawEvent}
use revtern.Api.Try.{pass, fail, pass_inj}
use revtern.Api.Http.{Outside}
use revtern.Api.Handler.{ApiError, ◌>>=◌}
use revtern.Api.Webhooks.{
  Course, insert_raw_event, look_up_raw_event, activate_source, WebhookStoreContext,
  StoredWebhookPayload, update_source, finish_delivery, store_webhook_payload,
}
use revtern.Api.Webhooks.Deliveries.{delivery_of, same_delivery, deliveries}
use revtern.Api.Webhooks.Answers.{IsRefusal}
use revtern.Api.Webhooks.Cases.{
  drawn, touched, event_id_of, found_in, found_entry, new_entry, known_delivery, called, Answers,
  IsKnown, IsAdded, delivery_cases,
}

module _ (rt : Runtime) (out : Outside rt.Value) (course : Course) where
  open rt use {Value}

  -- The id of the raw event that the database holds for a delivery.
  pub HoldsAs : WebhookStoreContext Value → Value → String → Db Value → Type 0
  HoldsAs ctx payload id db =
      Option.map (λ entry. entry.0)
        (find (same_delivery ctx.source_id (event_id_of rt out course ctx payload)) (deliveries db))
      ≡ some id

  module _ (ctx : WebhookStoreContext Value) (payload : Value) (db : Db Value) where
    -- Answered with the raw event that the database holds for the delivery.
    pub record IsStored : Type 0 where
      pub stored : StoredWebhookPayload
      pub is_answered : (called rt out course ctx payload db).0 ≡ pass stored
      pub is_found : HoldsAs ctx payload stored.raw_event_id (called rt out course ctx payload db).1

    -- Answered with the error of a refused statement; if that was not the insert, then the database
    -- holds the delivery nevertheless, and if it was, nothing was written.
    pub record IsGivenUp : Type 0 where
      pub error : ApiError
      pub is_answered : (called rt out course ctx payload db).0 ≡ fail error
      pub is_refusal : IsRefusal course error
      pub is_left :
          ((called rt out course ctx payload db).1 ≡ drawn rt out course db)
          ⊎ ((id : String) × HoldsAs ctx payload id (called rt out course ctx payload db).1)

    known-HoldsAs :
        (known : IsKnown rt out course ctx payload db)
        → HoldsAs ctx payload known.row.id (called rt out course ctx payload db).1
    unfolding HoldsAs
    known-HoldsAs known =
        rw known.are_kept (rw (← found_entry rt out course ctx payload db) (rw known.was_found))

    added-HoldsAs :
        IsAdded rt out course ctx payload db
        → HoldsAs ctx payload (new_id rt db.ids_drawn "raw") (called rt out course ctx payload db).1
    unfolding HoldsAs
    added-HoldsAs added = rw added.are_added (
        rw (
          find-append_new (same_delivery ctx.source_id (event_id_of rt out course ctx payload))
            (deliveries db) (new_entry rt out course ctx payload db)
            (sym (found_entry rt out course ctx payload db)
              ∙ ap (Option.map delivery_of) added.was_absent)
            (rw (eq_refl ctx.source_id) (rw (eq_refl (event_id_of rt out course ctx payload))))))

    answered_either :
        (id : String) (inserted : Bool)
        → Answers rt out course ctx payload db id inserted
        → HoldsAs ctx payload id (called rt out course ctx payload db).1
        → IsStored ⊎ IsGivenUp
    answered_either id inserted (inl (stored, same, names)) held =
        inl (record { stored = stored; is_answered = same; is_found = rw names.named held })
    answered_either id inserted (inr (e, same, refusal)) held =
        inr
          (record { error = e; is_answered = same; is_refusal = refusal; is_left = inr (id, held) })

    -- Every payload is answered: with the raw event that the database then holds for the source and
    -- the event's id there, whatever becomes of its job; or with the error of a statement that the
    -- database refused, and then the database holds the delivery as well, unless nothing was written.
    pub store_webhook_payload-IsAnswered : IsStored ⊎ IsGivenUp
    store_webhook_payload-IsAnswered = elim (delivery_cases rt out course ctx payload db) [
      | inl at_once ↦ inr (record {
        error = _;
        is_answered = ap (λ r. r.0) at_once.is_answer;
        is_refusal = record {
          statement = insert_raw_event;
          text = at_once.text;
          is_refused = at_once.is_refused;
          is_error = refl;
        };
        is_left = inl (ap (λ r. r.1) at_once.is_answer);
      })
      | inr (inl known) ↦ answered_either known.row.id false known.answers (known-HoldsAs known)
      | inr (inr added) ↦ answered_either _ true added.answers (added-HoldsAs added)
    ]

    -- After an insert that was not refused the delivery is held, and an answer names its row.
    pub held_after :
        course.refusal insert_raw_event ≡ none
        → (id : String) × HoldsAs ctx payload id (called rt out course ctx payload db).1
          × ((stored : StoredWebhookPayload)
              → (called rt out course ctx payload db).0 ≡ pass stored
              → stored.raw_event_id ≡ id)
    held_after accepted = elim (delivery_cases rt out course ctx payload db) [
      | inl at_once ↦ cc (accepted, at_once.is_refused)
      | inr (inl known) ↦ (
        known.row.id,
        known-HoldsAs known,
        λ stored same. names_id known.row.id false known.answers stored same,
      )
      | inr (inr added) ↦
          (_, added-HoldsAs added, λ stored same. names_id _ true added.answers stored same)
    ]
      where
        names_id :
            (id : String) (inserted : Bool)
            → Answers rt out course ctx payload db id inserted
            → (stored : StoredWebhookPayload)
            → (called rt out course ctx payload db).0 ≡ pass stored
            → stored.raw_event_id ≡ id
        names_id id inserted (inl (own, same, names)) stored h =
            ap (λ s. s.raw_event_id) (pass_inj (sym h ∙ same)) ∙ names.named
        names_id id inserted (inr (e, same, refusal)) stored h = cc (same, h)

  row_of_entry :
      (found : Option (RawEvent Value)) {id : String}
      → Option.map (λ entry. entry.0) (Option.map delivery_of found) ≡ some id
      → (row : RawEvent Value) × (found ≡ some row) × (row.id ≡ id)
  row_of_entry none h = cc h
  row_of_entry (some row) h = (row, refl, some_inj.0 h)

  -- The three statements of a redelivery are accepted.
  unfoldable pub AcceptsKnown : Type 0
  AcceptsKnown =
      (course.refusal insert_raw_event ≡ none)
      × (course.refusal look_up_raw_event ≡ none)
      × (course.refusal activate_source ≡ none)

  known_answer :
      (ctx : WebhookStoreContext Value) (payload : Value) (db : Db Value) (row : RawEvent Value)
      → AcceptsKnown
      → found_in rt out course ctx payload db ≡ some row
      → store_webhook_payload rt out course ctx payload db ≡ (
        pass (record { raw_event_id = row.id; inserted = false; processing_error = none }),
        touched rt out course ctx db,
      )
  unfolding ◌>>=◌ update_source finish_delivery AcceptsKnown
  known_answer ctx payload db row (inserts, looks_up, activates) h =
      rw (known_delivery rt out course ctx payload db row inserts h) (rw looks_up (rw activates))

-- After the insert of a payload was not refused, even if the call then failed, the raw events hold
-- the delivery: a payload with the same event id for the same source, at whatever time and in
-- whatever context, if the database accepts its three statements, is answered with that raw event
-- and as not inserted, and writes nothing but the source's row. If the first call was answered, it
-- named the same raw event.
pub store_webhook_payload-again :
    (rt : Runtime) (out : Outside rt.Value) (course later : Course)
    (ctx again : WebhookStoreContext rt.Value) (payload redelivered : rt.Value) (db : Db rt.Value)
    → course.refusal insert_raw_event ≡ none
    → AcceptsKnown rt out later
    → again.source_id ≡ ctx.source_id
    → event_id_of rt out later again redelivered ≡ event_id_of rt out course ctx payload
    → (id : String) × ((stored : StoredWebhookPayload)
        → (store_webhook_payload rt out course ctx payload db).0 ≡ pass stored
        → stored.raw_event_id ≡ id)
      × (store_webhook_payload rt out later again redelivered
            (store_webhook_payload rt out course ctx payload db).1
          ≡ (
            pass (record { raw_event_id = id; inserted = false; processing_error = none }),
            touched rt out later again (store_webhook_payload rt out course ctx payload db).1,
          ))
unfolding HoldsAs
store_webhook_payload-again rt out course later ctx again payload redelivered db inserted accepted
      source event =
    let (id, held, named) = held_after rt out course ctx payload db inserted in
    let db' = (store_webhook_payload rt out course ctx payload db).1 in
    let (row, present, same) =
      row_of_entry rt out later (found_in rt out later again redelivered db') {id = id} (
        ap (Option.map (λ entry. entry.0)) (found_entry rt out later again redelivered db')
        ∙ rw event (rw source held)) in
    (id, named, known_answer rt out later again redelivered db' row accepted present ∙ rw same)
