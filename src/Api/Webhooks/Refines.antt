-- ===== src/Api/Webhooks/Refines.antt =====
-- The deliveries of a database as an abstract inbox: a set of keys to which a delivery adds its own
-- if it is new.
use mathlib.Core.List
use mathlib.Core.Option
use revtern.Prelude.{
  String, Bool, true, false, ◌&&◌, Option, none, some, List, [], ◌∷◌, ◌++◌, ◌≡◌, refl, ap, sym, ◌∙◌,
  inl, inr, any, find, str_eq, Bool-cases, if◌then◌else◌, is_some,
}
use revtern.Prelude.Rows.{map-append}
use revtern.Runtime.{Runtime}
use revtern.Jobs.Tables.{Db, RawEvent}
use revtern.Api.Try.{pass, pass_inj}
use revtern.Api.Http.{Outside}
use revtern.Api.Webhooks.{Course, insert_raw_event, WebhookStoreContext, StoredWebhookPayload}
use revtern.Api.Webhooks.Deliveries.{Delivery, delivery_of, same_delivery, deliveries}
use revtern.Api.Webhooks.Cases.{
  event_id_of, found_in, found_entry, new_entry, called, Answers, delivery_cases,
}

-- The source and the id of the event there.
abbrev pub Key : Type 0
Key = String × String

abbrev pub same_key : Key → Key → Bool
same_key (source_id, event_id) (other_source, other_event) =
    str_eq other_source source_id && str_eq other_event event_id

-- The abstract operation: whether the key was added, and the keys after it.
abbrev pub deliver : Key → List Key → Bool × List Key
deliver key keys = if any (same_key key) keys then (false, keys) else (true, keys ++ key ∷ [])

abbrev pub key_of : Delivery → Key
key_of (id, source_id, event_id) = (source_id, event_id)

abbrev pub inbox_of : {V : Type 0} → Db V → List Key
inbox_of db = List.map key_of (deliveries db)

is_some-map :
    {V : Type 0} (found : Option (RawEvent V))
    → is_some (Option.map delivery_of found) ≡ is_some found
is_some-map none = refl
is_some-map (some row) = refl

any_key :
    (source_id event_id : String) (entries : List Delivery)
    → any (same_key (source_id, event_id)) (List.map key_of entries)
      ≡ is_some (find (same_delivery source_id event_id) entries)
unfolding any find
any_key source_id event_id [] = refl
any_key source_id event_id (x ∷ entries) = elim (Bool-cases (same_delivery source_id event_id x)) [
  | inl here ↦ rw here
  | inr there ↦ rw there (any_key source_id event_id entries)
]

abbrev pub delivery_key :
    (rt : Runtime) (out : Outside rt.Value) → Course → WebhookStoreContext rt.Value → rt.Value → Key
delivery_key rt out course ctx payload = (ctx.source_id, event_id_of rt out course ctx payload)

module _ (rt : Runtime) (out : Outside rt.Value) (course : Course)
    (ctx : WebhookStoreContext rt.Value) (payload : rt.Value) (db : Db rt.Value) where
  abbrev key : Key
  key = delivery_key rt out course ctx payload

  -- The abstract operation is what became of the keys, if the insert was not refused, and if it was,
  -- they are as before; an answer says what the abstract operation does.
  pub record Delivers : Type 0 where
    pub is_delivered :
        course.refusal insert_raw_event ≡ none
        → inbox_of (called rt out course ctx payload db).1 ≡ (deliver key (inbox_of db)).1
    pub is_refused :
        (text : String)
        → course.refusal insert_raw_event ≡ some text
        → inbox_of (called rt out course ctx payload db).1 ≡ inbox_of db
    pub is_told :
        (stored : StoredWebhookPayload)
        → (called rt out course ctx payload db).0 ≡ pass stored
        → stored.inserted ≡ (deliver key (inbox_of db)).0

  known_key : any (same_key key) (inbox_of db) ≡ is_some (found_in rt out course ctx payload db)
  known_key =
      any_key key.0 key.1 (deliveries db)
      ∙ rw (← found_entry rt out course ctx payload db)
          (is_some-map (found_in rt out course ctx payload db))

  told :
      (id : String) (inserted : Bool)
      → Answers rt out course ctx payload db id inserted
      → (stored : StoredWebhookPayload) → (called rt out course ctx payload db).0 ≡ pass stored
      → stored.inserted ≡ inserted
  told id inserted (inl (own, same, names)) stored h =
      ap (λ s. s.inserted) (pass_inj (sym h ∙ same)) ∙ names.is_new
  told id inserted (inr (e, same, refusal)) stored h = cc (same, h)

  -- Storing a payload does to the keys what the abstract operation does, whatever becomes of its job
  -- and of the statements after the insert; if the insert is refused, they stay as they are. An
  -- answer says whether the key was added.
  pub store_webhook_payload-deliver : Delivers
  store_webhook_payload-deliver = elim (delivery_cases rt out course ctx payload db) [
    | inl at_once ↦ record {
      is_delivered = λ accepted. cc (accepted, at_once.is_refused);
      is_refused = λ text refusal. ap (λ r. inbox_of r.1) at_once.is_answer;
      is_told = λ stored same. cc (same, ap (λ r. r.0) at_once.is_answer);
    }
    | inr (inl known) ↦
        let old : any (same_key key) (inbox_of db) ≡ true = known_key ∙ rw known.was_found in
        record {
          is_delivered = λ accepted. rw old (ap (List.map key_of) known.are_kept);
          is_refused = λ text refusal. ap (List.map key_of) known.are_kept;
          is_told = λ stored same. rw old (told known.row.id false known.answers stored same);
        }
    | inr (inr added) ↦
        let fresh : any (same_key key) (inbox_of db) ≡ false = known_key ∙ rw added.was_absent in
        record {
          is_delivered = λ accepted. rw fresh (
              ap (List.map key_of) added.are_added
              ∙ map-append key_of (deliveries db) (new_entry rt out course ctx payload db));
          is_refused = λ text refusal. cc (added.is_accepted, refusal);
          is_told = λ stored same. rw fresh (told _ true added.answers stored same);
        }
  ]
