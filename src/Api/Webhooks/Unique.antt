-- ===== src/Api/Webhooks/Unique.antt =====
-- No two raw events of one source have the same event id: the unique key that the insert relies on.
use revtern.Prelude.{
  String, false, none, List, [], ◌∷◌, ◌++◌, ◌≡◌, inl, inr, All, find, str_eq, eq_iff, Bool-cases,
  arith,
}
use revtern.Prelude.Rows.{All-append}
use revtern.Runtime.{Runtime}
use revtern.Core.{new_id}
use revtern.Jobs.Tables.{Db}
use revtern.Api.Http.{Outside}
use revtern.Api.Webhooks.{Course, WebhookStoreContext, store_webhook_payload}
use revtern.Api.Webhooks.Deliveries.{
  Delivery, same_delivery, deliveries, AllDiffer, HasUniqueDeliveries,
}
use revtern.Api.Webhooks.Cases.{event_id_of, found_entry, delivery_cases}

-- None of the entries is of this source and event.
abbrev pub NoneIs : String → String → List Delivery → Type 0
NoneIs source_id event_id = All (λ other. same_delivery source_id event_id other ≡ false)

none_found :
    (source_id event_id : String) (entries : List Delivery)
    → find (same_delivery source_id event_id) entries ≡ none
    → NoneIs source_id event_id entries
unfolding find
none_found source_id event_id [] h = tt
none_found source_id event_id (x ∷ entries) h =
    elim (Bool-cases (same_delivery source_id event_id x)) [
      | inl here ↦ cc (rw here at h)
      | inr there ↦ (there, none_found source_id event_id entries (rw there at h))
    ]

str_eq_sym : (s t : String) → str_eq s t ≡ str_eq t s
str_eq_sym s t = elim (Bool-cases (str_eq s t)) [
  | inl same ↦ grind (arith, eq_iff, same)
  | inr apart ↦ grind (arith, eq_iff, apart)
]

AllDiffer-append :
    (entries : List Delivery) (id source_id event_id : String)
    → AllDiffer entries
    → NoneIs source_id event_id entries
    → AllDiffer (entries ++ (id, source_id, event_id) ∷ [])
AllDiffer-append [] id source_id event_id all apart = (tt, tt)
AllDiffer-append ((i, s, e) ∷ entries) id source_id event_id all apart = (
  All-append _ entries (id, source_id, event_id) all.0
      (rw (str_eq_sym source_id s, str_eq_sym event_id e) apart.0),
  AllDiffer-append entries id source_id event_id all.1 apart.1,
)

-- Storing a payload, known or not, keeps the deliveries unique, also if its job fails and if the
-- database refuses statements.
pub store_webhook_payload-HasUnique :
    (rt : Runtime) (out : Outside rt.Value) (course : Course) (ctx : WebhookStoreContext rt.Value)
    (payload : rt.Value) (db : Db rt.Value)
    → HasUniqueDeliveries db
    → HasUniqueDeliveries (store_webhook_payload rt out course ctx payload db).1
store_webhook_payload-HasUnique rt out course ctx payload db unique =
    elim (delivery_cases rt out course ctx payload db) [
      | inl at_once ↦ rw at_once.is_answer unique
      | inr (inl known) ↦ rw known.are_kept unique
      | inr (inr added) ↦
          let event_id = event_id_of rt out course ctx payload in
          rw added.are_added (
            AllDiffer-append (deliveries db) (new_id rt db.ids_drawn "raw") ctx.source_id event_id
              unique
              (none_found ctx.source_id event_id (deliveries db)
                (rw (← found_entry rt out course ctx payload db) (rw added.was_absent))))
    ]
