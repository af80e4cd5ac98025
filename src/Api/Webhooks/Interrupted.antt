-- ===== src/Api/Webhooks/Interrupted.antt =====
-- What `process_webhook` leaves of the database when it answers with an error.
use revtern.Prelude.{String, some, ◌≡◌, ◌⊎◌, find}
use revtern.Runtime.{Runtime}
use revtern.Jobs.Tables.{Db, DataSource}
use revtern.Api.Try.{pass}
use revtern.Api.Http.{Outside}
use revtern.Api.Handler.{ApiError}
use revtern.Api.Preserves.{Preserves}
use revtern.Api.Webhooks.{
  Course, WebhookStoreContext, normalize_source_type, optional_source_credentials,
}
use revtern.Api.Webhooks.Answers.{IsRefusal}
use revtern.Api.Webhooks.Cases.{drawn}
use revtern.Api.Webhooks.Redelivery.{HoldsAs}
use revtern.Api.Webhooks.Receive.{Inbox, is_source}

module _ (rt : Runtime) (out : Outside rt.Value) where
  open rt use {Value}

  -- The database as given.
  abbrev SameDb : Db Value → Inbox rt out → Type 0
  SameDb db s = s.db ≡ db

  -- The context in which the payload of a request is stored: that of its source.
  pub record IsContextOf (secret_key source_type_path source_id : String) (db : Db Value)
      (ctx : WebhookStoreContext Value) : Type 0 where
    pub is_type : normalize_source_type source_type_path ≡ pass ctx.source_type
    pub is_source_id : ctx.source_id ≡ source_id
    pub source : DataSource
    pub is_found : find (is_source source_id ctx.source_type) db.data_sources ≡ some source
    pub are_credentials :
        optional_source_credentials rt out secret_key source.encrypted_credentials
        ≡ pass ctx.credentials

  -- The error of a statement that was refused while the payload was stored; the database then holds
  -- the delivery, or nothing was written.
  pub record IsInterrupted (secret_key source_type_path : String) (course : Course)
      (source_id : String) (payload : Value) (db : Db Value) (e : ApiError) (db' : Db Value)
      : Type 0 where
    pub ctx : WebhookStoreContext Value
    pub is_context : IsContextOf secret_key source_type_path source_id db ctx
    pub is_refusal : IsRefusal course e
    pub is_left :
        (db' ≡ drawn rt out course db) ⊎ ((id : String) × HoldsAs rt out course ctx payload id db')

  module _ (secret_key : String) (course : Course) (source_type_path source_id : String)
      (payload : Value) where
    abbrev Ends : Db Value → ApiError → Inbox rt out → Type 0
    Ends db e s =
        (s.db ≡ db) ⊎ IsInterrupted secret_key source_type_path course source_id payload db e s.db
