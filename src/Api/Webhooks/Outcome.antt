-- ===== src/Api/Webhooks/Outcome.antt =====
-- What an answer of `process_webhook` means.
use revtern.Prelude.{
  String, Bool, Option, some, ◌≡◌, ap, inl, inr, if◌then◌else◌, str_eq, find, Bool-cases,
}
use revtern.Runtime.{Runtime}
use revtern.Jobs.Tables.{DataSource}
use revtern.Api.Try.{pass, pass_inj}
use revtern.Api.Http.{Headers, Outside}
use revtern.Api.Handler.{after_step, after_lift, after_ok_or, after_gets}
use revtern.Api.Verification.Secret.{ComparesBytes}
use revtern.Api.Verification.Keys.{GoogleJwksCache, Call}
use revtern.Api.Webhooks.{Course, normalize_source_type, optional_source_credentials}
use revtern.Api.Webhooks.Receive.{Inbox, WebhookAnswer, is_source, authenticate, process_webhook}
use revtern.Api.Webhooks.Authentic.{
  IsFromApple, IsFromGoogle, IsForPackage, IsFromOther, authenticate_app_store_lem,
  authenticate_google_play_lem, authenticate_other_lem,
}

module _ (rt : Runtime) (out : Outside rt.Value) where
  open rt use {Value}

  -- By the type of the source.
  pub IsAuthentic :
      String
      → Option String
      → Headers
      → Value
      → Option Value
      → Call out
      → GoogleJwksCache out
      → Bool
      → Type 0
  IsAuthentic source_type secret_hash headers payload credentials call keys verified =
      if str_eq source_type "app_store"
      then IsFromApple rt out payload credentials
      else if str_eq source_type "google_play"
      then IsFromGoogle rt out secret_hash headers payload credentials call keys
        × IsForPackage rt out payload credentials
      else IsFromOther rt out secret_hash headers payload verified

  authenticate-IsAuthentic :
      (source_type : String) (secret_hash : Option String) (headers : Headers) (payload : Value)
      (credentials : Option Value) (call : Call out) (s s' : Inbox rt out) (verified : Bool)
      → ComparesBytes rt out
      → authenticate rt out source_type secret_hash headers payload credentials call s
        ≡ (pass verified, s')
      → IsAuthentic source_type secret_hash headers payload credentials call s.keys verified
  unfolding authenticate IsAuthentic
  authenticate-IsAuthentic source_type secret_hash headers payload credentials call s s' verified
        compares h =
      elim (Bool-cases (str_eq source_type "app_store")) [
        | inl apple ↦
            rw apple (
              authenticate_app_store_lem rt out payload credentials (ap (λ p. p.0) (rw apple at h)))
        | inr other ↦ elim (Bool-cases (str_eq source_type "google_play")) [
          | inl google ↦ rw other (
              rw google (
                authenticate_google_play_lem rt out secret_hash headers payload credentials call s
                  s' compares (rw google at rw other at h)))
          | inr neither ↦ rw other (
              rw neither (
                authenticate_other_lem rt out secret_hash headers payload compares
                  (ap (λ p. p.0) (rw neither at rw other at h))))
        ]
      ]

  -- The source, its type and its credentials as the database holds them, and the authenticity of
  -- the request for them.
  pub record IsAccepted (secret_key source_type_path source_id : String) (headers : Headers)
      (payload : Value) (call : Call out) (s : Inbox rt out) (answer : WebhookAnswer) : Type 0 where
    pub source_type : String
    pub is_type : normalize_source_type source_type_path ≡ pass source_type
    pub source : DataSource
    pub is_found : find (is_source source_id source_type) s.db.data_sources ≡ some source
    pub credentials : Option Value
    pub are_credentials :
        optional_source_credentials rt out secret_key source.encrypted_credentials
        ≡ pass credentials
    pub is_authentic :
        IsAuthentic source_type source.webhook_secret_hash headers payload credentials call s.keys
          answer.signature_verified

  -- A webhook that is answered without an error is for a source that the database holds, and
  -- authentic: a webhook of the App Store is signed by Apple, one of Google Play presents the shared
  -- secret or a valid token and names the configured package, and any other presents the shared secret
  -- if one is configured, and is marked as verified exactly then.
  pub process_webhook-IsAccepted :
      (secret_key : String) (course : Course) (source_type_path source_id : String)
      (headers : Headers) (payload : Value) (call : Call out) (s s' : Inbox rt out)
      (answer : WebhookAnswer)
      → ComparesBytes rt out
      → process_webhook rt out secret_key course source_type_path source_id headers payload call s
        ≡ (pass answer, s')
      → IsAccepted secret_key source_type_path source_id headers payload call s answer
  unfolding process_webhook
  process_webhook-IsAccepted secret_key course path source_id headers payload call s s' answer
        compares h =
      after_lift _ _ s h λ source_type typed h1.
        after_ok_or _ _ _ s (after_gets _ _ s h1) λ source found h2.
          after_lift _ _ s h2 λ app_id assigned h3. after_lift _ _ s h3 λ credentials decrypted h4.
            after_step _ _ s h4 λ verified t authenticated h5.
              after_step _ _ t h5 λ stored t1 saved h6. record {
                source_type = source_type;
                is_type = typed;
                source = source;
                is_found = found;
                credentials = credentials;
                are_credentials = decrypted;
                is_authentic = rw (← ap (λ a. a.signature_verified) (pass_inj (ap (λ p. p.0) h6))) (
                    authenticate-IsAuthentic source_type source.webhook_secret_hash headers payload
                      credentials call s t verified compares authenticated);
              }
