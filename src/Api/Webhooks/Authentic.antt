-- ===== src/Api/Webhooks/Authentic.antt =====
-- What a webhook that was accepted is known to be, for each type of source.
use revtern.Prelude.{
  String, Bool, true, false, ◌&&◌, not, Option, none, some, ◌≡◌, refl, ap, ◌∙◌, ◌⊎◌, inl, inr,
  and_then, or_else, Bool-cases,
}
use revtern.Runtime.{Runtime}
use revtern.Connectors.Decode.{as_str}
use revtern.Api.Try.{Try, pass, fail, after_context, after_pass, refuse_if_inv}
use revtern.Api.Http.{Headers, Outside}
use revtern.Api.Handler.{after_step}
use revtern.Api.Verification.{credential_string}
use revtern.Api.Verification.Secret.{
  verify_shared_secret, Presents, ComparesBytes, verify_shared_secret-Presents,
}
use revtern.Api.Verification.Apple.{verify_app_store_payload}
use revtern.Api.Verification.Apple.Genuine.{
  IsGenuine, same_text, verify_app_store_payload-IsGenuine,
}
use revtern.Api.Verification.Google.{
  verify_google_pubsub_oidc, developer_notification, verify_google_play_package,
}
use revtern.Api.Verification.Google.Pushed.{
  IsPushed, both_parts, verify_google_pubsub_oidc-IsPushed,
}
use revtern.Api.Verification.Keys.{GoogleJwksCache, Call}
use revtern.Api.Webhooks.Receive.{
  Inbox, app_store_answer, or_unauthorized, authenticate_app_store, oidc_unless,
  authenticate_google_play, authenticate_other,
}

and-right : (a : Bool) → not a && true ≡ false → a ≡ true
and-right true h = refl
and-right false h = cc h

or_unauthorized_lem :
    {A : Type 0} (message : String) (checked : Try String A) {a : A}
    → or_unauthorized message checked ≡ pass a
    → checked ≡ pass a
or_unauthorized_lem message (pass x) h = cc h
or_unauthorized_lem message (fail cause) h = cc h

app_store_answer_inv :
    {V : Type 0} (checked : Try String V) {v : Bool}
    → app_store_answer checked ≡ pass v
    → (decoded : V) × (checked ≡ pass decoded)
app_store_answer_inv (pass decoded) h = (decoded, refl)
app_store_answer_inv (fail cause) h = cc h

module _ (rt : Runtime) (out : Outside rt.Value) where
  open rt use {Value, get}

  -- Signed by Apple, for the application that the credentials name.
  pub IsFromApple : Value → Option Value → Type 0
  IsFromApple payload credentials =
      (configured : Value) × (credentials ≡ some configured)
      × ((decoded : Value) × IsGenuine rt out payload configured decoded)

  -- The package that the notification names is the configured one, if one is configured.
  pub IsForPackage : Value → Option Value → Type 0
  IsForPackage payload credentials =
      (package_name : String)
      → and_then credentials (λ value. credential_string rt value "package_name")
        ≡ some package_name
      → (notification : Value) × (developer_notification rt out payload ≡ pass notification)
        × (and_then (or_else (get notification "packageName") (get notification "package_name"))
              (as_str rt)
            ≡ some package_name)

  -- It presents the shared secret, or a token of Google's for the configured account.
  pub IsFromGoogle :
      Option String → Headers → Value → Option Value → Call out → GoogleJwksCache out → Type 0
  IsFromGoogle secret_hash headers payload credentials call keys =
      Presents rt out secret_hash headers payload
      ⊎ ((configured : Value) × (credentials ≡ some configured)
          × ((keys' : GoogleJwksCache out) × IsPushed rt out headers configured call keys keys'))

  verified_payload :
      (payload : Value) (credentials : Option Value) (decoded : Value)
      → verify_app_store_payload rt out payload credentials ≡ pass decoded
      → IsFromApple payload credentials
  unfolding IsFromApple verify_app_store_payload
  verified_payload payload none decoded h =
      after_pass (fail _) _ h λ configured given rest. cc given
  verified_payload payload (some configured) decoded h = (
    configured,
    refl,
    (decoded, verify_app_store_payload-IsGenuine rt out payload configured decoded h),
  )

  pub authenticate_app_store_lem :
      (payload : Value) (credentials : Option Value) {v : Bool}
      → authenticate_app_store rt out payload credentials ≡ pass v
      → IsFromApple payload credentials
  unfolding authenticate_app_store
  authenticate_app_store_lem payload credentials h =
      let (decoded, verified) = app_store_answer_inv _ h in
      verified_payload payload credentials decoded verified

  check_package_lem :
      (payload : Value) (credentials : Option Value) {u : Unit {0}}
      → verify_google_play_package rt out payload credentials ≡ pass u
      → IsForPackage payload credentials
  unfolding verify_google_play_package IsForPackage
  check_package_lem payload credentials h package_name configured =
      after_pass _ _ (rw configured at h) λ notification read h1.
        after_context _ _ _ h1 λ actual named h2.
          (notification, read, cc (named, same_text actual package_name (refuse_if_inv _ _ h2)))

  oidc_unless_lem :
      (shared : Bool) (headers : Headers) (payload : Value) (credentials : Option Value)
      (secret_hash : Option String) (call : Call out) (s t : Inbox rt out) (oidc : Bool)
      → ComparesBytes rt out
      → verify_shared_secret rt out secret_hash headers payload ≡ shared
      → oidc_unless rt out shared headers credentials call s ≡ (pass oidc, t)
      → not oidc && not shared ≡ false
      → IsFromGoogle secret_hash headers payload credentials call s.keys
  unfolding oidc_unless IsFromGoogle verify_google_pubsub_oidc
  oidc_unless_lem true headers payload credentials secret_hash call s t oidc compares shared h e =
      inl ((verify_shared_secret-Presents rt out compares secret_hash headers payload).0 shared)
  oidc_unless_lem false headers payload (some configured) secret_hash call s t oidc compares shared
        h e =
      let result = verify_google_pubsub_oidc rt out headers (some configured) call s.keys in
      let verified : result.0 ≡ pass true =
        or_unauthorized_lem _ result.0 (ap (λ p. p.0) h) ∙ ap pass (and-right _ e) in
      inr (
        configured,
        refl,
        (
          result.1,
          verify_google_pubsub_oidc-IsPushed rt out headers configured call s.keys result.1
              (both_parts result verified refl),
        ),
      )
  oidc_unless_lem false headers payload none secret_hash call s t oidc compares shared h e =
      cc (and-right oidc e, ap (λ p. p.0) h)

  pub authenticate_google_play_lem :
      (secret_hash : Option String) (headers : Headers) (payload : Value)
      (credentials : Option Value) (call : Call out) (s s' : Inbox rt out) {v : Bool}
      → ComparesBytes rt out
      → authenticate_google_play rt out secret_hash headers payload credentials call s
        ≡ (pass v, s')
      → IsFromGoogle secret_hash headers payload credentials call s.keys
        × IsForPackage payload credentials
  unfolding authenticate_google_play
  authenticate_google_play_lem secret_hash headers payload credentials call s s' compares h =
      after_step _ _ s h λ oidc t verified h1. after_step _ _ t h1 λ u t1 guarded h2.
        after_step _ _ t1 h2 λ w t2 packaged h3. (
          oidc_unless_lem (verify_shared_secret rt out secret_hash headers payload) headers payload
              credentials secret_hash call s t oidc compares refl verified
              (refuse_if_inv _ _ (ap (λ p. p.0) guarded)),
          check_package_lem payload credentials (or_unauthorized_lem _ _ (ap (λ p. p.0) packaged)),
        )

  -- Of the other types of source: with a secret configured the request presents it, and only then is
  -- it marked as verified.
  pub IsFromOther : Option String → Headers → Value → Bool → Type 0
  IsFromOther secret_hash headers payload verified =
      ((secret_hash ≡ none) × (verified ≡ false))
      ⊎ (Presents rt out secret_hash headers payload × (verified ≡ true))

  pub authenticate_other_lem :
      (secret_hash : Option String) (headers : Headers) (payload : Value) {v : Bool}
      → ComparesBytes rt out
      → authenticate_other rt out secret_hash headers payload ≡ pass v
      → IsFromOther secret_hash headers payload v
  unfolding authenticate_other IsFromOther verify_shared_secret
  authenticate_other_lem none headers payload compares h = inl (refl, cc h)
  authenticate_other_lem (some hash) headers payload compares h =
      elim (Bool-cases (verify_shared_secret rt out (some hash) headers payload)) [
        | inl verified ↦ inr (
          (verify_shared_secret-Presents rt out compares (some hash) headers payload).0 verified,
          cc (rw verified at h),
        )
        | inr refused ↦ cc (rw refused at h)
      ]
