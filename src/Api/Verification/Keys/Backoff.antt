-- ===== src/Api/Verification/Keys/Backoff.antt =====
-- How often the signing keys are requested.
use revtern.Prelude.{
  ℕ, ◌+◌, ◌-◌, ◌≤◌, String, Bool, true, false, ◌&&◌, Option, some, List, [], ◌∷◌, ◌≡◌, refl, leb,
  leb→le, if◌then◌else◌, inl, inr, Bool-cases, and-true, ◌*◌, arith,
}
use revtern.Api.Try.{Try, pass, fail}
use revtern.Api.Http.{Outside, KeyResponse}
use revtern.Api.Verification.Keys.{
  Tick, google_jwks_refresh_backoff, GoogleJwksCache, Call, may_refresh, needs_refresh,
  refresh_keys, fetch_google_jwks, store_keys, second, google_decoding_key,
}

module _ {V : Type 0} (out : Outside V) where
  open out use {JwkSet}

  -- A request for the keys is sent when they are needed and the last attempt is long enough ago.
  abbrev pub sends_request : String → Call out → GoogleJwksCache out → Bool
  sends_request kid call cache =
      needs_refresh out kid call.now cache && may_refresh out call.now cache.last_refresh_attempt

  -- The times of the requests that a sequence of calls sends.
  unfoldable pub request_times : List (String × Call out) → GoogleJwksCache out → List Tick
  request_times [] cache = []
  request_times ((kid, call) ∷ calls) cache =
      let rest = request_times calls (google_decoding_key out kid call cache).1 in
      if sends_request kid call cache then call.now ∷ rest else rest

  pub SpacedFrom : Tick → List Tick → Type 0
  SpacedFrom time [] = Unit
  SpacedFrom time (next ∷ times) =
      (time + google_jwks_refresh_backoff ≤ next) × SpacedFrom next times

  -- From one time to the next at least the backoff passes.
  pub Spaced : List Tick → Type 0
  Spaced [] = Unit
  Spaced (time ∷ times) = SpacedFrom time times

  -- The same call with another response.
  abbrev pub answered : Option (KeyResponse JwkSet) → Call out → Call out
  answered response call = record call { response = response }

  may_refresh_lem :
      (time now : Tick)
      → may_refresh out now (some time) ≡ true
      → time + google_jwks_refresh_backoff ≤ now
  may_refresh_lem time now h =
      let waited = leb→le google_jwks_refresh_backoff (now - time) h in ground arith

  store_keys_keeps :
      (kid : String) (after : Tick) (cache : GoogleJwksCache out)
      (fetched : Try String (JwkSet × ℕ))
      → (store_keys out kid after cache fetched).1.last_refresh_attempt ≡ cache.last_refresh_attempt
  store_keys_keeps kid after cache (fail e) = refl
  store_keys_keeps kid after cache (pass (jwks, ttl)) =
      elim (Bool-cases (leb (after + ttl * second) out.last_tick)) [
        | inl fits ↦ rw fits
        | inr late ↦ rw late
      ]

  request_recorded :
      (kid : String) (call : Call out) (cache : GoogleJwksCache out)
      → sends_request kid call cache ≡ true
      → (google_decoding_key out kid call cache).1.last_refresh_attempt ≡ some call.now
  unfolding google_decoding_key refresh_keys
  request_recorded kid call cache h =
      let (needed, allowed) =
        and-true (needs_refresh out kid call.now cache)
          (may_refresh out call.now cache.last_refresh_attempt) h in
      rw needed
        (rw allowed (store_keys_keeps kid call.after _ (fetch_google_jwks out call.response)))

  no_request_lem :
      (kid : String) (call : Call out) (cache : GoogleJwksCache out)
      → sends_request kid call cache ≡ false
      → (google_decoding_key out kid call cache).1 ≡ cache
  unfolding google_decoding_key refresh_keys
  no_request_lem kid call cache h = elim (Bool-cases (needs_refresh out kid call.now cache)) [
    | inl needed ↦ rw needed (rw (rw needed at h))
    | inr fresh ↦ rw fresh
  ]

  -- Without a request the response is not looked at.
  no_request_answer :
      (kid : String) (call : Call out) (cache : GoogleJwksCache out)
      (response : Option (KeyResponse JwkSet))
      → sends_request kid call cache ≡ false
      → google_decoding_key out kid (answered response call) cache
        ≡ google_decoding_key out kid call cache
  unfolding google_decoding_key refresh_keys
  no_request_answer kid call cache response h =
      elim (Bool-cases (needs_refresh out kid call.now cache)) [
        | inl needed ↦ rw needed (rw (rw needed at h))
        | inr fresh ↦ rw fresh
      ]

  SpacedFrom-spaced :
      (calls : List (String × Call out)) (cache : GoogleJwksCache out) (time : Tick)
      → cache.last_refresh_attempt ≡ some time
      → SpacedFrom time (request_times calls cache)
  unfolding request_times SpacedFrom
  SpacedFrom-spaced [] cache time h = tt
  SpacedFrom-spaced ((kid, call) ∷ calls) cache time h =
      elim (Bool-cases (sends_request kid call cache)) [
        | inl sent ↦ rw sent (
          may_refresh_lem time call.now (
              rw h at
                (and-true (needs_refresh out kid call.now cache)
                  (may_refresh out call.now cache.last_refresh_attempt) sent).1),
          SpacedFrom-spaced calls _ call.now (request_recorded kid call cache sent),
        )
        | inr kept ↦
            rw kept (SpacedFrom-spaced calls _ time (rw (no_request_lem kid call cache kept) h))
      ]

  Spaced-requests :
      (calls : List (String × Call out)) (cache : GoogleJwksCache out)
      → Spaced (request_times calls cache)
  unfolding request_times Spaced
  Spaced-requests [] cache = tt
  Spaced-requests ((kid, call) ∷ calls) cache = elim (Bool-cases (sends_request kid call cache)) [
    | inl sent ↦ rw sent (SpacedFrom-spaced calls _ call.now (request_recorded kid call cache sent))
    | inr kept ↦ rw kept (Spaced-requests calls _)
  ]

  -- Of any sequence of calls from any cache, those that request the keys are at least 30 seconds
  -- apart, whatever keys they look for and whether the requests succeed or fail; and a call that is
  -- not among them gives its result without a response.
  pub google_decoding_key-Spaced :
      (calls : List (String × Call out)) (cache : GoogleJwksCache out)
      → Spaced (request_times calls cache)
        × ((kid : String) (call : Call out) (response : Option (KeyResponse JwkSet))
            → sends_request kid call cache ≡ false
            → google_decoding_key out kid (answered response call) cache
              ≡ google_decoding_key out kid call cache)
  google_decoding_key-Spaced calls cache =
      (Spaced-requests calls cache, λ kid call response. no_request_answer kid call cache response)
