-- ===== src/Api/Verification/Keys/Fresh.antt =====
-- Where a signing key comes from.
use revtern.Prelude.{
  sym, ap, ℕ, ◌+◌, ◌*◌, String, true, false, Option, some, ◌≡◌, ◌⊎◌, inl, inr, refl, leb,
  Bool-cases, or-false, not-false,
}
use revtern.Api.Try.{Try, pass, fail, after_context, after_refuse, context_inv}
use revtern.Api.Http.{Outside, KeyResponse}
use revtern.Api.Verification.Keys.{
  second, GoogleJwksCache, Call, expired, cached_key, needs_refresh, refresh_keys, response_ttl,
  fetch_google_jwks, signing_key, store_keys, may_refresh, google_decoding_key,
}

module _ {V : Type 0} (out : Outside V) where
  open out use {JwkSet, Jwk, DecodingKey, find_key, key_count, from_jwk, last_tick}

  -- The key of a cache for an id.
  pub record IsKeyOf (cache : GoogleJwksCache out) (kid : String) (key : DecodingKey) : Type 0 where
    pub jwk : Jwk
    pub is_cached : cached_key out cache kid ≡ some jwk
    pub is_read : from_jwk jwk ≡ some key

  -- The keys of the cache are those of a successful response to this call, and not none, until the
  -- end of the time that the response allows.
  pub record IsFetched (call : Call out) (cache : GoogleJwksCache out) : Type 0 where
    pub response : KeyResponse JwkSet
    pub is_sent : call.response ≡ some response
    pub is_success : response.is_success ≡ true
    pub are_keys : response.keys ≡ cache.jwks
    pub is_until : cache.expires_at ≡ some (call.after + response_ttl out response * second)

  -- Either the cache was not expired, and is as it was, or it was fetched.
  pub IsFresh : Call out → GoogleJwksCache out → GoogleJwksCache out → Type 0
  IsFresh call cache cache' =
      ((cache' ≡ cache) × (expired out call.now cache.expires_at ≡ false)) ⊎ IsFetched call cache'

  signing_key_lem :
      (kid : String) (cache : GoogleJwksCache out) {key : DecodingKey}
      → signing_key out kid cache ≡ pass key
      → IsKeyOf cache kid key
  unfolding signing_key
  signing_key_lem kid cache h =
      after_context _ _ _ h
        λ jwk found h1. record { jwk = jwk; is_cached = found; is_read = context_inv _ _ h1 }

  fetch_google_jwks_lem :
      (sent : Option (KeyResponse JwkSet)) {jwks : JwkSet} {ttl : ℕ}
      → fetch_google_jwks out sent ≡ pass (jwks, ttl)
      → (response : KeyResponse JwkSet) × (sent ≡ some response)
        × (response.is_success ≡ true)
        × (response.keys ≡ some jwks)
        × (response_ttl out response ≡ ttl)
  unfolding fetch_google_jwks
  fetch_google_jwks_lem sent h = after_context _ _ _ h λ response is_sent h1.
      after_refuse _ _ _ h1 λ accepted h2. after_context _ _ _ h2 λ keys has_keys h3.
        after_refuse _ _ _ h3
          λ some_key h4. (response, is_sent, not-false _ accepted, cc (has_keys, h4), cc h4)

  store_keys_lem :
      (kid : String) (call : Call out) (before cache' : GoogleJwksCache out)
      (fetched : Try String (JwkSet × ℕ)) {key : DecodingKey}
      → fetch_google_jwks out call.response ≡ fetched
      → store_keys out kid call.after before fetched ≡ (pass key, cache')
      → IsKeyOf cache' kid key × IsFetched call cache'
  store_keys_lem kid call before cache' (fail e) source h = cc h
  store_keys_lem kid call before cache' (pass (jwks, ttl)) source h =
      elim (Bool-cases (leb (call.after + ttl * second) last_tick)) [
        | inl fits ↦
            let kept = rw fits at h in
            let (response, is_sent, is_success, has_keys, has_ttl) =
              fetch_google_jwks_lem call.response source in
            rw (← ap (λ p. p.1) kept) (
              signing_key_lem kid _ (ap (λ p. p.0) kept),
              record {
                response = response;
                is_sent = is_sent;
                is_success = is_success;
                are_keys = has_keys;
                is_until = rw has_ttl;
              },
            )
        | inr late ↦ cc (rw late at h)
      ]

  refresh_keys_lem :
      (kid : String) (call : Call out) (cache cache' : GoogleJwksCache out) {key : DecodingKey}
      → refresh_keys out kid call cache ≡ (pass key, cache')
      → IsKeyOf cache' kid key × IsFetched call cache'
  unfolding refresh_keys
  refresh_keys_lem kid call cache cache' h =
      elim (Bool-cases (may_refresh out call.now cache.last_refresh_attempt)) [
        | inl allowed ↦ store_keys_lem kid call _ cache' _ refl (rw allowed at h)
        | inr backed_off ↦ cc (rw backed_off at h)
      ]

  -- A key that is given for an id is the key of that id in the cache as the call leaves it, and that
  -- cache is either the one before, not expired, or holds the keys of a successful response to this
  -- call for as long as the response allows.
  pub google_decoding_key-IsFresh :
      (kid : String) (call : Call out) (cache cache' : GoogleJwksCache out) (key : DecodingKey)
      → google_decoding_key out kid call cache ≡ (pass key, cache')
      → IsKeyOf cache' kid key × IsFresh call cache cache'
  unfolding google_decoding_key needs_refresh IsFresh
  google_decoding_key-IsFresh kid call cache cache' key h =
      elim (Bool-cases (needs_refresh out kid call.now cache)) [
        | inl needed ↦
            let (is_key, fetched) = refresh_keys_lem kid call cache cache' (rw needed at h) in
            (is_key, inr fetched)
        | inr fresh ↦
            let kept = rw fresh at h in
            let same = ap (λ p. p.1) kept in
            (
              rw (← same) (signing_key_lem kid cache (ap (λ p. p.0) kept)),
              inl (sym same, (or-false _ _ fresh).0),
            )
      ]
