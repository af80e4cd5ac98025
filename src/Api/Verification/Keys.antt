-- ===== src/Api/Verification/Keys.antt =====
-- The cache of Google's signing keys: `google_decoding_key`, `fetch_google_jwks` and
-- `parse_cache_control_max_age` of crates/api/src/webhook_verification.rs.
pub mod Backoff
pub mod Fresh
use revtern.Prelude.{
  ℕ, ◌+◌, ◌-◌, ◌*◌, String, Bool, true, false, ◌||◌, not, Option, none, some, List, [], ◌∷◌, str_eq,
  nat_eq, leb, and_then, unwrap_or, is_some, if◌then◌else◌,
}
use revtern.Prelude.Text.{trim, to_ascii_lowercase}
use revtern.Prelude.Split.{split, split_once, trim_matches, parse_u64}
use revtern.Api.Try.{Try, pass, fail, ◌>>=◌, ◌>>◌, context, refuse_if}
use revtern.Api.Http.{Outside, KeyResponse}

-- A `std::time::Instant`, in nanoseconds.
abbrev pub Tick : Type 0
Tick = ℕ

abbrev pub second : ℕ
second = 1_000_000_000

abbrev pub google_jwks_refresh_backoff : ℕ
google_jwks_refresh_backoff = 30 * second

-- In seconds.
abbrev pub google_jwks_default_ttl : ℕ
google_jwks_default_ttl = 5 * 60

unfoldable pub find_map : {A B : Type 0} → (A → Option B) → List A → Option B
find_map f [] = none
find_map f (x ∷ xs) = let rest = find_map f xs in elim (f x) [ none ↦ rest | some y ↦ some y ]

abbrev pub max_age_of : Option (String × String) → Option ℕ
max_age_of none = none
max_age_of (some (name, seconds)) =
    if str_eq (to_ascii_lowercase (trim name)) "max-age"
    then parse_u64 (trim_matches b'"' (trim seconds))
    else none

unfoldable pub directive_max_age : String → Option ℕ
directive_max_age directive = max_age_of (split_once b'=' (trim directive))

unfoldable pub parse_cache_control_max_age : String → Option ℕ
unfolding directive_max_age
parse_cache_control_max_age value = find_map directive_max_age (split b',' value)

module _ {V : Type 0} (out : Outside V) where
  open out use {JwkSet, Jwk, DecodingKey, find_key, key_count, from_jwk, library_error, last_tick}

  pub record GoogleJwksCache : Type 0 where
    pub jwks : Option JwkSet
    pub expires_at : Option Tick
    pub last_refresh_attempt : Option Tick

  -- What the network and the clock give to one call: its time, the response if there is one, and the
  -- time after it.
  pub record Call : Type 0 where
    pub now : Tick
    pub response : Option (KeyResponse JwkSet)
    pub after : Tick

  unfoldable pub response_ttl : KeyResponse JwkSet → ℕ
  unfolding parse_cache_control_max_age
  response_ttl response =
      unwrap_or (and_then response.cache_control parse_cache_control_max_age)
        google_jwks_default_ttl

  unfoldable pub fetch_google_jwks : Option (KeyResponse JwkSet) → Try String (JwkSet × ℕ)
  unfolding response_ttl
  fetch_google_jwks sent = do
    response ← context "Google OIDC signing key request failed" sent
    refuse_if (not response.is_success) "Google OIDC signing key request failed"
    jwks ← context "Google OIDC signing key response is invalid" response.keys
    refuse_if (nat_eq (key_count jwks) 0) "Google OIDC signing key response is empty"
    pass (jwks, response_ttl response)

  abbrev pub expired : Tick → Option Tick → Bool
  expired now none = true
  expired now (some expires_at) = leb expires_at now

  -- `duration_since` is zero for a later instant.
  abbrev pub may_refresh : Tick → Option Tick → Bool
  may_refresh now none = true
  may_refresh now (some attempt) = leb google_jwks_refresh_backoff (now - attempt)

  abbrev pub cached_key : GoogleJwksCache → String → Option Jwk
  cached_key cache kid = and_then cache.jwks λ jwks. find_key jwks kid

  unfoldable pub needs_refresh : String → Tick → GoogleJwksCache → Bool
  needs_refresh kid now cache = expired now cache.expires_at || not (is_some (cached_key cache kid))

  -- The end of the call, on the cache as it is then.
  unfoldable pub signing_key : String → GoogleJwksCache → Try String DecodingKey
  signing_key kid cache = do
    jwk ← context "Google Pub/Sub token signing key was not found" (cached_key cache kid)
    context "Google Pub/Sub token signing key is invalid" (from_jwk jwk)

  -- `Instant::now() + ttl`, which panics past the last instant; the keys are stored by then.
  abbrev pub expire : String → Tick → GoogleJwksCache → Try String DecodingKey × GoogleJwksCache
  expire kid expires_at cache =
      if leb expires_at last_tick
      then (
        signing_key kid (record cache { expires_at = some expires_at }),
        record cache { expires_at = some expires_at },
      )
      else (fail "overflow when adding duration to instant", cache)

  abbrev pub store_keys :
      String
      → Tick
      → GoogleJwksCache
      → Try String (JwkSet × ℕ)
      → Try String DecodingKey × GoogleJwksCache
  store_keys kid after cache (fail e) = (fail e, cache)
  store_keys kid after cache (pass (jwks, ttl)) =
      expire kid (after + ttl * second) (record cache { jwks = some jwks })

  unfoldable pub refresh_keys :
      String → Call → GoogleJwksCache → Try String DecodingKey × GoogleJwksCache
  unfolding fetch_google_jwks signing_key
  refresh_keys kid call cache =
      if may_refresh call.now cache.last_refresh_attempt
      then store_keys kid call.after (record cache { last_refresh_attempt = some call.now })
          (fetch_google_jwks call.response)
      else (fail "Google OIDC signing key refresh is temporarily unavailable", cache)

  unfoldable pub google_decoding_key :
      String → Call → GoogleJwksCache → Try String DecodingKey × GoogleJwksCache
  unfolding needs_refresh signing_key
  google_decoding_key kid call cache =
      if needs_refresh kid call.now cache
      then refresh_keys kid call cache
      else (signing_key kid cache, cache)
