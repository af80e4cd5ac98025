-- ===== src/Api/Verification/Google/Pushed.antt =====
-- What a push that passed `verify_google_pubsub_oidc` is known to carry.
use revtern.Prelude.{
  String, true, Option, none, some, [], ◌∷◌, ◌≡◌, refl, ap, inl, inr, eq_iff, Option-cases,
  or-false, not-false, arith,
}
use revtern.Runtime.{Runtime}
use revtern.Connectors.Decode.{get_str}
use revtern.Api.Try.{Try, pass, fail, after_pass, after_context, after_refuse, refuse_if_inv}
use revtern.Api.Http.{Headers, Outside, TokenHeader}
use revtern.Api.Verification.{bearer_header, credential_string}
use revtern.Api.Verification.Keys.{GoogleJwksCache, Call, google_decoding_key}
use revtern.Api.Verification.Google.{
  is_text, claim_says_true, verify_google_pubsub_token, pubsub_token, check_token,
  verify_google_pubsub_oidc,
}

pub both_parts : {A B : Type 0} (p : A × B) {a : A} {b : B} → p.0 ≡ a → p.1 ≡ b → p ≡ (a, b)
both_parts p first second = rw (← first) (rw (← second))

is_text_lem :
    (expected : String) (actual : Option String)
    → is_text expected actual ≡ true
    → actual ≡ some expected
is_text_lem expected none h = cc h
is_text_lem expected (some actual) h =
    let same : actual ≡ expected = grind (arith, eq_iff, h) in rw same

module _ (rt : Runtime) (out : Outside rt.Value) where
  open rt use {Value, get}
  open out use {DecodingKey, decode_header, decode_claims}

  -- The bearer token names RS256 and a key, which the cache gave; with that key it is a token of
  -- Google for the configured audience and the verified address of the configured account.
  pub record IsPushed (headers : Headers) (credentials : Value) (call : Call out)
      (cache cache' : GoogleJwksCache out) : Type 0 where
    pub audience : String
    pub has_audience : credential_string rt credentials "pubsub_oidc_audience" ≡ some audience
    pub email : String
    pub has_email : credential_string rt credentials "pubsub_service_account_email" ≡ some email
    pub token : String
    pub has_token : bearer_header headers ≡ some token
    pub header : TokenHeader
    pub has_header : decode_header token ≡ some header
    pub is_rs256 : header.is_rs256 ≡ true
    pub kid : String
    pub has_kid : header.kid ≡ some kid
    pub key : DecodingKey
    pub has_key : google_decoding_key out kid call cache ≡ (pass key, cache')
    pub claims : Value
    pub are_valid :
        decode_claims token key audience
          ("accounts.google.com" ∷ "https://accounts.google.com" ∷ [])
          ("aud" ∷ "exp" ∷ "iss" ∷ [])
        ≡ some claims
    pub is_account : get_str rt claims "email" ≡ some email
    pub is_verified : claim_says_true rt out (get claims "email_verified") ≡ true

  check_token_lem :
      (headers : Headers) (credentials : Value) (audience : String) (call : Call out)
      (cache cache' : GoogleJwksCache out) (read : Try String (String × String × String))
      → credential_string rt credentials "pubsub_oidc_audience" ≡ some audience
      → pubsub_token rt out headers credentials ≡ read
      → check_token rt out audience call cache read ≡ (pass true, cache')
      → IsPushed headers credentials call cache cache'
  unfolding check_token pubsub_token verify_google_pubsub_token
  check_token_lem headers credentials audience call cache cache' (fail e) configured source h = cc h
  check_token_lem headers credentials audience call cache cache' (pass (email, token, kid))
        configured source h =
      after_pass _ _ (ap (λ p. p.0) h) λ key found h1. after_pass _ _ h1 λ u verified h2.
        after_context _ _ _ verified λ claims are_valid h3.
          after_context _ _ _ source λ expected has_email r1.
            after_context _ _ _ r1 λ bearer has_token r2.
              after_context _ _ _ r2 λ header has_header r3. after_refuse _ _ _ r3 λ rs256 r4.
                after_context _ _ _ r4 λ id has_kid r5.
                  let (is_account, is_verified) = or-false _ _ (refuse_if_inv _ _ h3) in
                  record {
                    audience = audience;
                    has_audience = configured;
                    email = email;
                    has_email = cc (has_email, r5);
                    token = token;
                    has_token = cc (has_token, r5);
                    header = header;
                    has_header = cc (has_header, r5);
                    is_rs256 = not-false _ rs256;
                    kid = kid;
                    has_kid = cc (has_kid, r5);
                    key = key;
                    has_key =
                        both_parts (google_decoding_key out kid call cache) found (ap (λ p. p.1) h);
                    claims = claims;
                    are_valid = are_valid;
                    is_account = is_text_lem email _ (not-false _ is_account);
                    is_verified = not-false _ is_verified;
                  }

  -- A push is taken to be verified only if its bearer token is signed with RS256 by a key that the
  -- cache of Google's keys gave, for the configured audience, by Google, and for the verified e-mail
  -- address of the configured service account.
  pub verify_google_pubsub_oidc-IsPushed :
      (headers : Headers) (credentials : Value) (call : Call out)
      (cache cache' : GoogleJwksCache out)
      → verify_google_pubsub_oidc rt out headers (some credentials) call cache ≡ (pass true, cache')
      → IsPushed headers credentials call cache cache'
  unfolding verify_google_pubsub_oidc
  verify_google_pubsub_oidc-IsPushed headers credentials call cache cache' h =
      elim (Option-cases (credential_string rt credentials "pubsub_oidc_audience")) [
        | inl missing ↦ cc (rw missing at h)
        | inr (audience, configured) ↦
            check_token_lem headers credentials audience call cache cache' _ configured refl
              (rw configured at h)
      ]
