-- ===== src/Api/Verification/Secret.antt =====
-- `verify_shared_secret` of crates/api/src/webhook_verification.rs.
use revtern.Prelude.{
  ℕ, String, Bool, true, false, ◌&&◌, Option, none, some, List, ◌≡◌, ◌↔◌, refl, nat_eq, length,
  or_else, arith, Bool-cases, Option-cases, inl, inr,
}
use revtern.Prelude.Split.{as_bytes}
use revtern.Runtime.{Runtime}
use revtern.Core.{sha256_hex}
use revtern.Connectors.Decode.{get_str}
use revtern.Api.Http.{Headers, header, Outside}
use revtern.Api.Verification.{bearer_header}

module _ (rt : Runtime) (out : Outside rt.Value) where
  open rt use {Value}
  open out use {memcmp_eq}

  -- `header_secret`, or the payload's own field.
  unfoldable pub secret_candidate : Headers → Value → Option String
  unfolding bearer_header header
  secret_candidate headers payload = or_else (bearer_header headers) (
      or_else (header headers "x-revtern-webhook-secret") (
        or_else (header headers "x-revenuecat-authorization") (get_str rt payload "shared_secret")))

  unfoldable pub hash_matches : String → String → Bool
  unfolding as_bytes
  hash_matches secret_hash candidate =
      let candidate_bytes = as_bytes (sha256_hex rt (as_bytes candidate)) in
      let secret_bytes = as_bytes secret_hash in
      nat_eq (length candidate_bytes) (length secret_bytes)
      && memcmp_eq candidate_bytes secret_bytes

  abbrev candidate_matches : String → Option String → Bool
  candidate_matches secret_hash none = false
  candidate_matches secret_hash (some candidate) = hash_matches secret_hash candidate

  unfoldable pub verify_shared_secret : Option String → Headers → Value → Bool
  verify_shared_secret none headers payload = false
  verify_shared_secret (some secret_hash) headers payload =
      candidate_matches secret_hash (secret_candidate headers payload)

  -- A secret is configured, the request presents one, and its digest is the configured one.
  pub Presents : Option String → Headers → Value → Type 0
  Presents none headers payload = ⊥
  Presents (some secret_hash) headers payload =
      (candidate : String) × (secret_candidate headers payload ≡ some candidate)
      × (as_bytes (sha256_hex rt (as_bytes candidate)) ≡ as_bytes secret_hash)

  -- `openssl::memcmp::eq` compares texts of one length.
  abbrev pub ComparesBytes : Type 0
  ComparesBytes = (xs ys : List ℕ) → length xs ≡ length ys → (memcmp_eq xs ys ≡ true) ↔ (xs ≡ ys)

  nat_eq→≡ : (m n : ℕ) → nat_eq m n ≡ true → m ≡ n
  nat_eq→≡ m n h = ground arith

  nat_eq_self : (n : ℕ) → nat_eq n n ≡ true
  nat_eq_self n = ground arith

  hash_matches_lem :
      ComparesBytes
      → (secret_hash candidate : String)
      → (hash_matches secret_hash candidate ≡ true)
        ↔ (as_bytes (sha256_hex rt (as_bytes candidate)) ≡ as_bytes secret_hash)
  unfolding hash_matches
  hash_matches_lem compares secret_hash candidate =
      let computed = as_bytes (sha256_hex rt (as_bytes candidate)) in
      let stored = as_bytes secret_hash in
      (
        λ h. elim (Bool-cases (nat_eq (length computed) (length stored))) [
          | inl same ↦
              (compares computed stored (nat_eq→≡ (length computed) (length stored) same)).0
                (rw same at h)
          | inr differs ↦ cc (differs, h)
        ],
        λ h. rw h (rw (nat_eq_self (length stored)) ((compares stored stored refl).1 refl)),
      )

  -- A request passes the check of the shared secret exactly if a secret is configured and the digest
  -- of the secret that the request presents is the configured one.
  pub verify_shared_secret-Presents :
      ComparesBytes
      → (secret_hash : Option String) (headers : Headers) (payload : Value)
      → (verify_shared_secret secret_hash headers payload ≡ true)
        ↔ Presents secret_hash headers payload
  unfolding verify_shared_secret Presents
  verify_shared_secret-Presents compares none headers payload = (λ h. cc h, λ h. absurd h)
  verify_shared_secret-Presents compares (some secret_hash) headers payload = (
    λ h. elim (Option-cases (secret_candidate headers payload)) [
      | inl missing ↦ cc (missing, h)
      | inr (candidate, found) ↦
          (candidate, found, (hash_matches_lem compares secret_hash candidate).0 (rw found at h))
    ],
    λ (candidate, found, same). rw found ((hash_matches_lem compares secret_hash candidate).1 same),
  )
