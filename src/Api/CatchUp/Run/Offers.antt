-- ===== src/Api/CatchUp/Run/Offers.antt =====
-- What a store offers for the window of a catch-up, and the batch that is made of it.
use revtern.Prelude.{
  ℕ, suc, String, List, [], ◌∷◌, ◌≡◌, refl, ◌<◌, ◌⊎◌, zero, min, inl, inr, length, get_elem?,
  Bool-cases, eq_iff, str_eq, arith,
}
use revtern.Runtime.{Runtime}
use revtern.Api.Try.{Try, pass, fail, pass_inj, after_pass, after_refuse}
use revtern.Api.Http.{Outside}
use revtern.Api.CatchUp.{CatchUpWindow, clamp}
use revtern.Api.CatchUp.Batch.{
  CatchUpBatch, google_pub_sub, AppStoreNotificationHistoryResponse, GoogleReceivedMessage, Network,
  map, take, ack_ids_of, app_store_api_host, catch_up_environment, acknowledge_batch,
  fetch_app_store_notifications, fetch_google_pubsub_messages, fetch_webhook_notifications,
}
use revtern.Api.CatchUp.Run.{or_anyhow, acknowledge_stored}

map-take : {A B : Type 0} (f : A → B) (n : ℕ) (xs : List A) → map f (take n xs) ≡ take n (map f xs)
unfolding take
map-take f zero xs = refl
map-take f (suc n) [] = refl
map-take f (suc n) (x ∷ xs) = rw (map-take f n xs)

length-take : {A : Type 0} (n : ℕ) (xs : List A) → length (take n xs) ≡ min n (length xs)
unfolding take
length-take zero xs = omega arith
length-take (suc n) [] = omega arith
length-take (suc n) (x ∷ xs) = rw (length-take n xs) (omega arith)

get_elem?-take :
    {A : Type 0} (n : ℕ) (xs : List A) (i : ℕ) → i < n → get_elem? (take n xs) i ≡ get_elem? xs i
unfolding take
get_elem?-take zero xs i h = absurd (omega arith)
get_elem?-take (suc n) [] i h = refl
get_elem?-take (suc n) (x ∷ xs) zero h = refl
get_elem?-take (suc n) (x ∷ xs) (suc i) h = get_elem?-take n xs i (omega arith)

module _ (rt : Runtime) (out : Outside rt.Value) (net : Network rt.Value) where
  open rt use {Value}
  open net use {Message}

  -- What the App Store offered for the window.
  pub record AppleOffer (credentials : Value) (window : CatchUpWindow) (offered : List Value)
      : Type 0 where
    pub host : String
    pub is_host : app_store_api_host (catch_up_environment rt net credentials) ≡ pass host
    pub token : String
    pub response : AppStoreNotificationHistoryResponse
    pub is_response :
        net.notification_history host token window.from window.to window.cursor ≡ pass response
    pub are_offered : offered ≡ map net.signed_payload_json response.notification_history

  -- What Google's subscription offered, at most 100 messages, and that they were acknowledged.
  pub record GoogleOffer (credentials : Value) (window : CatchUpWindow) (offered : List Value)
      : Type 0 where
    pub subscription : String
    pub token : String
    pub received : List (GoogleReceivedMessage Message)
    pub is_response : net.pull subscription token (clamp window.limit 1 100) ≡ pass received
    pub are_offered : offered ≡ map (λ entry. net.pubsub_json entry.message subscription) received
    pub are_acknowledged :
        acknowledge_batch rt net (google_pub_sub subscription token (ack_ids_of received)) ≡ pass tt

  -- As many were seen as were offered, or as the limit admits.
  abbrev pub IsOffer : String → Value → CatchUpWindow → List Value → ℕ → Type 0
  IsOffer source_type credentials window offered seen =
      ((source_type ≡ "app_store")
        × AppleOffer credentials window offered
        × (seen ≡ min window.limit (length offered)))
      ⊎ ((source_type ≡ "google_play")
          × GoogleOffer credentials window offered
          × (seen ≡ length offered))

  pub or_anyhow_inv : {A : Type 0} (m : Try String A) {a : A} → or_anyhow m ≡ pass a → m ≡ pass a
  or_anyhow_inv (pass x) h = cc h
  or_anyhow_inv (fail text) h = cc h

  -- A batch is what was offered, as far as it goes.
  pub record IsBatchOf (source_type : String) (credentials : Value) (window : CatchUpWindow)
      (batch : CatchUpBatch Value) : Type 0 where
    pub offered : List Value
    pub is_offer : IsOffer source_type credentials window offered (length batch.payloads)
    pub same_at :
        (i : ℕ) → i < length batch.payloads → get_elem? batch.payloads i ≡ get_elem? offered i

  apple_batch :
      (credentials : Value) (window : CatchUpWindow) (batch : CatchUpBatch Value)
      → fetch_app_store_notifications rt net credentials window ≡ pass batch
      → IsBatchOf "app_store" credentials window batch
  unfolding fetch_app_store_notifications
  apple_batch credentials window batch h = after_pass _ _ h λ issuer_id i h1.
      after_pass _ _ h1 λ key_id k h2. after_pass _ _ h2 λ private_key p h3.
        after_pass _ _ h3 λ bundle_id b h4. after_pass _ _ h4 λ host hosted h5.
          after_pass _ _ h5 λ token signed h6. after_pass _ _ h6 λ response answered h7.
            let offered = map net.signed_payload_json response.notification_history in
            rw (← pass_inj h7) (
              rw (map-take net.signed_payload_json window.limit response.notification_history)
                (record {
                  offered = offered;
                  is_offer = inl (
                    refl,
                    record {
                      host = host;
                      is_host = hosted;
                      token = token;
                      response = response;
                      is_response = answered;
                      are_offered = refl;
                    },
                    length-take window.limit offered,
                  );
                  same_at = λ i inside. get_elem?-take window.limit offered i (
                      below_min i window.limit (length offered)
                        (rw (length-take window.limit offered) at inside));
                }))
    where
      below_min : (i m n : ℕ) → i < min m n → i < m
      below_min i m n inside = omega arith

  google_batch :
      (credentials : Value) (window : CatchUpWindow) (batch : CatchUpBatch Value)
      → fetch_google_pubsub_messages rt net credentials window ≡ pass batch
      → acknowledge_stored rt out net batch.ack ≡ pass tt
      → IsBatchOf "google_play" credentials window batch
  unfolding fetch_google_pubsub_messages acknowledge_stored
  google_batch credentials window batch h acknowledged = after_pass _ _ h λ subscription named h1.
      after_refuse _ _ _ h1 λ allowed h2. after_pass _ _ h2 λ token given h3.
        after_pass _ _ h3 λ received answered h4.
          let own = pass_inj h4 in
          rw (← own) (record {
            offered = map (λ entry. net.pubsub_json entry.message subscription) received;
            is_offer = inr (
              refl,
              record {
                subscription = subscription;
                token = token;
                received = received;
                is_response = answered;
                are_offered = refl;
                are_acknowledged = or_anyhow_inv _ (rw (← own) at acknowledged);
              },
              refl,
            );
            same_at = λ i inside. refl;
          })

  pub batch_lem :
      (source_type : String) (credentials : Value) (window : CatchUpWindow)
      (batch : CatchUpBatch Value)
      → fetch_webhook_notifications rt net source_type credentials window ≡ pass batch
      → acknowledge_stored rt out net batch.ack ≡ pass tt
      → IsBatchOf source_type credentials window batch
  unfolding fetch_webhook_notifications
  batch_lem source_type credentials window batch h acknowledged =
      elim (Bool-cases (str_eq source_type "app_store")) [
        | inl apple ↦
            rw ((eq_iff _ _).0 apple) (apple_batch credentials window batch (rw apple at h))
        | inr other ↦ elim (Bool-cases (str_eq source_type "google_play")) [
          | inl google ↦
              rw ((eq_iff _ _).0 google)
                (google_batch credentials window batch (rw google at rw other at h) acknowledged)
          | inr neither ↦ cc (rw neither at rw other at h)
        ]
      ]
