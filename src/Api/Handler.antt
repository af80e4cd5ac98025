-- ===== src/Api/Handler.antt =====
-- Handlers of the service: calls on a state that answer a value or an `ApiError`. What was written
-- before an error stays written; `transaction` takes it back.
use revtern.Prelude.{String, Bool, Option, none, some, ◌≡◌, refl}
use revtern.Api.Try.{Try, pass, fail, refuse_if}

-- crates/api/src/error.rs. The errors of the libraries carry the text that they display.
pub data ApiError : Type 0 where
  bad_request unauthorized forbidden not_found conflict sqlx serde_json anyhow : String → ApiError

abbrev pub Handler : Type 0 → Type 0 → Type 0
Handler S A = S → Try ApiError A × S

module _ {S A B : Type 0} where
  abbrev pub go_on : Try ApiError A → (A → Handler S B) → Handler S B
  go_on (pass a) f s = f a s
  go_on (fail e) f s = (fail e, s)

  infixl 5 ◌>>=◌ ◌>>◌
  unfoldable pub ◌>>=◌ : Handler S A → (A → Handler S B) → Handler S B
  ◌>>=◌ m f s = let (r, s') = m s in go_on r f s'

  abbrev pub ◌>>◌ : Handler S A → Handler S B → Handler S B
  m >> k = m >>= λ _. k

  after_result {ℓ} :
      {C : Type ℓ} (p q : Try ApiError A × S) (f : A → Handler S B) {b : B} {s' : S}
      → p ≡ q
      → go_on q.0 f q.1 ≡ (pass b, s')
      → ((a : A) (t : S) → p ≡ (pass a, t) → f a t ≡ (pass b, s') → C)
      → C
  after_result p (pass a, t) f e h step = step a t e h
  after_result p (fail x, t) f e h step = cc h

  -- A handler that passes passed at each of its steps.
  pub after_step {ℓ} :
      {C : Type ℓ} (m : Handler S A) (f : A → Handler S B) (s : S) {b : B} {s' : S}
      → (m >>= f) s ≡ (pass b, s')
      → ((a : A) (t : S) → m s ≡ (pass a, t) → f a t ≡ (pass b, s') → C)
      → C
  unfolding ◌>>=◌
  after_step m f s h step = after_result (m s) (m s) f refl h step

module _ {S A B : Type 0} where
  go_on-pass :
      (r : Try ApiError A) (f : A → Handler S B) (t : S) {a : A} → r ≡ pass a → go_on r f t ≡ f a t
  go_on-pass r f t e = rw e

  -- What is done with a value that a handler answers.
  pub bind-pass :
      (m : Handler S A) (f : A → Handler S B) (s : S) {a : A}
      → (m s).0 ≡ pass a
      → (m >>= f) s ≡ f a (m s).1
  unfolding ◌>>=◌
  bind-pass m f s e = go_on-pass (m s).0 f (m s).1 e

module _ {S A : Type 0} where
  abbrev pub pure : A → Handler S A
  pure a s = (pass a, s)

  abbrev pub lift : Try ApiError A → Handler S A
  lift r s = (r, s)

  abbrev pub gets : (S → A) → Handler S A
  gets f s = (pass (f s), s)

module _ {S : Type 0} where
  abbrev pub modify : (S → S) → Handler S (Unit {0})
  modify f s = (pass tt, f s)

  abbrev pub guard_that : Bool → ApiError → Handler S (Unit {0})
  guard_that refused e = lift (refuse_if refused e)

-- `ok_or_else(…)`.
abbrev pub ok_or : {A : Type 0} → ApiError → Option A → Try ApiError A
ok_or e none = fail e
ok_or e (some a) = pass a

module _ {S A B : Type 0} where
  pub after_lift {ℓ} :
      {C : Type ℓ} (r : Try ApiError A) (f : A → Handler S B) (s : S) {b : B} {s' : S}
      → (lift r >>= f) s ≡ (pass b, s')
      → ((a : A) → r ≡ pass a → f a s ≡ (pass b, s') → C)
      → C
  unfolding ◌>>=◌
  after_lift (pass a) f s h step = step a refl h
  after_lift (fail e) f s h step = cc h

  pub after_ok_or {ℓ} :
      {C : Type ℓ} (e : ApiError) (o : Option A) (f : A → Handler S B) (s : S) {b : B} {s' : S}
      → (lift (ok_or e o) >>= f) s ≡ (pass b, s')
      → ((a : A) → o ≡ some a → f a s ≡ (pass b, s') → C)
      → C
  unfolding ◌>>=◌
  after_ok_or e (some a) f s h step = step a refl h
  after_ok_or e none f s h step = cc h

  pub after_gets :
      (g : S → A) (f : A → Handler S B) (s : S) {r : Try ApiError B × S}
      → (gets g >>= f) s ≡ r
      → f (g s) s ≡ r
  unfolding ◌>>=◌
  after_gets g f s h = h
