-- ===== src/Api/Try.antt =====
-- `Result` with the error types of the service: `anyhow::Result`, whose error is read as the text it
-- displays, and `ApiResult`.
use revtern.Prelude.{◌≡◌, refl, Bool, true, false, Option, none, some}

pub data Try (E A : Type 0) : Type 0 where
  pass : A → Try E A
  fail : E → Try E A

module _ {E A B : Type 0} where
  infixl 5 ◌>>=◌ ◌>>◌
  -- `?`.
  unfoldable pub ◌>>=◌ : Try E A → (A → Try E B) → Try E B
  ◌>>=◌ (pass a) f = f a
  ◌>>=◌ (fail e) f = fail e

  abbrev pub ◌>>◌ : Try E A → Try E B → Try E B
  m >> k = m >>= λ _. k

  -- What went on after a `?` had a value there.
  pub after_pass {ℓ} :
      {C : Type ℓ} (m : Try E A) (f : A → Try E B) {b : B}
      → m >>= f ≡ pass b
      → ((a : A) → m ≡ pass a → f a ≡ pass b → C)
      → C
  unfolding ◌>>=◌
  after_pass (pass a) f h go = go a refl h
  after_pass (fail e) f h go = cc h

module _ {E A : Type 0} where
  pub pass_inj : {a b : A} → ◌≡◌ {A = Try E A} (pass a) (pass b) → a ≡ b
  pass_inj h = cc h

  pub fail_inj : {e x : E} → ◌≡◌ {A = Try E A} (fail e) (fail x) → e ≡ x
  fail_inj h = cc h

  -- `context(…)` and `ok_or_else(…)`.
  abbrev pub context : E → Option A → Try E A
  context e none = fail e
  context e (some a) = pass a

  -- `context(…)` of a result, which hides the text of its cause.
  abbrev pub recontext : E → Try E A → Try E A
  recontext e (fail cause) = fail e
  recontext e (pass a) = pass a

  pub context_inv : (e : E) (o : Option A) {a : A} → context e o ≡ pass a → o ≡ some a
  context_inv e none h = cc h
  context_inv e (some x) h = cc h

module _ {E A B : Type 0} where
  pub after_context {ℓ} :
      {C : Type ℓ} (e : E) (o : Option A) (f : A → Try E B) {b : B}
      → context e o >>= f ≡ pass b
      → ((a : A) → o ≡ some a → f a ≡ pass b → C)
      → C
  unfolding ◌>>=◌
  after_context e none f h go = cc h
  after_context e (some a) f h go = go a refl h

  pub after_recontext {ℓ} :
      {C : Type ℓ} (e : E) (m : Try E A) (f : A → Try E B) {b : B}
      → recontext e m >>= f ≡ pass b
      → ((a : A) → m ≡ pass a → f a ≡ pass b → C)
      → C
  unfolding ◌>>=◌
  after_recontext e (fail cause) f h go = cc h
  after_recontext e (pass a) f h go = go a refl h

module _ {E : Type 0} where
  -- `if refused { bail!(…) }`.
  abbrev pub refuse_if : Bool → E → Try E (Unit {0})
  refuse_if true e = fail e
  refuse_if false e = pass tt

  pub refuse_if_inv : (b : Bool) (e : E) {u : Unit {0}} → refuse_if b e ≡ pass u → b ≡ false
  refuse_if_inv true e h = cc h
  refuse_if_inv false e h = refl

module _ {E B : Type 0} where
  pub after_refuse {ℓ} :
      {C : Type ℓ} (refused : Bool) (e : E) (k : Try E B) {b : B}
      → refuse_if refused e >> k ≡ pass b
      → (refused ≡ false → k ≡ pass b → C)
      → C
  unfolding ◌>>=◌
  after_refuse true e k h go = cc h
  after_refuse false e k h go = go refl h
