-- ===== src/Api/Preserves.antt =====
-- What a handler preserves of the state, whether it answers or fails.
use revtern.Prelude.{Bool, true, false, ◌≡◌, ◌⊎◌, inl, inr, refl, ap, if◌then◌else◌}
use revtern.Api.Try.{Try, pass, fail, pass_inj, fail_inj}
use revtern.Api.Handler.{ApiError, Handler, go_on, ◌>>=◌, pure, lift, gets}

pub record Preserves {S A : Type 0} (P : S → Type 0) (m : Handler S A) : Type 0 where
  pub held : (s : S) → P s → P (m s).1

module _ {S A : Type 0} {P : S → Type 0} where
  pub Preserves-pure : (a : A) → Preserves P (pure a)
  Preserves-pure a = record { held = λ s h. h }

  pub Preserves-lift : (r : Try ApiError A) → Preserves P (lift r)
  Preserves-lift r = record { held = λ s h. h }

  pub Preserves-gets : (f : S → A) → Preserves P (gets f)
  Preserves-gets f = record { held = λ s h. h }

  pub Preserves-if :
      (b : Bool) (m n : Handler S A)
      → Preserves P m
      → Preserves P n
      → Preserves P (if b then m else n)
  Preserves-if true m n pm pn = pm
  Preserves-if false m n pm pn = pn

module _ {S A B : Type 0} {P : S → Type 0} where
  go_on-held :
      (r : Try ApiError A) (t : S) (f : A → Handler S B)
      → ((a : A) → Preserves P (f a))
      → P t
      → P (go_on r f t).1
  go_on-held (pass a) t f each h = (each a).held t h
  go_on-held (fail e) t f each h = h

  pub Preserves-bind :
      (m : Handler S A) (f : A → Handler S B)
      → Preserves P m
      → ((a : A) → Preserves P (f a))
      → Preserves P (m >>= f)
  unfolding ◌>>=◌
  Preserves-bind m f first each = record {
    held = λ s h. go_on-held (m s).0 (m s).1 f each (first.held s h);
  }

pub ruleset preserves_rules =
    (Preserves-pure, Preserves-lift, Preserves-gets, Preserves-if, Preserves-bind)

-- What is known of the error and the state that a handler leaves when it fails, from this of the
-- state before.
pub record FailsInto {S A : Type 0} (P : S → Type 0) (Bad : ApiError → S → Type 0) (m : Handler S A)
    : Type 0 where
  pub held : (s : S) → P s → (e : ApiError) → (m s).0 ≡ fail e → Bad e (m s).1

module _ {S A B : Type 0} {P : S → Type 0} {Bad : ApiError → S → Type 0} where
  go_on-into :
      ((e : ApiError) (t : S) → P t → Bad e t)
      → (r : Try ApiError A) (t : S) (f : A → Handler S B) → ((a : A) → FailsInto P Bad (f a))
      → P t
      → (e : ApiError) → (go_on r f t).0 ≡ fail e
      → Bad e (go_on r f t).1
  go_on-into early (pass a) t f each h e failed = (each a).held t h e failed
  go_on-into early (fail x) t f each h e failed = early e t h

  pub FailsInto-bind :
      ((e : ApiError) (t : S) → P t → Bad e t)
      → (m : Handler S A) (f : A → Handler S B) → Preserves P m
      → ((a : A) → FailsInto P Bad (f a))
      → FailsInto P Bad (m >>= f)
  unfolding ◌>>=◌
  FailsInto-bind early m f first each = record {
    held = λ s h e failed. go_on-into early (m s).0 (m s).1 f each (first.held s h) e failed;
  }

module _ {S A B : Type 0} {P : S → Type 0} {Bad : ApiError → S → Type 0} where
  -- A step that only has a result, which is known in what follows.
  pub FailsInto-lift :
      ((e : ApiError) (t : S) → P t → Bad e t)
      → (r : Try ApiError A) (f : A → Handler S B) → ((a : A) → r ≡ pass a → FailsInto P Bad (f a))
      → FailsInto P Bad (lift r >>= f)
  unfolding ◌>>=◌
  FailsInto-lift early (pass a) f each = record { held = (each a refl).held }
  FailsInto-lift early (fail x) f each = record { held = λ s h e failed. early e s h }

  -- A reading of the state that what is preserved determines.
  pub FailsInto-gets :
      (g : S → A) (f : A → Handler S B) (a : A)
      → ((s : S) → P s → g s ≡ a)
      → FailsInto P Bad (f a)
      → FailsInto P Bad (gets g >>= f)
  unfolding ◌>>=◌
  FailsInto-gets g f a same rest = record {
    held = λ s h e failed. rw (same s h) (rest.held s h e (rw (same s h) at failed));
  }

-- What a handler answers, and the errors it fails with, whatever the state.
pub record Yields {S A : Type 0} (Q : A → Type 0) (E : ApiError → Type 0) (m : Handler S A)
    : Type 0 where
  pub passed : (s : S) (a : A) → (m s).0 ≡ pass a → Q a
  pub failed : (s : S) (e : ApiError) → (m s).0 ≡ fail e → E e

module _ {S A : Type 0} {Q : A → Type 0} {E : ApiError → Type 0} where
  pub Yields-pass :
      (m : Handler S A) (answer : S → A)
      → ((s : S) → (m s).0 ≡ pass (answer s))
      → ((s : S) → Q (answer s))
      → Yields Q E m
  Yields-pass m answer passes good = record {
    passed = λ s a h. rw (← pass_inj (rw (passes s) at h)) (good s);
    failed = λ s e h. cc (rw (passes s) at h);
  }

  pub Yields-fail : (e : ApiError) → E e → Yields {S = S} Q E (lift (fail e))
  Yields-fail e known = record { passed = λ s a h. cc h; failed = λ s x h. rw (← fail_inj h) known }

module _ {S A B : Type 0} {Q : A → Type 0} {R : B → Type 0} {E : ApiError → Type 0} where
  go_on-passed :
      (r : Try ApiError A) (t : S) (f : A → Handler S B)
      → ((a : A) → r ≡ pass a → Q a)
      → ((a : A) → Q a → Yields R E (f a))
      → (b : B) → (go_on r f t).0 ≡ pass b
      → R b
  go_on-passed (pass a) t f good each b h = (each a (good a refl)).passed t b h
  go_on-passed (fail e) t f good each b h = cc h

  go_on-failed :
      (r : Try ApiError A) (t : S) (f : A → Handler S B)
      → ((a : A) → r ≡ pass a → Q a)
      → ((e : ApiError) → r ≡ fail e → E e)
      → ((a : A) → Q a → Yields R E (f a))
      → (e : ApiError) → (go_on r f t).0 ≡ fail e
      → E e
  go_on-failed (pass a) t f good bad each e h = (each a (good a refl)).failed t e h
  go_on-failed (fail x) t f good bad each e h = bad e (ap fail (fail_inj h))

  pub Yields-bind :
      (m : Handler S A) (f : A → Handler S B)
      → Yields Q E m
      → ((a : A) → Q a → Yields R E (f a))
      → Yields R E (m >>= f)
  unfolding ◌>>=◌
  Yields-bind m f first each = record {
    passed = λ s. go_on-passed (m s).0 (m s).1 f (first.passed s) each;
    failed = λ s. go_on-failed (m s).0 (m s).1 f (first.passed s) (first.failed s) each;
  }

-- A handler that yields passes or fails so.
module _ {S A : Type 0} {Q : A → Type 0} {E : ApiError → Type 0} where
  pub Yields-either :
      (m : Handler S A) (s : S)
      → Yields Q E m
      → ((a : A) × ((m s).0 ≡ pass a) × Q a) ⊎ ((e : ApiError) × ((m s).0 ≡ fail e) × E e)
  Yields-either m s h = either (m s).0 refl
    where
      either :
          (r : Try ApiError A)
          → (m s).0 ≡ r
          → ((a : A) × ((m s).0 ≡ pass a) × Q a) ⊎ ((e : ApiError) × ((m s).0 ≡ fail e) × E e)
      either (pass a) same = inl (a, same, h.passed s a same)
      either (fail e) same = inr (e, same, h.failed s e same)
