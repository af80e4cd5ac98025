-- ===== src/Prelude/Rows.antt =====
-- The first row of a table, after rows were written.
use mathlib.Core.Path.{◌≡◌, refl}
use mathlib.Core.Logic.{inl, inr}
use mathlib.Core.Bool.{Bool, true, false}
use mathlib.Core.Option
use mathlib.Core.Option.{Option, none, some, some_inj}
use mathlib.Core.List
use mathlib.Core.List.{List, [], ◌∷◌, ◌++◌}
use native.Mathlib.Omega.{arith}
use revtern.Prelude.Tests.{Bool-cases}
use revtern.Prelude.Results.{is_some}
use revtern.Prelude.Lists.{find, put, update_where, All}

module _ {ℓ} {A : Type ℓ} where
  -- The row that was put is found.
  pub find-put :
      (p : A → Bool) (row : A) (rows : List A) → p row ≡ true → find p (put p row rows) ≡ some row
  unfolding find put
  find-put p row [] h = rw h
  find-put p row (x ∷ rows) h = elim (Bool-cases (p x)) [
    | inl here ↦ rw here (rw h)
    | inr there ↦ rw there (rw there (find-put p row rows h))
  ]

  -- A row of another key is found as before.
  pub find-put_other :
      (p q : A → Bool) (row : A) (rows : List A)
      → q row ≡ false
      → ((x : A) → p x ≡ true → q x ≡ false)
      → find q (put p row rows) ≡ find q rows
  unfolding find put
  find-put_other p q row [] h apart = rw h
  find-put_other p q row (x ∷ rows) h apart = elim (Bool-cases (p x)) [
    | inl here ↦ rw here (rw h (rw (apart x here)))
    | inr there ↦ rw there (rw (find-put_other p q row rows h apart))
  ]

  -- An update that keeps the key keeps the row findable, and is applied to it.
  pub find-update_where :
      (p : A → Bool) (f : A → A) (rows : List A)
      → ((x : A) → p x ≡ true → p (f x) ≡ true)
      → find p (update_where p f rows) ≡ Option.map f (find p rows)
  unfolding find update_where
  find-update_where p f [] keep = refl
  find-update_where p f (x ∷ rows) keep = elim (Bool-cases (p x)) [
    | inl here ↦ rw here (rw (keep x here))
    | inr there ↦ rw there (rw there (find-update_where p f rows keep))
  ]

  pub find_sound : (p : A → Bool) (rows : List A) {x : A} → find p rows ≡ some x → p x ≡ true
  unfolding find
  find_sound p [] h = cc
  find_sound p (y ∷ rows) h = elim (Bool-cases (p y)) [
    | inl here ↦ ground (arith, here)
    | inr there ↦ find_sound p rows (rw there at h)
  ]

  pub find-append_self :
      (p : A → Bool) (rows : List A) (row : A)
      → p row ≡ true
      → is_some (find p (rows ++ row ∷ [])) ≡ true
  unfolding find
  find-append_self p [] row h = rw h
  find-append_self p (x ∷ rows) row h = elim (Bool-cases (p x)) [
    | inl here ↦ rw here
    | inr there ↦ rw there (find-append_self p rows row h)
  ]

  -- A new row of a key that no row has is the one found.
  pub find-append_new :
      (p : A → Bool) (rows : List A) (row : A)
      → find p rows ≡ none
      → p row ≡ true
      → find p (rows ++ row ∷ []) ≡ some row
  unfolding find
  find-append_new p [] row absent h = rw h
  find-append_new p (x ∷ rows) row absent h = elim (Bool-cases (p x)) [
    | inl here ↦ cc (rw here at absent)
    | inr there ↦ rw there (find-append_new p rows row (rw there at absent) h)
  ]

module _ {ℓ κ} {A : Type ℓ} {B : Type κ} where
  -- A key that an update leaves alone.
  pub map-update_where :
      (key : A → B) (p : A → Bool) (f : A → A) (rows : List A)
      → ((x : A) → key (f x) ≡ key x)
      → List.map key (update_where p f rows) ≡ List.map key rows
  unfolding update_where
  map-update_where key p f [] same = refl
  map-update_where key p f (x ∷ rows) same = elim (Bool-cases (p x)) [
    | inl here ↦ rw here (rw (same x) (rw (map-update_where key p f rows same)))
    | inr there ↦ rw there (rw (map-update_where key p f rows same))
  ]

  -- A search that looks at the keys only.
  pub map-find :
      (key : A → B) (p : A → Bool) (q : B → Bool) (rows : List A)
      → ((x : A) → q (key x) ≡ p x)
      → Option.map key (find p rows) ≡ find q (List.map key rows)
  unfolding find
  map-find key p q [] same = refl
  map-find key p q (x ∷ rows) same = elim (Bool-cases (p x)) [
    | inl here ↦ rw here (rw (same x) (rw here))
    | inr there ↦ rw there (rw (same x) (rw there (map-find key p q rows same)))
  ]

  pub map-append :
      (key : A → B) (rows : List A) (row : A)
      → List.map key (rows ++ row ∷ []) ≡ List.map key rows ++ key row ∷ []
  map-append key [] row = refl
  map-append key (x ∷ rows) row = rw (map-append key rows row)

module _ {ℓ κ} {A : Type ℓ} (P : A → Type κ) where
  -- What holds of each row, and of each changed one, holds after an update.
  pub All-update_where :
      (p : A → Bool) (f : A → A) (rows : List A)
      → All P rows
      → ((x : A) → P x → P (f x))
      → All P (update_where p f rows)
  unfolding update_where
  All-update_where p f [] all keep = tt
  All-update_where p f (x ∷ rows) all keep = elim (Bool-cases (p x)) [
    | inl here ↦ rw here (keep x all.0, All-update_where p f rows all.1 keep)
    | inr there ↦ rw there (all.0, All-update_where p f rows all.1 keep)
  ]

  pub All-put :
      (p : A → Bool) (row : A) (rows : List A) → All P rows → P row → All P (put p row rows)
  unfolding put
  All-put p row [] all h = (h, tt)
  All-put p row (x ∷ rows) all h = elim (Bool-cases (p x)) [
    | inl here ↦ rw here (h, all.1)
    | inr there ↦ rw there (all.0, All-put p row rows all.1 h)
  ]

  pub All-append : (rows : List A) (row : A) → All P rows → P row → All P (rows ++ row ∷ [])
  All-append [] row all h = (h, tt)
  All-append (x ∷ rows) row all h = (all.0, All-append rows row all.1 h)

  -- What holds of each row holds of the row that is found.
  pub All-find : (p : A → Bool) (rows : List A) {x : A} → All P rows → find p rows ≡ some x → P x
  unfolding find
  All-find p [] all h = cc h
  All-find p (y ∷ rows) {x} all h = elim (Bool-cases (p y)) [
    | inl here ↦ rw (← (some_inj.0 (rw here at h))) all.0
    | inr there ↦ All-find p rows all.1 (rw there at h)
  ]
