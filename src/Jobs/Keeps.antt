-- ===== src/Jobs/Keeps.antt =====
-- A property of the database that a statement keeps, whether it returns or fails; one rule for each
-- way to put statements together.
use revtern.Prelude.{Bool, true, false, ◌≡◌, refl, if◌then◌else◌}
use revtern.Jobs.Tables.{Db}
use revtern.Jobs.Exec.{Exec, Result, ok, err, pure, lift, gets, continue, ◌>>=◌}

pub record Keeps {V A : Type 0} (P : Db V → Type 0) (m : Exec V A) : Type 0 where
  pub after : (db : Db V) → P db → P (m db).1

module _ {V A : Type 0} {P : Db V → Type 0} where
  pub Keeps-pure : (a : A) → Keeps P (pure a)
  Keeps-pure a = record { after = λ db h. h }

  pub Keeps-lift : (r : Result A) → Keeps P (lift r)
  Keeps-lift r = record { after = λ db h. h }

  pub Keeps-gets : (f : Db V → A) → Keeps P (gets f)
  Keeps-gets f = record { after = λ db h. h }

  pub Keeps-if : (b : Bool) (m n : Exec V A) → Keeps P m → Keeps P n → Keeps P (if b then m else n)
  Keeps-if true m n km kn = km
  Keeps-if false m n km kn = kn

module _ {V A B : Type 0} {P : Db V → Type 0} where
  pub Keeps-bind :
      (first : Exec V A) (next : A → Exec V B)
      → Keeps P first
      → ((a : A) → Keeps P (next a))
      → Keeps P (first >>= next)
  unfolding ◌>>=◌
  Keeps-bind first next kept each = record {
    after = λ db h. go (first db).0 (first db).1 (kept.after db h);
  }
    where
      go : (r : Result A) (db' : Db V) → P db' → P (continue r next db').1
      go (ok a) db' h = (each a).after db' h
      go (err e) db' h = h

pub ruleset keeps_rules = (Keeps-pure, Keeps-lift, Keeps-gets, Keeps-if, Keeps-bind)

-- The same, with what is known of the value if there is one.
pub record Ensures {V A : Type 0} (P : Db V → Type 0) (Q : A → Type 0) (m : Exec V A) : Type 0 where
  pub after : (db : Db V) → P db → P (m db).1
  pub value : (db : Db V) → P db → (a : A) → (m db).0 ≡ ok a → Q a

module _ {V A B : Type 0} {P : Db V → Type 0} {Q : A → Type 0} where
  pub Keeps-bind-Ensures :
      (m : Exec V A) (f : A → Exec V B)
      → Ensures P Q m
      → ((a : A) → Q a → Keeps P (f a))
      → Keeps P (m >>= f)
  unfolding ◌>>=◌
  Keeps-bind-Ensures m f em kf = record {
    after = λ db h. go (m db).0 (m db).1 (em.after db h) (em.value db h);
  }
    where
      go : (r : Result A) (db' : Db V) → P db' → ((a : A) → r ≡ ok a → Q a) → P (continue r f db').1
      go (ok a) db' h q = (kf a (q a refl)).after db' h
      go (err e) db' h q = h

-- What a statement that succeeds turns into `Q`, from `P`.
pub record Turns {V A : Type 0} (P Q : Db V → Type 0) (m : Exec V A) : Type 0 where
  pub done : (db : Db V) → P db → (a : A) → (m db).0 ≡ ok a → Q (m db).1

module _ {V A B : Type 0} {P Q : Db V → Type 0} where
  -- The first statement does it, and the rest keeps it.
  pub Turns-bind :
      (first : Exec V A) (next : A → Exec V B)
      → Turns P Q first
      → ((a : A) → Keeps Q (next a))
      → Turns P Q (first >>= next)
  unfolding ◌>>=◌
  Turns-bind first next turned each = record {
    done = λ db h b. go (first db).0 (first db).1 (turned.done db h) b;
  }
    where
      go :
          (r : Result A) (db' : Db V)
          → ((a : A) → r ≡ ok a → Q db')
          → (b : B) → (continue r next db').0 ≡ ok b
          → Q (continue r next db').1
      go (ok a) db' q b e = (each a).after db' (q a refl)
      go (err x) db' q b e = cc e

  -- The first statement keeps `P`, and the rest does it.
  pub Turns-after :
      (first : Exec V A) (next : A → Exec V B)
      → Keeps P first
      → ((a : A) → Turns P Q (next a))
      → Turns P Q (first >>= next)
  unfolding ◌>>=◌
  Turns-after first next kept each = record {
    done = λ db h b. go (first db).0 (first db).1 (kept.after db h) b;
  }
    where
      go :
          (r : Result A) (db' : Db V)
          → P db'
          → (b : B) → (continue r next db').0 ≡ ok b
          → Q (continue r next db').1
      go (ok a) db' p b e = (each a).done db' p b e
      go (err x) db' p b e = cc e
