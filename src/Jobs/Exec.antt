-- ===== src/Jobs/Exec.antt =====
-- Statements that run against the database and may fail. There is no transaction around them: what
-- was written before a failure stays written, so the database comes back beside the error too.
use revtern.Prelude.{String, ◌+◌, Option, none, some}
use revtern.Runtime.{Runtime}
use revtern.Core.{new_id}
use revtern.Jobs.Tables.{Db}

-- The errors that the worker's calls end with: no row where one was asked for, a sum outside
-- `bigint`, and the two that the code raises itself.
pub data Error : Type 0 where
  row_not_found out_of_range missing_raw_event_id app_not_assigned : Error

pub data Result (A : Type 0) : Type 0 where
  ok : A → Result A
  err : Error → Result A

abbrev pub Exec : Type 0 → Type 0 → Type 0
Exec V A = Db V → Result A × Db V

module _ {V A B : Type 0} where
  abbrev pub continue : Result A → (A → Exec V B) → Exec V B
  continue (ok a) f db = f a db
  continue (err e) f db = (err e, db)

  infixl 5 ◌>>=◌ ◌>>◌
  unfoldable pub ◌>>=◌ : Exec V A → (A → Exec V B) → Exec V B
  ◌>>=◌ m f db = let (r, db') = m db in continue r f db'

  abbrev pub ◌>>◌ : Exec V A → Exec V B → Exec V B
  m >> k = m >>= λ _. k

module _ {V A : Type 0} where
  abbrev pub pure : A → Exec V A
  pure a db = (ok a, db)

  abbrev pub lift : Result A → Exec V A
  lift r db = (r, db)

  abbrev pub gets : (Db V → A) → Exec V A
  gets f db = (ok (f db), db)

module _ {V : Type 0} where
  abbrev pub modify : (Db V → Db V) → Exec V (Unit {0})
  modify f db = (ok tt, f db)

-- `fetch_one`, and `context(…)` on an `Option`.
abbrev pub some_or : {A : Type 0} → Error → Option A → Result A
some_or e none = err e
some_or e (some a) = ok a

module _ (rt : Runtime) where
  open rt use {Value}

  unfoldable pub draw_id : String → Exec Value String
  draw_id prefix db =
      (ok (new_id rt db.ids_drawn prefix), record db { ids_drawn = db.ids_drawn + 1 })
