-- ===== src/Probe/Exec.antt =====
-- Operations that change a state and may return a Go error; what was changed stays changed.
pub mod Ensures
use soroprobe.Prelude.{Option, none, some, Result, ok, err}
use soroprobe.Errors.{Error}

abbrev pub Exec : Type 0 → Type 0 → Type 0
Exec S A = S → Result Error A × S

module _ {S A : Type 0} where
  abbrev pub pure : A → Exec S A
  pure a s = (ok a, s)

  abbrev pub raise : Error → Exec S A
  raise e s = (err e, s)

  abbrev pub lift : Result Error A → Exec S A
  lift r s = (r, s)

module _ {S A B : Type 0} where
  abbrev pub continue : Result Error A → (A → Exec S B) → Exec S B
  continue (ok a) f s = f a s
  continue (err e) f s = (err e, s)

  infixl 5 ◌>>=◌
  abbrev pub ◌>>=◌ : Exec S A → (A → Exec S B) → Exec S B
  ◌>>=◌ m f s = let (r, s') = m s in continue r f s'
