-- ===== src/Probe/Exec/Ensures.antt =====
-- Postconditions of operations that may fail: what holds of every value that is returned.
use mathlib.Core.Path.{subst}
use soroprobe.Prelude.{◌≡◌, refl, ◌⊎◌, inl, inr, Result, ok, err}
use soroprobe.Errors.{Error}
use soroprobe.Probe.Exec.{Exec, continue, ◌>>=◌}

abbrev pub Ensures : {A : Type 0} → (A → Type 0) → Result Error A → Type 0
Ensures P (ok a) = P a
Ensures P (err e) = Unit

module _ {S A B : Type 0} (P : B → Type 0) where
  continue-Ensures :
      (r : Result Error A) (f : A → Exec S B) (s : S)
      → ((a : A) → r ≡ ok a → Ensures P (f a s).0)
      → Ensures P (continue r f s).0
  continue-Ensures (ok a) f s h = h a refl
  continue-Ensures (err e) f s h = tt

  -- A chain ensures `P` if what follows does, from every value and state that the first part leaves.
  pub bind-Ensures :
      (m : Exec S A) (f : A → Exec S B) (s : S)
      → ((a : A) → (m s).0 ≡ ok a → Ensures P (f a (m s).1).0)
      → Ensures P ((m >>= f) s).0
  bind-Ensures m f s h = continue-Ensures (m s).0 f (m s).1 h

module _ {S A B : Type 0} where
  continue-eq-err :
      (r : Result Error A) (f : A → Exec S B) (s : S) (e : Error)
      → (continue r f s).0 ≡ err e
      → (r ≡ err e) ⊎ ((a : A) × (r ≡ ok a) × ((f a s).0 ≡ err e))
  continue-eq-err (ok a) f s e h = inr (a, refl, h)
  continue-eq-err (err x) f s e h = inl cc

  -- The error of a chain is its first part's, or that of what follows.
  pub bind-eq-err :
      (m : Exec S A) (f : A → Exec S B) (s : S) (e : Error)
      → ((m >>= f) s).0 ≡ err e
      → ((m s).0 ≡ err e) ⊎ ((a : A) × ((m s).0 ≡ ok a) × ((f a (m s).1).0 ≡ err e))
  bind-eq-err m f s e h = continue-eq-err (m s).0 f (m s).1 e h

module _ {A : Type 0} (P : A → Type 0) where
  -- What is ensured holds of a value that was returned.
  pub Ensures-ok : (r : Result Error A) (a : A) → Ensures P r → r ≡ ok a → P a
  Ensures-ok (ok b) a h e = subst P (cc) h
  Ensures-ok (err x) a h e = absurd cc
