-- ===== src/Prelude/Outcome.antt =====
-- Code that raises: a result, and an action on a state that comes back beside the exception too,
-- since what was written before a raise stays written.
use mathlib.Core.Bool.{Bool, true, false}

pub data Result {ℓ} (E A : Type ℓ) : Type ℓ where
  ok : A → Result E A
  err : E → Result E A

abbrev pub Exec : Type 0 → Type 0 → Type 0 → Type 0
Exec E S A = S → Result E A × S

module _ {E S A : Type 0} where
  abbrev pub pure : A → Exec E S A
  pure a s = (ok a, s)

  abbrev pub raise : E → Exec E S A
  raise e s = (err e, s)

module _ {E S A B : Type 0} where
  abbrev pub continue : Result E A → (A → Exec E S B) → S → Result E B × S
  continue (ok a) f s = f a s
  continue (err e) f s = (err e, s)

  infixl 5 ◌>>=◌ ◌>>◌
  abbrev pub ◌>>=◌ : Exec E S A → (A → Exec E S B) → Exec E S B
  ◌>>=◌ m f s = let (r, s') = m s in continue r f s'

  abbrev pub ◌>>◌ : Exec E S A → Exec E S B → Exec E S B
  m >> k = m >>= λ _. k

-- `if test: raise error`
module _ {E S : Type 0} where
  abbrev pub raise_if : Bool → E → Exec E S (Unit {0})
  raise_if true e s = (err e, s)
  raise_if false e s = (ok tt, s)

-- `try: m except Exception as e: h e` and `try: m finally: k`, whose exception wins
module _ {E S A : Type 0} where
  abbrev rescue_with : (E → Exec E S A) → Result E A → S → Result E A × S
  rescue_with h (ok a) s = (ok a, s)
  rescue_with h (err e) s = h e s

  abbrev pub rescue : Exec E S A → (E → Exec E S A) → Exec E S A
  rescue m h s = let (r, s') = m s in rescue_with h r s'

  abbrev pub answer : Result E A → Exec E S A
  answer r s = (r, s)

  abbrev pub finally : Exec E S A → Exec E S (Unit {0}) → Exec E S A
  finally m k s = let (r, s') = m s in (k >> answer r) s'
