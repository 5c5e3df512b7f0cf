-- ===== src/Base/Monad/Exec.antt =====
-- `do` blocks of actions.
use lbmanager.Base.Monad.{Error, Result, ok, err, Exec}

module _ {ℓ} {W A : Type ℓ} where
  abbrev pub pure : A → Exec W A
  pure a w = (ok a, w)

  abbrev pub raise : Error → Exec W A
  raise e w = (err e, w)

  abbrev pub lift : Result A → Exec W A
  lift r w = (r, w)

module _ {ℓ} {W A B : Type ℓ} where
  abbrev pub continue : Result A → (A → Exec W B) → Exec W B
  continue (ok a) f w = f a w
  continue (err e) f w = (err e, w)

  infixl 10 ◌>>=◌ ◌>>◌
  abbrev pub ◌>>=◌ : Exec W A → (A → Exec W B) → Exec W B
  ◌>>=◌ m f w = let (r, w') = m w in continue r f w'

  abbrev pub ◌>>◌ : Exec W A → Exec W B → Exec W B
  m >> n = m >>= λ _. n

  -- `r, err := m` where the code goes on whatever `err` is.
  abbrev pub attempt : Exec W A → (Result A → Exec W B) → Exec W B
  attempt m f w = let (r, w') = m w in f r w'
