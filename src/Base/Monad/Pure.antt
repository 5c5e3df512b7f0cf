-- ===== src/Base/Monad/Pure.antt =====
-- `do` blocks of results: the `if err != nil { return err }` after each call.
use lbmanager.Base.Monad.{Result, ok, err}

infixl 10 ◌>>=◌ ◌>>◌
abbrev pub ◌>>=◌ {ℓ κ} : {A : Type ℓ} {B : Type κ} → Result A → (A → Result B) → Result B
ok a >>= f = f a
err e >>= f = err e

abbrev pub ◌>>◌ {ℓ κ} : {A : Type ℓ} {B : Type κ} → Result A → Result B → Result B
m >> k = m >>= λ _. k
