-- ===== src/Base/Monad/Inversion.antt =====
-- What a chain of results that ended in a value says of its steps.
use mathlib.Core.Path.{◌≡◌, refl}
use mathlib.Core.Bool.{Bool, true, false}
use lbmanager.Base.Monad.{Error, Result, ok, err, unless, is_ok}
use lbmanager.Base.Monad.Pure.{◌>>=◌}

pub ok_inj {ℓ} : {A : Type ℓ} {a b : A} → ok a ≡ ok b → a ≡ b
ok_inj h = cc

pub bind_ok {ℓ κ} :
    {A : Type ℓ} {B : Type κ} {b : B} (m : Result A) (f : A → Result B)
    → (m >>= f) ≡ ok b
    → (a : A) × (m ≡ ok a) × (f a ≡ ok b)
bind_ok (ok a) f h = (a, refl, h)
bind_ok (err e) f h = absurd (cc)

pub unless_ok {ℓ} :
    {B : Type ℓ} {b : B} (e : Error) (cond : Bool) (f : Unit {0} → Result B)
    → (unless cond e >>= f) ≡ ok b
    → (cond ≡ false) × (f tt ≡ ok b)
unless_ok e true f h = absurd cc
unless_ok e false f h = (refl, h)

pub is_ok-ok {ℓ} : {A : Type ℓ} (r : Result A) → is_ok r ≡ true → (a : A) × (r ≡ ok a)
is_ok-ok (ok a) h = (a, refl)
is_ok-ok (err e) h = absurd cc

pub is_ok-err {ℓ} : {A : Type ℓ} (r : Result A) → is_ok r ≡ false → (e : Error) × (r ≡ err e)
is_ok-err (ok a) h = absurd cc
is_ok-err (err e) h = (e, refl)
