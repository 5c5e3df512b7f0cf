-- ===== src/Base/Monad.antt =====
-- Results and actions. A Go function that returns an `error` is a `Result`; one that also reads or
-- writes the world outside it (etcd, files, processes) is an action: what was written before an
-- error stays written, so the world comes back beside the error too.
pub mod Pure
pub mod Exec
pub mod Inversion
use Prim.Native.String.{String}
use Prim.Native.Nat.{ℕ}
use mathlib.Core.Bool.{Bool, true, false}
use mathlib.Core.List.{List}
use lbmanager.Base.Int.{ℤ}

mutual
  -- The errors that the code tells apart. `errorf` is `fmt.Errorf`, with the format and the
  -- arguments kept apart: the program only prints such an error, and never reads it.
  pub data Error : Type 0 where
    -- libkv's store.ErrKeyNotFound, store.ErrKeyModified and store.ErrKeyExists
    key_not_found key_modified key_exists : Error
    -- an error of the operating system that os.IsNotExist recognises
    not_exist : Error
    -- errors.New(text), or an error that comes from outside of the program
    message : String → Error
    errorf : String → Args → Error
    -- a loop's fuel ran out: no error of the program
    out_of_fuel : Error

  pub data Args : Type 0 where
    end : Args
    str : String → Args → Args
    int : ℤ → Args → Args
    ip : List ℕ → Args → Args
    cause : Error → Args → Args

pub data Result {ℓ} (A : Type ℓ) : Type ℓ where
  ok : A → Result A
  err : Error → Result A

abbrev pub is_ok {ℓ} : {A : Type ℓ} → Result A → Bool
is_ok (ok _) = true
is_ok (err _) = false

-- `if cond { return err }` in front of what follows.
abbrev pub unless : Bool → Error → Result (Unit {0})
unless true e = err e
unless false e = ok tt

-- An action on a world `W`.
abbrev pub Exec {ℓ} : Type ℓ → Type ℓ → Type ℓ
Exec W A = W → Result A × W
