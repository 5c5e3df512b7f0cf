-- ===== src/Base/Int.antt =====
-- Go's `int` fields, which may be negative: integers over the native numbers.
use Prim.Native.Nat.{ℕ, suc, ◌+◌, ◌-◌, ◌≤◌}
use mathlib.Core.Path.{◌≡◌}
use mathlib.Core.Logic.{◌↔◌}
use mathlib.Core.Bool.{Bool, true, false}
use native.Mathlib.Omega.{arith}
use lbmanager.Base.Tests.{Eq, ltb, ◌==◌, nat_eq, if◌then◌else◌}

-- `negsuc n` is -(n + 1).
pub data ℤ : Type 0 where
  pos : ℕ → ℤ
  negsuc : ℕ → ℤ

abbrev is_same_int : ℤ → ℤ → Bool
is_same_int (pos a) (pos b) = a == b
is_same_int (negsuc a) (negsuc b) = a == b
is_same_int _ _ = false

pub is_same_int_iff : (a b : ℤ) → (is_same_int a b ≡ true) ↔ (a ≡ b)
is_same_int_iff (pos a) (pos b) = ground arith
is_same_int_iff (pos a) (negsuc b) = ground arith
is_same_int_iff (negsuc a) (pos b) = ground arith
is_same_int_iff (negsuc a) (negsuc b) = ground arith

instance abbrev pub int_eq : Eq ℤ
int_eq = record { same = is_same_int; decides = is_same_int_iff }

-- `a > k` for a bound k that is not negative.
abbrev pub gtb : ℤ → ℕ → Bool
gtb (pos n) k = ltb k n
gtb (negsuc n) k = false

-- `a < k`, `a <= 0` and `a < 0`.
abbrev pub below : ℤ → ℕ → Bool
below (pos n) k = ltb n k
below (negsuc n) k = true

abbrev pub not_positive : ℤ → Bool
not_positive a = below a 1

abbrev pub negative : ℤ → Bool
negative a = below a 0

-- a + n.
abbrev pub add_nat : ℤ → ℕ → ℤ
add_nat (pos a) n = pos (a + n)
add_nat (negsuc a) n = if ltb a n then pos (n - suc a) else negsuc (a - n)

-- lo ≤ a ≤ hi.
abbrev pub InRange : ℕ → ℕ → ℤ → Type 0
InRange lo hi (pos n) = (lo ≤ n) × (n ≤ hi)
InRange lo hi (negsuc n) = ⊥
