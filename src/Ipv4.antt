-- ===== src/Ipv4.antt =====
-- IPv4 addresses as numbers: their four bytes, and equality.
pub mod Text
pub mod Step
pub mod Plain
pub mod Cidr
pub mod Bits
use lbmanager.Base.{
  ◌≡◌, refl, ℕ, zero, suc, ◌+◌, ◌*◌, ◌/◌, ◌%◌, ◌^◌, ◌<◌, ◌≤◌, Bool, true, false, Option, some, none,
  List, [], ◌∷◌, ◌++◌, arith, ◌==◌, ==_iff, nat_eq, All,
}
use lbmanager.Net.{Ip, to4, equal, bytes_beq, v4_in_v6}

-- The bytes of a number below 2 ^ 32, in the 4-byte form.
abbrev pub v4 : ℕ → Ip
v4 n = (n / 16777216) ∷ (n / 65536 % 256) ∷ (n / 256 % 256) ∷ (n % 256) ∷ []

pub v4_eq : (n m : ℕ) → v4 n ≡ v4 m → n ≡ m
v4_eq n m h = ground arith

pub equal-v4 : (n m : ℕ) → equal (v4 n) (v4 m) ≡ (n == m)
unfolding equal
equal-v4 n m = ground arith

-- The same address in the form that ParseIP gives.
abbrev pub v4_mapped : ℕ → Ip
v4_mapped n = v4_in_v6 ++ v4 n

pub equal-v4_mapped : (n m : ℕ) → equal (v4 n) (v4_mapped m) ≡ (n == m)
unfolding equal
equal-v4_mapped n m = ground arith

pub equal-v4_mapped_left : (n m : ℕ) → equal (v4_mapped n) (v4 m) ≡ (n == m)
unfolding equal
equal-v4_mapped_left n m = ground arith
