-- ===== src/Ipv4/Bits.antt =====
-- Setting the last bits of a byte, tried on every byte.
use Prim.Native.Nat.{bit_or}
use lbmanager.Base.{
  ◌≡◌, refl, ℕ, zero, suc, ◌+◌, ◌-◌, ◌*◌, ◌/◌, ◌^◌, ◌<◌, ◌≤◌, Bool, true, false, if◌then◌else◌,
  Bool-cases, inl, inr, ◌==◌, ==_iff, nat_eq, arith,
}

-- A byte with the last bits set; the block has `block` values.
is_filled : (block byte : ℕ) → Bool
is_filled block byte = bit_or byte (block - 1) == byte / block * block + (block - 1)

-- All the bytes before one, from the last to the first.
are_filled : (block count : ℕ) → Bool
are_filled block zero = true
are_filled block (suc byte) =
    let rest = are_filled block byte in if is_filled block byte then rest else false

is_filled-before :
    (block count byte : ℕ)
    → byte < count
    → are_filled block count ≡ true
    → is_filled block byte ≡ true
unfolding are_filled
is_filled-before block (suc count) byte lt full = elim (Bool-cases (byte == count)) [
  | inl same ↦ ground arith
  | inr other ↦ ground (arith, is_filled-before block count byte (ground arith))
]
is_filled-before block zero byte lt full = absurd (omega arith)

bit_or-filled :
    (block : ℕ)
    → are_filled block 256 ≡ true
    → (byte : ℕ) → byte < 256
    → bit_or byte (block - 1) ≡ byte / block * block + (block - 1)
unfolding is_filled
bit_or-filled block full byte lt =
    (==_iff (bit_or byte (block - 1)) (byte / block * block + (block - 1))).0
      (is_filled-before block 256 byte lt full)

-- Of a byte, the first `o` bits and then ones.
pub ones_from :
    (o : ℕ)
    → o ≤ 8
    → (a : ℕ) → a < 256
    → bit_or a (2 ^ (8 - o) - 1) ≡ a / 2 ^ (8 - o) * 2 ^ (8 - o) + (2 ^ (8 - o) - 1)
unfolding are_filled is_filled
ones_from zero h = bit_or-filled 256 refl
ones_from (suc zero) h = bit_or-filled 128 refl
ones_from (suc (suc zero)) h = bit_or-filled 64 refl
ones_from (suc (suc (suc zero))) h = bit_or-filled 32 refl
ones_from (suc (suc (suc (suc zero)))) h = bit_or-filled 16 refl
ones_from (suc (suc (suc (suc (suc zero))))) h = bit_or-filled 8 refl
ones_from (suc (suc (suc (suc (suc (suc zero)))))) h = bit_or-filled 4 refl
ones_from (suc (suc (suc (suc (suc (suc (suc zero))))))) h = bit_or-filled 2 refl
ones_from (suc (suc (suc (suc (suc (suc (suc (suc zero)))))))) h = bit_or-filled 1 refl
ones_from (suc (suc (suc (suc (suc (suc (suc (suc (suc (o)))))))))) h = absurd (omega arith)
