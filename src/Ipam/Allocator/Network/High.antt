-- ===== src/Ipam/Allocator/Network/High.antt =====
-- The last address of a network whose mask ends in the first or the second byte: that byte has some
-- of its bits set, and those behind it all of them.
use lbmanager.Base.{ℕ, zero, suc, ◌+◌, ◌/◌, ◌%◌, ◌<◌, arith, nat_eq}
use lbmanager.Net.{cidr_mask}
use lbmanager.Ipv4.Bits.{ones_from}
use lbmanager.Ipam.Allocator.Range.{or_not, dec_fourth}
use lbmanager.Ipam.Allocator.Network.{EndsAt, last}

-- The network ends in the first byte.
pub ends_first : (o n : ℕ) → o < 8 → n < 4294967296 → EndsAt n (o)
unfolding EndsAt dec_fourth or_not cidr_mask last
ends_first zero n lt h = ground (
  arith,
  ones_from 0 (omega arith) (n / 16777216),
  ones_from 0 (omega arith) (n / 65536 % 256),
  ones_from 0 (omega arith) (n / 256 % 256),
  ones_from 0 (omega arith) (n % 256),
)
ends_first (suc zero) n lt h = ground (
  arith,
  ones_from 1 (omega arith) (n / 16777216),
  ones_from 0 (omega arith) (n / 65536 % 256),
  ones_from 0 (omega arith) (n / 256 % 256),
  ones_from 0 (omega arith) (n % 256),
)
ends_first (suc (suc zero)) n lt h = ground (
  arith,
  ones_from 2 (omega arith) (n / 16777216),
  ones_from 0 (omega arith) (n / 65536 % 256),
  ones_from 0 (omega arith) (n / 256 % 256),
  ones_from 0 (omega arith) (n % 256),
)
ends_first (suc (suc (suc zero))) n lt h = ground (
  arith,
  ones_from 3 (omega arith) (n / 16777216),
  ones_from 0 (omega arith) (n / 65536 % 256),
  ones_from 0 (omega arith) (n / 256 % 256),
  ones_from 0 (omega arith) (n % 256),
)
ends_first (suc (suc (suc (suc zero)))) n lt h = ground (
  arith,
  ones_from 4 (omega arith) (n / 16777216),
  ones_from 0 (omega arith) (n / 65536 % 256),
  ones_from 0 (omega arith) (n / 256 % 256),
  ones_from 0 (omega arith) (n % 256),
)
ends_first (suc (suc (suc (suc (suc zero))))) n lt h = ground (
  arith,
  ones_from 5 (omega arith) (n / 16777216),
  ones_from 0 (omega arith) (n / 65536 % 256),
  ones_from 0 (omega arith) (n / 256 % 256),
  ones_from 0 (omega arith) (n % 256),
)
ends_first (suc (suc (suc (suc (suc (suc zero)))))) n lt h = ground (
  arith,
  ones_from 6 (omega arith) (n / 16777216),
  ones_from 0 (omega arith) (n / 65536 % 256),
  ones_from 0 (omega arith) (n / 256 % 256),
  ones_from 0 (omega arith) (n % 256),
)
ends_first (suc (suc (suc (suc (suc (suc (suc zero))))))) n lt h = ground (
  arith,
  ones_from 7 (omega arith) (n / 16777216),
  ones_from 0 (omega arith) (n / 65536 % 256),
  ones_from 0 (omega arith) (n / 256 % 256),
  ones_from 0 (omega arith) (n % 256),
)
ends_first (suc (suc (suc (suc (suc (suc (suc (suc (o))))))))) n lt h = absurd (omega arith)

-- The network ends in the second byte.
pub ends_second : (o n : ℕ) → o < 8 → n < 4294967296 → EndsAt n (8 + o)
unfolding EndsAt dec_fourth or_not cidr_mask last
ends_second zero n lt h = ground (
  arith,
  ones_from 8 (omega arith) (n / 16777216),
  ones_from 0 (omega arith) (n / 65536 % 256),
  ones_from 0 (omega arith) (n / 256 % 256),
  ones_from 0 (omega arith) (n % 256),
)
ends_second (suc zero) n lt h = ground (
  arith,
  ones_from 8 (omega arith) (n / 16777216),
  ones_from 1 (omega arith) (n / 65536 % 256),
  ones_from 0 (omega arith) (n / 256 % 256),
  ones_from 0 (omega arith) (n % 256),
)
ends_second (suc (suc zero)) n lt h = ground (
  arith,
  ones_from 8 (omega arith) (n / 16777216),
  ones_from 2 (omega arith) (n / 65536 % 256),
  ones_from 0 (omega arith) (n / 256 % 256),
  ones_from 0 (omega arith) (n % 256),
)
ends_second (suc (suc (suc zero))) n lt h = ground (
  arith,
  ones_from 8 (omega arith) (n / 16777216),
  ones_from 3 (omega arith) (n / 65536 % 256),
  ones_from 0 (omega arith) (n / 256 % 256),
  ones_from 0 (omega arith) (n % 256),
)
ends_second (suc (suc (suc (suc zero)))) n lt h = ground (
  arith,
  ones_from 8 (omega arith) (n / 16777216),
  ones_from 4 (omega arith) (n / 65536 % 256),
  ones_from 0 (omega arith) (n / 256 % 256),
  ones_from 0 (omega arith) (n % 256),
)
ends_second (suc (suc (suc (suc (suc zero))))) n lt h = ground (
  arith,
  ones_from 8 (omega arith) (n / 16777216),
  ones_from 5 (omega arith) (n / 65536 % 256),
  ones_from 0 (omega arith) (n / 256 % 256),
  ones_from 0 (omega arith) (n % 256),
)
ends_second (suc (suc (suc (suc (suc (suc zero)))))) n lt h = ground (
  arith,
  ones_from 8 (omega arith) (n / 16777216),
  ones_from 6 (omega arith) (n / 65536 % 256),
  ones_from 0 (omega arith) (n / 256 % 256),
  ones_from 0 (omega arith) (n % 256),
)
ends_second (suc (suc (suc (suc (suc (suc (suc zero))))))) n lt h = ground (
  arith,
  ones_from 8 (omega arith) (n / 16777216),
  ones_from 7 (omega arith) (n / 65536 % 256),
  ones_from 0 (omega arith) (n / 256 % 256),
  ones_from 0 (omega arith) (n % 256),
)
ends_second (suc (suc (suc (suc (suc (suc (suc (suc (o))))))))) n lt h = absurd (omega arith)
