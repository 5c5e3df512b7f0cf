-- ===== src/Ipam/Allocator/Network/Low.antt =====
-- The last address of a network whose mask ends in the third or the fourth byte.
use lbmanager.Base.{ℕ, zero, suc, ◌+◌, ◌/◌, ◌%◌, ◌<◌, arith, nat_eq}
use lbmanager.Net.{cidr_mask}
use lbmanager.Ipv4.Bits.{ones_from}
use lbmanager.Ipam.Allocator.Range.{or_not, dec_fourth}
use lbmanager.Ipam.Allocator.Network.{EndsAt, last}

-- The network ends in the third byte.
pub ends_third : (o n : ℕ) → o < 8 → n < 4294967296 → EndsAt n (16 + o)
unfolding EndsAt dec_fourth or_not cidr_mask last
ends_third zero n lt h = ground (
  arith,
  ones_from 8 (omega arith) (n / 16777216),
  ones_from 8 (omega arith) (n / 65536 % 256),
  ones_from 0 (omega arith) (n / 256 % 256),
  ones_from 0 (omega arith) (n % 256),
)
ends_third (suc zero) n lt h = ground (
  arith,
  ones_from 8 (omega arith) (n / 16777216),
  ones_from 8 (omega arith) (n / 65536 % 256),
  ones_from 1 (omega arith) (n / 256 % 256),
  ones_from 0 (omega arith) (n % 256),
)
ends_third (suc (suc zero)) n lt h = ground (
  arith,
  ones_from 8 (omega arith) (n / 16777216),
  ones_from 8 (omega arith) (n / 65536 % 256),
  ones_from 2 (omega arith) (n / 256 % 256),
  ones_from 0 (omega arith) (n % 256),
)
ends_third (suc (suc (suc zero))) n lt h = ground (
  arith,
  ones_from 8 (omega arith) (n / 16777216),
  ones_from 8 (omega arith) (n / 65536 % 256),
  ones_from 3 (omega arith) (n / 256 % 256),
  ones_from 0 (omega arith) (n % 256),
)
ends_third (suc (suc (suc (suc zero)))) n lt h = ground (
  arith,
  ones_from 8 (omega arith) (n / 16777216),
  ones_from 8 (omega arith) (n / 65536 % 256),
  ones_from 4 (omega arith) (n / 256 % 256),
  ones_from 0 (omega arith) (n % 256),
)
ends_third (suc (suc (suc (suc (suc zero))))) n lt h = ground (
  arith,
  ones_from 8 (omega arith) (n / 16777216),
  ones_from 8 (omega arith) (n / 65536 % 256),
  ones_from 5 (omega arith) (n / 256 % 256),
  ones_from 0 (omega arith) (n % 256),
)
ends_third (suc (suc (suc (suc (suc (suc zero)))))) n lt h = ground (
  arith,
  ones_from 8 (omega arith) (n / 16777216),
  ones_from 8 (omega arith) (n / 65536 % 256),
  ones_from 6 (omega arith) (n / 256 % 256),
  ones_from 0 (omega arith) (n % 256),
)
ends_third (suc (suc (suc (suc (suc (suc (suc zero))))))) n lt h = ground (
  arith,
  ones_from 8 (omega arith) (n / 16777216),
  ones_from 8 (omega arith) (n / 65536 % 256),
  ones_from 7 (omega arith) (n / 256 % 256),
  ones_from 0 (omega arith) (n % 256),
)
ends_third (suc (suc (suc (suc (suc (suc (suc (suc (o))))))))) n lt h = absurd (omega arith)

-- The network ends in the fourth byte.
pub ends_fourth : (o n : ℕ) → o < 7 → n < 4294967296 → EndsAt n (24 + o)
unfolding EndsAt dec_fourth or_not cidr_mask last
ends_fourth zero n lt h = ground (
  arith,
  ones_from 8 (omega arith) (n / 16777216),
  ones_from 8 (omega arith) (n / 65536 % 256),
  ones_from 8 (omega arith) (n / 256 % 256),
  ones_from 0 (omega arith) (n % 256),
)
ends_fourth (suc zero) n lt h = ground (
  arith,
  ones_from 8 (omega arith) (n / 16777216),
  ones_from 8 (omega arith) (n / 65536 % 256),
  ones_from 8 (omega arith) (n / 256 % 256),
  ones_from 1 (omega arith) (n % 256),
)
ends_fourth (suc (suc zero)) n lt h = ground (
  arith,
  ones_from 8 (omega arith) (n / 16777216),
  ones_from 8 (omega arith) (n / 65536 % 256),
  ones_from 8 (omega arith) (n / 256 % 256),
  ones_from 2 (omega arith) (n % 256),
)
ends_fourth (suc (suc (suc zero))) n lt h = ground (
  arith,
  ones_from 8 (omega arith) (n / 16777216),
  ones_from 8 (omega arith) (n / 65536 % 256),
  ones_from 8 (omega arith) (n / 256 % 256),
  ones_from 3 (omega arith) (n % 256),
)
ends_fourth (suc (suc (suc (suc zero)))) n lt h = ground (
  arith,
  ones_from 8 (omega arith) (n / 16777216),
  ones_from 8 (omega arith) (n / 65536 % 256),
  ones_from 8 (omega arith) (n / 256 % 256),
  ones_from 4 (omega arith) (n % 256),
)
ends_fourth (suc (suc (suc (suc (suc zero))))) n lt h = ground (
  arith,
  ones_from 8 (omega arith) (n / 16777216),
  ones_from 8 (omega arith) (n / 65536 % 256),
  ones_from 8 (omega arith) (n / 256 % 256),
  ones_from 5 (omega arith) (n % 256),
)
ends_fourth (suc (suc (suc (suc (suc (suc zero)))))) n lt h = ground (
  arith,
  ones_from 8 (omega arith) (n / 16777216),
  ones_from 8 (omega arith) (n / 65536 % 256),
  ones_from 8 (omega arith) (n / 256 % 256),
  ones_from 6 (omega arith) (n % 256),
)
ends_fourth (suc (suc (suc (suc (suc (suc (suc (o)))))))) n lt h = absurd (omega arith)
