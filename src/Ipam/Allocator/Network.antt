-- ===== src/Ipam/Allocator/Network.antt =====
-- The last address of an IPv4 network in NewIPAllocator.
pub mod High
pub mod Low
pub mod Start
use lbmanager.Base.{◌≡◌, ℕ, ◌+◌, ◌-◌, ◌*◌, ◌/◌, ◌^◌}
use lbmanager.Net.{cidr_mask}
use lbmanager.Ipv4.{v4}
use lbmanager.Ipam.Allocator.Range.{or_not, dec_fourth}

-- The last address of the network but one.
unfoldable pub last : ℕ → ℕ → ℕ
last n k = n / 2 ^ (32 - k) * 2 ^ (32 - k) + (2 ^ (32 - k) - 2)

-- What networkRange makes of the address and the mask.
unfoldable pub EndsAt : ℕ → ℕ → Type 0
EndsAt n k = dec_fourth (or_not (v4 n) (cidr_mask k 4)) ≡ v4 (last n k)
