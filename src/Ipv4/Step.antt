-- ===== src/Ipv4/Step.antt =====
-- The successor and the predecessor of an IPv4 address, pkg/ipam/ip/cidr.go.
use lbmanager.Base.{◌≡◌, refl, ℕ, ◌+◌, ◌<◌, ◌≤◌, arith, nat_eq}
use lbmanager.Ipam.Address.{ip_to_int, int_to_ip, next_ip, prev_ip}
use lbmanager.Ipv4.{v4, v4_mapped}

pub ip_to_int-v4 : (n : ℕ) → ip_to_int (v4 n) ≡ n
unfolding ip_to_int
ip_to_int-v4 n = omega arith

-- Four bytes, the first not 0.
pub int_to_ip-v4 : (n : ℕ) → 16777216 ≤ n → n < 4294967296 → int_to_ip n ≡ v4 n
unfolding int_to_ip
int_to_ip-v4 n lo hi = ground arith

pub next_ip-v4 : (n : ℕ) → 16777215 ≤ n → n < 4294967295 → next_ip (v4 n) ≡ v4 (n + 1)
unfolding next_ip
next_ip-v4 n lo hi = rw ip_to_int-v4 (int_to_ip-v4 (n + 1) (omega arith) (omega arith))

prev_ip-v4 : (n : ℕ) → 16777216 ≤ n → n < 4294967295 → prev_ip (v4 (n + 1)) ≡ v4 n
unfolding prev_ip
prev_ip-v4 n lo hi = rw ip_to_int-v4 (ground (arith, int_to_ip-v4 n))

pub next_ip-v4_mapped : (n : ℕ) → next_ip (v4_mapped n) ≡ next_ip (v4 n)
unfolding next_ip ip_to_int
next_ip-v4_mapped n = refl

-- PrevIP undoes NextIP from 1.0.0.0 up to 255.255.255.254.
prev_ip-next_ip : (n : ℕ) → 16777216 ≤ n → n < 4294967295 → prev_ip (next_ip (v4 n)) ≡ v4 n
prev_ip-next_ip n lo hi = rw (next_ip-v4 n (omega arith) hi) (prev_ip-v4 n lo hi)
