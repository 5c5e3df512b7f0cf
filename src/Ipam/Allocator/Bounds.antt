-- ===== src/Ipam/Allocator/Bounds.antt =====
-- validateRangeIP on IPv4 addresses: the comparison byte by byte is that of the numbers.
use mathlib.Core.Path.{ap₂}
use lbmanager.Base.{
  ◌≡◌, refl, ◌∙◌, ℕ, ◌&&◌, some, nat_eq, arith, ltb, leb, is_ok, Bool-cases, inl, inr, Result, ok,
  err,
}
use lbmanager.Base.Monad.Pure.{◌>>◌}
use lbmanager.Net.{Ip, IpNet, net_contains}
use lbmanager.Ipv4.{v4, v4_mapped}
use lbmanager.Ipam.Allocator.Range.{
  before_start, after_end, canonicalize_ip, validate_range_ip, check_bound,
}

pub before_start-v4 : (n m : ℕ) → before_start (v4 n) (v4 m) ≡ ltb n m
unfolding before_start
before_start-v4 n m = ground arith

pub after_end-v4 : (n m : ℕ) → after_end (v4 n) (v4 m) ≡ ltb m n
unfolding after_end
after_end-v4 n m = ground arith

canonicalize_ip-v4 : (n : ℕ) → canonicalize_ip (v4 n) ≡ ok (v4 n)
unfolding canonicalize_ip
canonicalize_ip-v4 n = refl

canonicalize_ip-v4_mapped : (n : ℕ) → canonicalize_ip (v4_mapped n) ≡ ok (v4 n)
unfolding canonicalize_ip
canonicalize_ip-v4_mapped n = refl

check_start : (n m : ℕ) → is_ok (check_bound before_start (v4 n) (some (v4 m))) ≡ leb m n
unfolding check_bound
check_start n m = ground (arith, before_start-v4 n m)

check_end : (n m : ℕ) → is_ok (check_bound after_end (v4 n) (some (v4 m))) ≡ leb n m
unfolding check_bound
check_end n m = ground (arith, after_end-v4 n m)

both_ok : (m k : Result (Unit {0})) → is_ok (m >> k) ≡ (is_ok m && is_ok k)
both_ok (ok _) k = refl
both_ok (err e) k = refl

validated :
    (c : Ip) (net : IpNet) (n lo hi : ℕ)
    → canonicalize_ip c ≡ ok (v4 n)
    → is_ok (validate_range_ip c net (some (v4 lo)) (some (v4 hi)))
      ≡ (net_contains net (v4 n) && (leb lo n && leb n hi))
unfolding validate_range_ip
validated c net n lo hi e = elim (Bool-cases (net_contains net (v4 n))) [
  | inl y ↦
      rw (validate_range_ip, e, y)
        (both_ok (check_bound before_start (v4 n) (some (v4 lo)))
            (check_bound after_end (v4 n) (some (v4 hi)))
          ∙ ap₂ ◌&&◌ (check_start n lo) (check_end n hi))
  | inr y ↦ rw (validate_range_ip, e, y)
]

-- An IPv4 address, in either form, is accepted exactly when the network contains it and its number
-- is not below that of the start and not above that of the end.
pub validate_range_ip-v4 :
    (net : IpNet) (n lo hi : ℕ)
    → (is_ok (validate_range_ip (v4 n) net (some (v4 lo)) (some (v4 hi)))
        ≡ (net_contains net (v4 n) && (leb lo n && leb n hi)))
      × (is_ok (validate_range_ip (v4_mapped n) net (some (v4 lo)) (some (v4 hi)))
          ≡ (net_contains net (v4 n) && (leb lo n && leb n hi)))
validate_range_ip-v4 net n lo hi = (
  validated (v4 n) net n lo hi (canonicalize_ip-v4 n),
  validated (v4_mapped n) net n lo hi (canonicalize_ip-v4_mapped n),
)
