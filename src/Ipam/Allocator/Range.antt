-- ===== src/Ipam/Allocator/Range.antt =====
-- allocator.go: canonicalizeIP, validateRangeIP and networkRange.
use Prim.Native.Nat.{bit_or}
use lbmanager.Base.{
  ◌+◌, ◌-◌, ◌%◌, Bool, true, false, not, Option, none, some, [], ◌∷◌, length, ltb, ◌==◌, nat_eq,
  if◌then◌else◌, errorf, ip, end, message, Result, ok, err, unless,
}
use lbmanager.Base.Monad.Pure.{◌>>=◌, ◌>>◌}
use lbmanager.Net.{Ip, Mask, IpNet, to4, to16, net_contains}

unfoldable pub canonicalize_ip : Ip → Result Ip
unfolding to4 to16
canonicalize_ip a = elim (to4 a) [
  | some v ↦ ok v
  | none ↦ elim (to16 a) [ some v ↦ ok v | none ↦ err (errorf "IP %s not v4 nor v6" (ip a end)) ]
]

-- The loop over the bytes of `ip` and `start`, up to the first pair that differs.
unfoldable pub before_start : Ip → Ip → Bool
before_start (a ∷ xs) (b ∷ ys) =
    let rest = before_start xs ys in if ltb b a then false else if ltb a b then true else rest
before_start _ _ = false

-- The loop over the bytes of `ip` and `end`.
unfoldable pub after_end : Ip → Ip → Bool
after_end (a ∷ xs) (b ∷ ys) =
    let rest = after_end xs ys in if ltb a b then false else if ltb b a then true else rest
after_end _ _ = false

-- One of the two bounds, if it is given.
unfoldable pub check_bound : (Ip → Ip → Bool) → Ip → Option Ip → Result (Unit {0})
unfolding canonicalize_ip
check_bound outside a none = ok tt
check_bound outside a (some bound) = do
  b ← canonicalize_ip bound
  unless (not (length a == length b)) (errorf "%s not same size IP address as %s" (ip a (ip b end)))
  unless (outside a b) (errorf "%s outside of network with bound %s" (ip a (ip b end)))

unfoldable pub validate_range_ip : Ip → IpNet → Option Ip → Option Ip → Result (Unit {0})
unfolding canonicalize_ip check_bound before_start after_end
validate_range_ip a ipnet start last = do
  b ← canonicalize_ip a
  unless (not (net_contains ipnet b)) (errorf "%s not in network: %s" (ip b (ip ipnet.ip end)))
  check_bound before_start b start
  check_bound after_end b last

-- ip[i] | ^mask[i]; a byte's complement.
unfoldable pub or_not : Ip → Mask → Ip
or_not (a ∷ xs) (m ∷ ms) = bit_or a (255 - m) ∷ or_not xs ms
or_not _ _ = []

-- end[3]--, which wraps at 0.
unfoldable pub dec_fourth : Ip → Ip
dec_fourth (a ∷ b ∷ c ∷ d ∷ r) = a ∷ b ∷ c ∷ ((d + 255) % 256) ∷ r
dec_fourth r = r

abbrev is_v4 : Option Ip → Bool
is_v4 none = false
is_v4 (some _) = true

unfoldable pub network_range : IpNet → Result (Ip × Ip)
unfolding canonicalize_ip or_not dec_fourth to4
network_range ipnet = do
  unless (length ipnet.ip == 0) (message "missing field \"subnet\" in IPAM configuration")
  a ← canonicalize_ip ipnet.ip
  unless (not (length a == length ipnet.mask)) (message "IPNet IP and Mask version mismatch")
  let last = or_not a ipnet.mask
  ok (ipnet.ip, if is_v4 (to4 a) then dec_fourth last else last)
