-- ===== src/Ipam/Allocator/Network/Start.antt =====
-- NewIPAllocator on an IPv4 network, with the bits of a host.
use native.Mathlib.Nat.{pow-succ', zero-add, suc-add, div-lt_iff_lt-mul}
use lbmanager.Base.{
  ◌≡◌, refl, ap, ◌∙◌, ℕ, zero, suc, ◌+◌, ◌-◌, ◌*◌, ◌/◌, ◌%◌, ◌^◌, ◌<◌, ◌≤◌, String, false, ok, ltb,
  nat_eq, arith, Bool-cases, inl, inr,
}
use lbmanager.Net.{cidr_mask, mask_size, to4}
use lbmanager.Ipv4.{v4, v4_mapped}
use lbmanager.Ipv4.Step.{next_ip-v4, next_ip-v4_mapped}
use lbmanager.Ipv4.Cidr.{host_net, mask_ones-cidr_mask}
use lbmanager.Ipam.Backend.{Store}
use lbmanager.Ipam.Allocator.Range.{network_range, canonicalize_ip}
use lbmanager.Ipam.Allocator.Config.{IpAllocator, new_ipam_conf, new_ip_allocator}
use lbmanager.Ipam.Allocator.Search.{IsRange}
use lbmanager.Ipam.Allocator.Network.{EndsAt, last}
use lbmanager.Ipam.Allocator.Network.High.{ends_first, ends_second}
use lbmanager.Ipam.Allocator.Network.Low.{ends_third, ends_fourth}

mask_size-cidr_mask : (k : ℕ) → k ≤ 32 → mask_size (cidr_mask k 4) ≡ (k, 32)
unfolding mask_size cidr_mask
mask_size-cidr_mask k h = rw (mask_size, mask_ones-cidr_mask 4 k h) refl

large_enough : (k : ℕ) → k ≤ 30 → ltb 32 (k + 2) ≡ false
large_enough k h = ground arith

at_byte : (n a k : ℕ) → a + (k - a) ≡ k → EndsAt n (a + (k - a)) → EndsAt n k
at_byte n a k e h = rw e at h

ends : (n k : ℕ) → n < 4294967296 → k ≤ 30 → EndsAt n k
ends n k lt h = elim (Bool-cases (ltb k 8)) [
  | inl e ↦ ends_first k n (ground arith) lt
  | inr e ↦ elim (Bool-cases (ltb k 16)) [
    | inl e' ↦ at_byte n 8 k (ground arith) (ends_second (k - 8) n (ground arith) lt)
    | inr e' ↦ elim (Bool-cases (ltb k 24)) [
      | inl e2 ↦ at_byte n 16 k (ground arith) (ends_third (k - 16) n (ground arith) lt)
      | inr e2 ↦ at_byte n 24 k (ground arith) (ends_fourth (k - 24) n (ground arith) lt)
    ]
  ]
]

network_range-host_net :
    (n k : ℕ)
    → n < 4294967296
    → k ≤ 30
    → network_range (host_net n k) ≡ ok (v4_mapped n, v4 (last n k))
unfolding network_range canonicalize_ip to4 cidr_mask EndsAt
network_range-host_net n k lt h = rw (ends n k lt h) refl

-- The allocator of a network.
abbrev pub allocator_of : {W : Type 0} → String → ℕ → ℕ → Store W → IpAllocator W
allocator_of name n k st = record {
  start = v4 (n + 1);
  end = v4 (last n k);
  conf = new_ipam_conf name (host_net n k);
  store = st;
}

pub new_ip_allocator-host_net :
    {W : Type 0} (name : String) (n k : ℕ) (st : Store W)
    → 16777215 ≤ n
    → n < 4294967295
    → k ≤ 30
    → new_ip_allocator (new_ipam_conf name (host_net n k)) st ≡ ok (allocator_of name n k st)
unfolding new_ip_allocator new_ipam_conf
new_ip_allocator-host_net name n k st lo hi h =
    rw
      (
        new_ip_allocator,
        mask_size-cidr_mask k (omega arith),
        large_enough k h,
        network_range-host_net n k (omega arith) h,
        next_ip-v4_mapped n,
        next_ip-v4 n lo hi,
      )
      refl

pow_add : (a b : ℕ) → 2 ^ a * 2 ^ b ≡ 2 ^ (a + b)
pow_add zero b = rw zero-add (omega arith)
pow_add (suc a) b =
    let step : 2 ^ (suc a + b) ≡ 2 * 2 ^ (a + b) = rw suc-add (pow-succ' 2 (a + b)) in
    rw (step, pow-succ' 2 a) (grind (arith, pow_add a b))

quotient : (n p : ℕ) → n / p * p + n % p ≡ n
quotient n p = grind arith

block_end : (n p q : ℕ) → 0 < p → n < p * q → n / p * p + p ≤ p * q
block_end n p q pos h =
    let small : n / p < q = (div-lt_iff_lt-mul pos).1 (grind arith) in grind arith

last_bounds :
    (n k : ℕ)
    → 16777215 ≤ n
    → n < 4294967295
    → k ≤ 30
    → n % 2 ^ (32 - k) + 3 ≤ 2 ^ (32 - k)
    → (n + 1 ≤ last n k) × (last n k < 4294967296)
unfolding last
last_bounds n k lo hi h fits =
    let bits : (32 - k) + k ≡ 32 = omega arith in
    let whole : 2 ^ (32 - k) * 2 ^ k ≡ 4294967296 = pow_add (32 - k) k ∙ ap (λ e. 2 ^ e) bits in
    omega (
      arith,
      quotient n (2 ^ (32 - k)),
      block_end n (2 ^ (32 - k)) (2 ^ k) (omega arith) (omega (arith, whole)),
      whole,
    )

-- On an IPv4 network as ParseCIDR gives it, with its host of 0.255.255.255 or more, a mask of 30
-- bits at most and at least two addresses behind the host: NewIPAllocator succeeds, and the range
-- of its allocator begins right behind the host and ends right before the network's last address.
pub new_ip_allocator-IsRange :
    {W : Type 0} (name : String) (n k : ℕ) (st : Store W) (lo : 16777215 ≤ n) (hi : n < 4294967295)
    (le : k ≤ 30) (fits : n % 2 ^ (32 - k) + 3 ≤ 2 ^ (32 - k))
    → (new_ip_allocator (new_ipam_conf name (host_net n k)) st ≡ ok (allocator_of name n k st))
      × IsRange
          (allocator_of name n k st)
          (n + 1)
          (n / 2 ^ (32 - k) * 2 ^ (32 - k) + (2 ^ (32 - k) - 2))
unfolding last
new_ip_allocator-IsRange name n k st lo hi le fits =
    let (ordered, bounded) = last_bounds n k lo hi le fits in
    (
      new_ip_allocator-host_net name n k st lo hi le,
      record {
        start_lem = refl;
        end_lem = refl;
        positive = omega arith;
        ordered = ordered;
        bounded = bounded;
      },
    )
