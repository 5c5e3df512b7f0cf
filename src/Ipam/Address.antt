-- ===== src/Ipam/Address.antt =====
-- pkg/ipam/ip/cidr.go. A *big.Int is a number; PrevIP goes below 0 at the zero address, where
-- big.Int.Bytes gives the absolute value, 1.
use lbmanager.Base.{
  ◌≡◌, refl, ℕ, zero, suc, ◌+◌, ◌-◌, ◌*◌, ◌/◌, ◌%◌, true, false, none, some, [], ◌∷◌, ◌==◌, nat_eq,
  if◌then◌else◌,
}
use lbmanager.Net.{Ip, IpNet, to4, to16, mask_ip}

-- big.Int.SetBytes
unfoldable pub set_bytes : ℕ → Ip → ℕ
set_bytes n [] = n
set_bytes n (b ∷ bs) = set_bytes (n * 256 + b) bs

-- big.Int.Bytes: no zeros in front.
unfoldable pub big_bytes : ℕ → ℕ → Ip → Ip
big_bytes zero n acc = acc
big_bytes (suc f) n acc = elim (n == 0) [
  | true ↦ acc
  | false ↦ big_bytes f (n / 256) ((n % 256) ∷ acc)
]

-- A nil slice, which To16 gives for other lengths, has the value 0.
unfoldable pub ip_to_int : Ip → ℕ
unfolding set_bytes to4 to16
ip_to_int ip = elim (to4 ip) [
  | some v ↦ set_bytes 0 v
  | none ↦ elim (to16 ip) [ some v ↦ set_bytes 0 v | none ↦ 0 ]
]

-- Seventeen bytes hold the successor of an address of sixteen.
unfoldable pub int_to_ip : ℕ → Ip
unfolding big_bytes
int_to_ip i = big_bytes 17 i []

unfoldable pub next_ip : Ip → Ip
next_ip ip = int_to_ip (ip_to_int ip + 1)

unfoldable pub prev_ip : Ip → Ip
prev_ip ip = let i = ip_to_int ip in int_to_ip (if i == 0 then 1 else i - 1)

-- A nil address for a mask of another length is the empty list.
unfoldable pub network : IpNet → IpNet
unfolding mask_ip
network ipn = record {
  ip = elim (mask_ip ipn.ip ipn.mask) [ none ↦ [] | some ip ↦ ip ];
  mask = ipn.mask;
}

next_over_byte : next_ip (10 ∷ 0 ∷ 0 ∷ 255 ∷ []) ≡ 10 ∷ 0 ∷ 1 ∷ 0 ∷ []
unfolding next_ip ip_to_int int_to_ip
next_over_byte = refl
