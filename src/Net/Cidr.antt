-- ===== src/Net/Cidr.antt =====
-- net.IPNet: masks, Contains, ParseCIDR.
use mathlib.Core.Option
use Prim.Native.Nat.{bit_and}
use lbmanager.Base.{
  ◌≡◌, refl, ℕ, zero, suc, ◌+◌, ◌-◌, ◌*◌, ◌^◌, code, String, ◌<>◌, Bool, true, false, ◌&&◌, Option,
  none, some, List, [], ◌∷◌, ◌++◌, length, take, drop, leb, ◌==◌, nat_eq, if◌then◌else◌, len,
  errorf, str, end, Result, ok, err,
}
use lbmanager.Net.Address.{Ip, v4_in_v6, to4, bytes_beq}
use lbmanager.Net.Print.{ip_string, decimal, hex_bytes}
use lbmanager.Net.Parse.{dtoi, parse_ipv4, parse_ipv6, v4_rest}

abbrev pub Mask : Type 0
Mask = List ℕ

pub record IpNet : Type 0 where
  pub ip : Ip
  pub mask : Mask

and_bytes : Ip → Mask → Ip
and_bytes (a ∷ xs) (m ∷ ms) = bit_and a m ∷ and_bytes xs ms
and_bytes _ _ = []

abbrev all_ff : Mask → Bool
all_ff [] = true
all_ff (m ∷ ms) = m == 255 && all_ff ms

-- IP.Mask: nil if the lengths do not fit.
unfoldable pub mask_ip : Ip → Mask → Option Ip
unfolding and_bytes
mask_ip ip mask =
    let mask' =
      if length mask == 16 && length ip == 4 && all_ff (take 12 mask) then drop 12 mask else mask in
    let ip' =
      if length mask' == 4 && length ip == 16 && bytes_beq (take 12 ip) v4_in_v6
      then drop 12 ip
      else ip in
    if length ip' == length mask' then some (and_bytes ip' mask') else none

-- Mask.Size: the leading ones and all the bits, or 0 and 0 if the mask is not ones and then zeros.
unfoldable pub byte_ones : ℕ → Option ℕ
byte_ones b =
    if b == 0
    then some 0
    else if b == 128
    then some 1
    else if b == 192
    then some 2
    else if b == 224
    then some 3
    else if b == 240
    then some 4
    else if b == 248
    then some 5
    else if b == 252
    then some 6
    else if b == 254
    then some 7
    else none

abbrev pub all_zero : Mask → Bool
all_zero [] = true
all_zero (m ∷ ms) = m == 0 && all_zero ms

unfoldable pub mask_ones : Mask → Option ℕ
unfolding byte_ones
mask_ones [] = some 0
mask_ones (m ∷ ms) =
    let more = Option.map (λ n. n + 8) (mask_ones ms) in
    if m == 255 then more else if all_zero ms then byte_ones m else none

unfoldable pub mask_size : Mask → ℕ × ℕ
unfolding mask_ones
mask_size mask = elim (mask_ones mask) [ none ↦ (0, 0) | some n ↦ (n, length mask * 8) ]

-- networkNumberAndMask; nil is the pair of empty lists.
unfoldable pub number_and_mask : IpNet → Ip × Mask
unfolding to4
number_and_mask n =
    let ip : Ip = elim (to4 n.ip) [
      | some v4 ↦ v4
      | none ↦ if length n.ip == 16 then n.ip else []
    ] in
    if length ip == 0
    then ([], [])
    else if length n.mask == 4
    then (if length ip == 4 then (ip, n.mask) else ([], []))
    else if length n.mask == 16
    then (ip, if length ip == 4 then drop 12 n.mask else n.mask)
    else ([], [])

-- IPNet.String, of which a mask that is no run of ones is written in hexadecimal.
unfoldable pub ipnet_string : IpNet → String
unfolding number_and_mask mask_ones ip_string decimal hex_bytes
ipnet_string n =
    let (nn, m) = number_and_mask n in
    if length nn == 0 then "<nil>" else elim (mask_ones m) [
      | some k ↦ ip_string nn <> "/" <> decimal k
      | none ↦ ip_string nn <> "/" <> hex_bytes m
    ]

same_under : Ip → Ip → Mask → Bool
same_under (a ∷ xs) (b ∷ ys) (m ∷ ms) = bit_and a m == bit_and b m && same_under xs ys ms
same_under _ _ _ = true

unfoldable pub net_contains : IpNet → Ip → Bool
unfolding number_and_mask same_under
net_contains n ip =
    let (nn, m) = number_and_mask n in
    let x : Ip = elim (to4 ip) [ some v4 ↦ v4 | none ↦ ip ] in
    length x == length nn && same_under nn x m

-- CIDRMask: so many ones over so many bytes.
unfoldable pub cidr_mask : ℕ → ℕ → Mask
cidr_mask ones zero = []
cidr_mask ones (suc k) = (if leb 8 ones then 255 else 256 - 2 ^ (8 - ones)) ∷ cidr_mask (ones - 8) k

unfoldable pub before_slash : String → Option (String × String)
before_slash String.[] = none
before_slash (String.◌∷◌ c s) =
    let rest = before_slash s in
    if code c == b'/' then some ("", s) else Option.map (λ (a, b). (String.◌∷◌ c a, b)) rest

-- The address with the number of its bytes.
unfoldable pub cidr_address : String → Option (Ip × ℕ)
unfolding parse_ipv4 parse_ipv6
cidr_address s = elim (parse_ipv4 s) [
  | some ip ↦ some (ip, 4)
  | none ↦ Option.map (λ ip. (ip, 16)) (parse_ipv6 s)
]

abbrev pub cidr_length : String → ℕ → Option ℕ
cidr_length s bits = elim (dtoi s) [
  | none ↦ none
  | some (n, rest) ↦ if len rest == 0 && leb n bits then some n else none
]

unfoldable pub cidr_parts : String → Option (Ip × IpNet)
unfolding before_slash cidr_address cidr_mask mask_ip dtoi
cidr_parts s = elim (before_slash s) [
  | none ↦ none
  | some (addr, mask) ↦ elim (cidr_address addr) [
    | none ↦ none
    | some (ip, k) ↦ elim (cidr_length mask (8 * k)) [
      | none ↦ none
      | some n ↦
          let m = cidr_mask n k in
          some (ip, record { ip = Option.get_or (mask_ip ip m) []; mask = m })
    ]
  ]
]

unfoldable pub parse_cidr : String → Result (Ip × IpNet)
unfolding cidr_parts
parse_cidr s = elim (cidr_parts s) [
  | none ↦ err (errorf "invalid CIDR address: %s" (str s end))
  | some p ↦ ok p
]

abbrev office : IpNet
office = record { ip = 172 ∷ 11 ∷ 16 ∷ 0 ∷ []; mask = 255 ∷ 255 ∷ 240 ∷ 0 ∷ [] }

parse_office : parse_cidr "172.11.20.5/20" ≡ ok (v4_in_v6 ++ 172 ∷ 11 ∷ 20 ∷ 5 ∷ [], office)
unfolding parse_cidr v4_rest dtoi
parse_office = refl

contains_office :
    (net_contains office (172 ∷ 11 ∷ 31 ∷ 255 ∷ []) ≡ true)
    × (net_contains office (172 ∷ 11 ∷ 32 ∷ 0 ∷ []) ≡ false)
    × (mask_size office.mask ≡ (20, 32))
unfolding net_contains to4 mask_size
contains_office = (refl, refl, refl)
