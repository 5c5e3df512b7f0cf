-- ===== src/Ipv4/Cidr.antt =====
-- The text of an IPv4 network, and its way back.
use mathlib.Core.Option
use text.Mathlib.TextLemmas.{append-nil, cons-append, nil-append}
use lbmanager.Base.{
  ◌≡◌, refl, ap, ℕ, zero, suc, ◌-◌, ◌*◌, ◌≤◌, ◌<◌, ◌%◌, ◌/◌, String, ◌<>◌, true, some, [], leb,
  nat_eq, arith, Bool-cases, inl, inr, ok,
}
use lbmanager.Base.Split.{Lacks}
use lbmanager.Net.{
  IpNet, ipnet_string, mask_ones, byte_ones, number_and_mask, cidr_mask, before_slash, cidr_address,
  cidr_length, all_zero, parse_cidr, mask_ip, ip_string, decimal, dtoi, to4,
}
use lbmanager.Ipam.Types.{parse_host_cidr}
use lbmanager.Ipv4.{v4, v4_mapped}
use lbmanager.Ipv4.Plain.{ip_string-Lacks}
use lbmanager.Ipv4.Text.{digits-numeral, digits_stop, begins_digit-numeral, parse_ipv4-dotted}

before_slash-append : (p s : String) → Lacks 47 p → before_slash (p <> ("/" <> s)) ≡ some (p, s)
unfolding before_slash
before_slash-append String.[] s h = rw (nil-append, cons-append, nil-append) refl
before_slash-append (String.◌∷◌ c p) s (other, h) =
    rw (cons-append, other, before_slash-append p s h) refl

all_zero-cidr_mask : (k : ℕ) → all_zero (cidr_mask 0 k) ≡ true
unfolding cidr_mask
all_zero-cidr_mask zero = refl
all_zero-cidr_mask (suc k) = all_zero-cidr_mask k

-- A mask whose first byte has zeros.
first_byte : (l k : ℕ) → k < 8 → mask_ones (cidr_mask k (suc l)) ≡ some k
unfolding mask_ones cidr_mask byte_ones
first_byte l zero h = rw (all_zero-cidr_mask l) refl
first_byte l (suc zero) h = rw (all_zero-cidr_mask l) refl
first_byte l (suc (suc zero)) h = rw (all_zero-cidr_mask l) refl
first_byte l (suc (suc (suc zero))) h = rw (all_zero-cidr_mask l) refl
first_byte l (suc (suc (suc (suc zero)))) h = rw (all_zero-cidr_mask l) refl
first_byte l (suc (suc (suc (suc (suc zero))))) h = rw (all_zero-cidr_mask l) refl
first_byte l (suc (suc (suc (suc (suc (suc zero)))))) h = rw (all_zero-cidr_mask l) refl
first_byte l (suc (suc (suc (suc (suc (suc (suc zero))))))) h = rw (all_zero-cidr_mask l) refl
first_byte l (suc (suc (suc (suc (suc (suc (suc (suc k)))))))) h = absurd (omega arith)

pub mask_ones-cidr_mask : (l k : ℕ) → k ≤ l * 8 → mask_ones (cidr_mask k l) ≡ some k
unfolding mask_ones cidr_mask
mask_ones-cidr_mask zero k h = ap some (omega arith)
mask_ones-cidr_mask (suc l) k h = elim (Bool-cases (leb 8 k)) [
  | inl e ↦ rw (cidr_mask, e, mask_ones-cidr_mask l (k - 8) (omega arith)) (ap some (ground arith))
  | inr e ↦ first_byte l k (ground arith)
]

dtoi-decimal : (k : ℕ) → k ≤ 32 → dtoi (decimal k <> "") ≡ some (k, "")
unfolding dtoi decimal
dtoi-decimal k h =
    rw
      (
        begins_digit-numeral k k "" (omega arith),
        digits-numeral k k "" (omega arith),
        digits_stop k "" refl,
      )
      (ground arith)

cidr_length-decimal : (k : ℕ) → k ≤ 32 → cidr_length (decimal k) 32 ≡ some k
cidr_length-decimal k h =
    let e : dtoi (decimal k) ≡ some (k, "") = rw (append-nil (decimal k)) at (dtoi-decimal k h) in
    rw (cidr_length, e) (ground arith)

address-v4 : (n : ℕ) → n < 4294967296 → cidr_address (ip_string (v4 n)) ≡ some (v4_mapped n, 4)
unfolding cidr_address ip_string
address-v4 n h =
    rw
      (
        cidr_address,
        parse_ipv4-dotted (n / 16777216) (n / 65536 % 256) (n / 256 % 256) (n % 256) (omega arith)
            (omega arith) (omega arith) (omega arith),
      )
      refl

-- An IPv4 network with host bits, written as its text.
abbrev pub host_net : ℕ → ℕ → IpNet
host_net n k = record { ip = v4_mapped n; mask = cidr_mask k 4 }

text_of : (n k : ℕ) → k ≤ 32 → ipnet_string (host_net n k) ≡ ip_string (v4 n) <> ("/" <> decimal k)
unfolding ipnet_string number_and_mask to4 cidr_mask
text_of n k h = rw (ipnet_string, mask_ones-cidr_mask 4 k h) refl

network_of : ℕ → ℕ → IpNet
network_of n k = record {
  ip = Option.get_or (mask_ip (v4_mapped n) (cidr_mask k 4)) [];
  mask = cidr_mask k 4;
}

parse_cidr-text :
    (n k : ℕ)
    → n < 4294967296
    → k ≤ 32
    → parse_cidr (ip_string (v4 n) <> ("/" <> decimal k)) ≡ ok (v4_mapped n, network_of n k)
unfolding parse_cidr network_of
parse_cidr-text n k hn hk =
    rw
      (
        parse_cidr,
        before_slash-append (ip_string (v4 n)) (decimal k) (ip_string-Lacks n),
        address-v4 n hn,
        cidr_length-decimal k hk,
      )
      refl

-- ParseCIDR gives the host bits and the mask back.
pub parse_host_cidr-ipnet_string :
    (n k : ℕ)
    → n < 4294967296
    → k ≤ 32
    → parse_host_cidr (ipnet_string (host_net n k)) ≡ ok (host_net n k)
unfolding parse_host_cidr network_of
parse_host_cidr-ipnet_string n k hn hk = rw (text_of n k hk, parse_cidr-text n k hn hk) refl
