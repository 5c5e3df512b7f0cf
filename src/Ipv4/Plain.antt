-- ===== src/Ipv4/Plain.antt =====
-- The characters of the text of an IPv4 address.
use text.Mathlib.TextLemmas.{append-nil}
use lbmanager.Base.{
  ◌≡◌, refl, ℕ, ◌/◌, ◌%◌, ◌<◌, String, ◌<>◌, false, [], ◌∷◌, ◌==◌, ==_iff, string_eq, none, nat_eq,
  arith,
}
use lbmanager.Base.Split.{Lacks, Lacks-append}
use lbmanager.Net.{decimal, digit_char, numeral, dotted, ip_string, parse_ip, by_mark, is_digit}
use lbmanager.Ipv4.{v4}
use lbmanager.Ipv4.Text.{numeral_induction, is_digit-digit_char, ip_string-v4_ne}

digit-Lacks :
    (sep d : ℕ) (t : String)
    → is_digit sep ≡ false
    → d < 10
    → Lacks sep t
    → Lacks sep (String.◌∷◌ (digit_char d) t)
digit-Lacks sep d t other lt h = (ground (arith, is_digit-digit_char d lt), h)

-- No character but a digit is in the text of a number.
pub decimal-Lacks : (sep n : ℕ) → is_digit sep ≡ false → Lacks sep (decimal n)
unfolding decimal
decimal-Lacks sep n other =
    rw (append-nil (numeral 10 n n)) at
      (numeral_induction (Lacks sep) (λ d t. digit-Lacks sep d t other) n n "" (omega arith) tt)

-- A number, a dot and a text.
dot-Lacks : (n : ℕ) (t : String) → Lacks 47 t → Lacks 47 (decimal n <> ("." <> t))
dot-Lacks n t h =
    Lacks-append 47 (decimal n) ("." <> t) (decimal-Lacks 47 n refl)
      (Lacks-append 47 "." t (refl, tt) h)

dotted-Lacks : (a b c d : ℕ) → Lacks 47 (dotted (a ∷ b ∷ c ∷ d ∷ []))
unfolding dotted
dotted-Lacks a b c d = dot-Lacks a _ (dot-Lacks b _ (dot-Lacks c _ (decimal-Lacks 47 d refl)))

-- No slash (47) is in the text of an address.
pub ip_string-Lacks : (n : ℕ) → Lacks 47 (ip_string (v4 n))
unfolding ip_string
ip_string-Lacks n = dotted-Lacks (n / 16777216) (n / 65536 % 256) (n / 256 % 256) (n % 256)

pub no_address : parse_ip "" ≡ none
unfolding parse_ip by_mark
no_address = refl

-- The text of an address is not empty.
pub ip_string_nonempty : (n : ℕ) → n < 4294967296 → (ip_string (v4 n) == "") ≡ false
ip_string_nonempty n h =
    ground (arith, ==_iff (ip_string (v4 n)) "", ip_string-v4_ne n "" h no_address)
