-- ===== src/Lbm/Service/Port.antt =====
-- The port that allocVIP makes of a granted address.
use text.Mathlib.TextLemmas.{append-nil}
use lbmanager.Base.{
  ◌≡◌, ◌≢◌, Char, refl, ap, ◌∙◌, ℕ, ◌+◌, ◌-◌, ◌*◌, ◌/◌, ◌%◌, String, code, some, [], ◌∷◌, split,
  arith, Bool-cases, inl, inr,
}
use lbmanager.Base.Split.{Lacks, split-join, join}
use lbmanager.Net.{decimal, digits, dotted, ip_string, is_digit, numeral}
use lbmanager.Ipv4.{v4}
use lbmanager.Ipv4.Plain.{decimal-Lacks}
use lbmanager.Ipv4.Text.{digits-numeral, digits_stop, dotted-cons}
use lbmanager.Lbm.Service.{atoi_from, last_octet}

not_empty : (c : Char) (s : String) → String.◌∷◌ c s ≢ ""
not_empty c s h = absurd cc

atoi_from-digits : (n m : ℕ) (s : String) → digits n s ≡ (m, "") → atoi_from n s ≡ m
unfolding atoi_from digits
atoi_from-digits n m String.[] h = ap (λ x. x.0) h
atoi_from-digits n m (String.◌∷◌ c s) h = elim (Bool-cases (is_digit (code c))) [
  | inl e ↦ atoi_from-digits (n * 10 + (code c - 48)) m s (rw (digits, e) at h)
  | inr e ↦ absurd (not_empty c s (ap (λ x. x.1) (rw (digits, e) at h)))
]

atoi-decimal : (n : ℕ) → atoi_from 0 (decimal n) ≡ n
unfolding decimal
atoi-decimal n = atoi_from-digits 0 n (numeral 10 n n) (
    rw (append-nil (numeral 10 n n)) at (digits-numeral n n "" (omega arith))
    ∙ digits_stop n "" refl)

dotless : (n : ℕ) → Lacks 46 (decimal n)
dotless n = decimal-Lacks 46 n refl

split-dotted :
    (a b c d : ℕ)
    → split 46 (dotted (a ∷ b ∷ c ∷ d ∷ [])) ≡ decimal a ∷ decimal b ∷ decimal c ∷ decimal d ∷ []
unfolding join
split-dotted a b c d =
    rw (dotted-cons a b c d, append-nil)
      (split-join "." (decimal a) (decimal b ∷ decimal c ∷ decimal d ∷ [])
        (dotless a, (dotless b, (dotless c, (dotless d, tt)))))

-- What allocVIP takes from the text of an address is its last byte.
pub last_octet-split : (n : ℕ) → last_octet (split 46 (ip_string (v4 n))) ≡ some (n % 256)
unfolding ip_string last_octet
last_octet-split n =
    rw (split-dotted (n / 16777216) (n / 65536 % 256) (n / 256 % 256) (n % 256))
      (ap some (atoi-decimal (n % 256)))
