-- ===== src/Ipv4/Text.antt =====
-- The text of an IPv4 address, and its way back.
use lbmanager.Base.{
  ◌≡◌, ◌≢◌, refl, ap, ◌∙◌, ℕ, zero, suc, ◌+◌, ◌*◌, ◌/◌, ◌%◌, ◌<◌, ◌≤◌, true, false, some, none,
  ◌++◌, [], ◌∷◌, arith, Bool-cases, inl, inr, ltb→lt, nat_eq, Char, String, ◌<>◌, code, ltb,
}
use mathlib.Core.Option
use text.Mathlib.TextLemmas.{append-nil, append_assoc, cons-append, nil-append}
use lbmanager.Net.{
  to4, decimal, v4_in_v6, dtoi, parse_ip, parse_ipv4, ip_string, digit, digit_char, digits, numeral,
  is_digit, begins_digit, by_mark, octet, v4_rest, dotted,
}
use lbmanager.Ipv4.{v4, v4_eq}

cons-text : (c : Char) (s : String) → String.◌∷◌ c "" <> s ≡ String.◌∷◌ c s
cons-text c s = rw (cons-append, nil-append)

digits-digit_char :
    (d m : ℕ) (s : String) → d < 10 → digits m (String.◌∷◌ (digit_char d) s) ≡ digits (m * 10 + d) s
unfolding digits
digits-digit_char zero m s h = refl
digits-digit_char (suc zero) m s h = refl
digits-digit_char (suc (suc zero)) m s h = refl
digits-digit_char (suc (suc (suc zero))) m s h = refl
digits-digit_char (suc (suc (suc (suc zero)))) m s h = refl
digits-digit_char (suc (suc (suc (suc (suc zero))))) m s h = refl
digits-digit_char (suc (suc (suc (suc (suc (suc zero)))))) m s h = refl
digits-digit_char (suc (suc (suc (suc (suc (suc (suc zero))))))) m s h = refl
digits-digit_char (suc (suc (suc (suc (suc (suc (suc (suc zero)))))))) m s h = refl
digits-digit_char (suc (suc (suc (suc (suc (suc (suc (suc (suc zero))))))))) m s h = refl
digits-digit_char (suc (suc (suc (suc (suc (suc (suc (suc (suc (suc d)))))))))) m s h =
    absurd (omega arith)

module _ {ℓ} (P : String → Type ℓ) where
  -- What a digit in front keeps, a numeral in front keeps.
  pub numeral_induction :
      ((d : ℕ) (t : String) → d < 10 → P t → P (String.◌∷◌ (digit_char d) t))
      → (f n : ℕ) (s : String) → n ≤ f
      → P s
      → P (numeral 10 f n <> s)
  unfolding numeral
  numeral_induction step zero n s le p = rw cons-text (step n s (omega arith) p)
  numeral_induction step (suc f) n s le p = elim (Bool-cases (ltb n 10)) [
    | inl small ↦ rw (small, cons-text) (step n s (ltb→lt n 10 small) p)
    | inr large ↦
        rw (large, append_assoc, cons-text)
          (numeral_induction step f (n / 10) (String.◌∷◌ (digit_char (n % 10)) s) (ground arith)
            (step (n % 10) s (omega arith) p))
  ]

pub digits-numeral : (f n : ℕ) (s : String) → n ≤ f → digits 0 (numeral 10 f n <> s) ≡ digits n s
unfolding numeral
digits-numeral zero n s le =
    rw cons-text (digits-digit_char n 0 s (omega arith) ∙ ap (λ k. digits k s) (omega arith))
digits-numeral (suc f) n s le = elim (Bool-cases (ltb n 10)) [
  | inl small ↦
      rw (small, cons-text)
        (digits-digit_char n 0 s (ltb→lt n 10 small) ∙ ap (λ k. digits k s) (omega arith))
  | inr large ↦
      rw (large, append_assoc, cons-text)
        (digits-numeral f (n / 10) (String.◌∷◌ (digit_char (n % 10)) s) (ground arith)
          ∙ (digits-digit_char (n % 10) (n / 10) s (omega arith)
              ∙ ap (λ k. digits k s) (omega arith)))
]

pub is_digit-digit_char : (d : ℕ) → d < 10 → is_digit (code (digit_char d)) ≡ true
is_digit-digit_char (suc (suc (suc (suc (suc (suc (suc (suc (suc (suc d)))))))))) h =
    absurd (omega arith)
is_digit-digit_char _ h = refl

pub begins_digit-numeral :
    (f n : ℕ) (s : String) → n ≤ f → begins_digit (numeral 10 f n <> s) ≡ true
unfolding numeral
begins_digit-numeral zero n s le = rw cons-text (is_digit-digit_char n (omega arith))
begins_digit-numeral (suc f) n s le = elim (Bool-cases (ltb n 10)) [
  | inl small ↦ rw (small, cons-text) (is_digit-digit_char n (ltb→lt n 10 small))
  | inr large ↦
      rw (large, append_assoc)
        (begins_digit-numeral f (n / 10) (digit (n % 10) <> s) (ground arith))
]

pub digits_stop : (n : ℕ) (s : String) → begins_digit s ≡ false → digits n s ≡ (n, s)
unfolding digits
digits_stop n String.[] h = refl
digits_stop n (String.◌∷◌ c s) h = rw (digits, h)

octet-decimal :
    (n : ℕ) (s : String)
    → n < 256
    → begins_digit s ≡ false
    → octet (dtoi (decimal n <> s)) ≡ some (n, s)
unfolding dtoi decimal
octet-decimal n s lt h =
    rw
      (
        begins_digit-numeral n n s (omega arith),
        digits-numeral n n s (omega arith),
        digits_stop n s h,
      )
      (ground arith)

v4_rest-decimal :
    (k n : ℕ) (s : String)
    → n < 256
    → begins_digit s ≡ false
    → v4_rest (suc k) (String.◌∷◌ "." (decimal n <> s)) ≡ Option.map (λ b. n ∷ b) (v4_rest k s)
unfolding v4_rest
v4_rest-decimal k n s lt h = rw (v4_rest, octet-decimal n s lt h)

by_mark_digit :
    (w : String) (c : Char) (t : String)
    → is_digit (code c) ≡ true
    → by_mark w (String.◌∷◌ c t) ≡ by_mark w t
unfolding by_mark
by_mark_digit w c t h = ground arith

by_mark-decimal : (w : String) (n : ℕ) (s : String) → by_mark w (decimal n <> s) ≡ by_mark w s
unfolding decimal
by_mark-decimal w n s =
    numeral_induction (λ t. by_mark w t ≡ by_mark w s)
      (λ d t lt ih. by_mark_digit w (digit_char d) t (is_digit-digit_char d lt) ∙ ih) n n s
      (omega arith) refl

dot_text : (s : String) → "." <> s ≡ String.◌∷◌ "." s
dot_text s = cons-text "." s

pub dotted-cons :
    (a b c d : ℕ)
    → dotted (a ∷ b ∷ c ∷ d ∷ [])
      ≡ decimal a
        <> String.◌∷◌ "."
            (decimal b <> String.◌∷◌ "." (decimal c <> String.◌∷◌ "." (decimal d <> "")))
unfolding dotted
dotted-cons a b c d = simp (dot_text, append-nil)

pub parse_ipv4-dotted :
    (a b c d : ℕ)
    → a < 256
    → b < 256
    → c < 256
    → d < 256
    → parse_ipv4 (dotted (a ∷ b ∷ c ∷ d ∷ [])) ≡ some (v4_in_v6 ++ a ∷ b ∷ c ∷ d ∷ [])
unfolding parse_ipv4
parse_ipv4-dotted a b c d ha hb hc hd = rw dotted-cons (
    rw
      (
        parse_ipv4,
        octet-decimal a _ ha refl,
        v4_rest-decimal 2 b _ hb refl,
        v4_rest-decimal 1 c _ hc refl,
        v4_rest-decimal 0 d "" hd refl,
      )
      (unfold v4_rest in refl))

by_mark_dot : (w t : String) → by_mark w (String.◌∷◌ "." t) ≡ parse_ipv4 w
unfolding by_mark
by_mark_dot w t = refl

parse_ip-dotted :
    (a b c d : ℕ)
    → a < 256
    → b < 256
    → c < 256
    → d < 256
    → parse_ip (dotted (a ∷ b ∷ c ∷ d ∷ [])) ≡ some (v4_in_v6 ++ a ∷ b ∷ c ∷ d ∷ [])
unfolding parse_ip
parse_ip-dotted a b c d ha hb hc hd =
    (rw dotted-cons (by_mark-decimal _ a _ ∙ by_mark_dot _ _))
    ∙ parse_ipv4-dotted a b c d ha hb hc hd

-- Parsing the text of an IPv4 address gives the address, in the 16-byte form.
pub parse_ip-ip_string :
    (n : ℕ) → n < 4294967296 → parse_ip (ip_string (v4 n)) ≡ some (v4_in_v6 ++ v4 n)
unfolding ip_string
parse_ip-ip_string n h =
    parse_ip-dotted (n / 16777216) (n / 65536 % 256) (n / 256 % 256) (n % 256) (omega arith)
      (omega arith) (omega arith) (omega arith)

-- Two addresses with one text are one address.
pub ip_string-v4_inj :
    (n m : ℕ) → n < 4294967296 → m < 4294967296 → ip_string (v4 n) ≡ ip_string (v4 m) → n ≡ m
ip_string-v4_inj n m hn hm h =
    v4_eq n m (ground (arith, parse_ip-ip_string n hn, parse_ip-ip_string m hm, ap parse_ip h))

-- No text that does not parse is the text of an address.
pub ip_string-v4_ne :
    (n : ℕ) (s : String) → n < 4294967296 → parse_ip s ≡ none → ip_string (v4 n) ≢ s
ip_string-v4_ne n s h p e = ground (arith, parse_ip-ip_string n h, ap parse_ip e)

-- The bytes behind the prefix are the 4-byte form again.
pub ip_string-v4_in_v6 : (n : ℕ) → ip_string (v4_in_v6 ++ v4 n) ≡ ip_string (v4 n)
unfolding ip_string to4
ip_string-v4_in_v6 n = refl
