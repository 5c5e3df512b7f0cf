-- ===== src/Net/Parse.antt =====
-- net.ParseIP. An IPv4 address comes back in its 16-byte form.
use mathlib.Core.Option
use lbmanager.Base.{
  ◌≡◌, refl, ℕ, zero, suc, ◌+◌, ◌-◌, ◌*◌, ◌/◌, ◌%◌, code, String, Bool, true, false, ◌&&◌, ◌||◌,
  not, Option, none, some, [], ◌∷◌, ◌++◌, length, take, drop, replicate, ltb, leb, ◌==◌, nat_eq,
  if◌then◌else◌,
}
use lbmanager.Net.Address.{Ip, v4_in_v6}

abbrev pub is_digit : ℕ → Bool
is_digit c = leb b'0' c && leb c b'9'

-- The digits in front of a text: their value, and what follows them.
unfoldable pub digits : ℕ → String → ℕ × String
digits n String.[] = (n, "")
digits n (String.◌∷◌ c s) = elim (is_digit (code c)) [
  | true ↦ digits (n * 10 + (code c - b'0')) s
  | false ↦ (n, String.◌∷◌ c s)
]

-- 0xFFFFFF: a larger number is refused while it is read.
abbrev big : ℕ
big = 16777215

abbrev small : ℕ × String → Option (ℕ × String)
small (n, rest) = if leb big n then none else some (n, rest)

abbrev pub begins_digit : String → Bool
begins_digit String.[] = false
begins_digit (String.◌∷◌ c s) = is_digit (code c)

unfoldable pub dtoi : String → Option (ℕ × String)
unfolding digits
dtoi s = if begins_digit s then small (digits 0 s) else none

abbrev pub octet : Option (ℕ × String) → Option (ℕ × String)
octet none = none
octet (some (n, rest)) = if ltb 255 n then none else some (n, rest)

-- So many bytes, each behind a dot, and then the end.
unfoldable pub v4_rest : ℕ → String → Option Ip
v4_rest zero String.[] = some []
v4_rest zero (String.◌∷◌ c s) = none
v4_rest (suc k) String.[] = none
v4_rest (suc k) (String.◌∷◌ c s) = elim (code c == b'.') [
  | true ↦ elim (octet (dtoi s)) [
    | none ↦ none
    | some (n, r) ↦ Option.map (λ b. n ∷ b) (v4_rest k r)
  ]
  | false ↦ none
]

unfoldable pub parse_ipv4 : String → Option Ip
parse_ipv4 s = elim (octet (dtoi s)) [
  | none ↦ none
  | some (n, r) ↦ Option.map (λ b. v4_in_v6 ++ (n ∷ b)) (v4_rest 3 r)
]

-- The value of a hexadecimal digit.
abbrev hex_value : ℕ → Option ℕ
hex_value c =
    if is_digit c
    then some (c - b'0')
    else if leb b'a' c && leb c b'f'
    then some (c - b'a' + 10)
    else if leb b'A' c && leb c b'F'
    then some (c - b'A' + 10)
    else none

hex_digits : ℕ → String → ℕ × String
hex_digits n String.[] = (n, "")
hex_digits n (String.◌∷◌ c s) = elim (hex_value (code c)) [
  | some d ↦ hex_digits (n * 16 + d) s
  | none ↦ (n, String.◌∷◌ c s)
]

abbrev word : ℕ × String → Option (ℕ × String)
word (n, rest) = if ltb 65535 n then none else some (n, rest)

-- xtoi, with the test `n > 0xFFFF` behind it.
xtoi_word : String → Option (ℕ × String)
unfolding hex_digits
xtoi_word String.[] = none
xtoi_word (String.◌∷◌ c s) = elim (hex_value (code c)) [
  | none ↦ none
  | some _ ↦ word (hex_digits 0 (String.◌∷◌ c s))
]

abbrev begins : ℕ → String → Bool
begins k String.[] = false
begins k (String.◌∷◌ c s) = code c == k

abbrev tail_text : String → String
tail_text String.[] = ""
tail_text (String.◌∷◌ c s) = s

abbrev is_empty : String → Bool
is_empty String.[] = true
is_empty (String.◌∷◌ c s) = false

abbrev is_none : Option ℕ → Bool
is_none none = true
is_none (some _) = false

-- The bytes read, the place of `::` among them, and the text that is left.
abbrev Partial : Type 0
Partial = Ip × Option ℕ × String

-- The dotted tail of an IPv6 address.
v4_tail : Ip → Option ℕ → String → Option Partial
v4_tail acc ellipsis s =
    if is_none ellipsis && not (length acc == 12)
    then none
    else if ltb 16 (length acc + 4)
    then none
    else Option.map (λ b. (acc ++ drop 12 b, ellipsis, "")) (parse_ipv4 s)

-- What stands behind a group: the end, or a colon and more, with `::` once at most. The loop goes
-- on with the text in the last place, unless the flag says that it is over.
after_group : Ip → Option ℕ → String → Option (Partial × Bool)
after_group acc ellipsis rest =
    if is_empty rest
    then some ((acc, ellipsis, ""), true)
    else if not (begins b':' rest) || is_empty (tail_text rest)
    then none
    else if begins b':' (tail_text rest)
    then (if is_none ellipsis
        then (let s = tail_text (tail_text rest) in some ((acc, some (length acc), s), is_empty s))
        else none)
    else some ((acc, ellipsis, tail_text rest), false)

-- At most eight groups.
v6_loop : ℕ → Partial → Option Partial
unfolding xtoi_word v4_tail after_group parse_ipv4 v4_rest dtoi
v6_loop zero p = some p
v6_loop (suc k) (acc, ellipsis, s) = elim (xtoi_word s) [
  | none ↦ none
  | some (n, rest) ↦ elim (begins b'.' rest) [
    | true ↦ v4_tail acc ellipsis s
    | false ↦ elim (after_group (acc ++ (n / 256) ∷ (n % 256) ∷ []) ellipsis rest) [
      | none ↦ none
      | some (p, true) ↦ some p
      | some (p, false) ↦ v6_loop k p
    ]
  ]
]

-- Expands `::`, and refuses what has not the right length or has text left.
v6_finish : Partial → Option Ip
v6_finish (acc, none, s) = if is_empty s && length acc == 16 then some acc else none
v6_finish (acc, some e, s) =
    if is_empty s && ltb (length acc) 16
    then some (take e acc ++ (replicate (16 - length acc) 0 ++ drop e acc))
    else none

unfoldable pub parse_ipv6 : String → Option Ip
unfolding v6_loop v6_finish
parse_ipv6 s =
    let double = begins b':' s && begins b':' (tail_text s) in
    let rest = if double then tail_text (tail_text s) else s in
    let start : Option ℕ = if double then some 0 else none in
    if double && is_empty rest
    then some (replicate 16 0)
    else elim (v6_loop 8 ([], start, rest)) [ none ↦ none | some p ↦ v6_finish p ]

-- The first dot or colon tells the two forms apart.
unfoldable pub by_mark : String → String → Option Ip
by_mark whole String.[] = none
by_mark whole (String.◌∷◌ c s) =
    if code c == b'.'
    then parse_ipv4 whole
    else if code c == b':'
    then parse_ipv6 whole
    else by_mark whole s

unfoldable pub parse_ip : String → Option Ip
parse_ip s = by_mark s s

loopback : parse_ip "127.0.0.1" ≡ some (v4_in_v6 ++ 127 ∷ 0 ∷ 0 ∷ 1 ∷ [])
unfolding parse_ip by_mark parse_ipv4 parse_ipv6 v4_rest dtoi
loopback = refl

short_v6 : parse_ip "::ffff:10.0.0.7" ≡ parse_ip "10.0.0.7"
unfolding parse_ip by_mark parse_ipv4 parse_ipv6 v4_rest dtoi
short_v6 = refl

refused : (parse_ip "10.0.0" ≡ none) × (parse_ip "10.0.0.256" ≡ none) × (parse_ip "1:2" ≡ none)
unfolding parse_ip by_mark parse_ipv4 parse_ipv6 v4_rest dtoi
refused = (refl, refl, refl)
