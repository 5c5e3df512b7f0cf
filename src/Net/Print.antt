-- ===== src/Net/Print.antt =====
-- net.IP.String
use lbmanager.Base.{
  ◌≡◌, refl, ℕ, zero, suc, ◌+◌, ◌*◌, ◌/◌, ◌%◌, Char, String, ◌<>◌, none, some, List, [], ◌∷◌,
  length, take, drop, ltb, leb, ◌==◌, nat_eq, if◌then◌else◌,
}
use lbmanager.Net.Address.{Ip, to4}

abbrev nth : List Char → ℕ → Char
nth [] n = "?"
nth (x ∷ xs) zero = x
nth (x ∷ xs) (suc n) = nth xs n

-- One digit, of a base up to 16.
abbrev pub digit_char : ℕ → Char
digit_char = nth (
    "0" ∷ "1" ∷ "2" ∷ "3" ∷ "4" ∷ "5" ∷ "6" ∷ "7" ∷ "8" ∷ "9" ∷ "a" ∷ "b" ∷ "c" ∷ "d" ∷ "e" ∷ "f"
    ∷ [])

abbrev pub digit : ℕ → String
digit d = String.◌∷◌ (digit_char d) ""

-- A number in a base. As many rounds as the number are enough.
unfoldable pub numeral : ℕ → ℕ → ℕ → String
numeral base zero n = digit n
numeral base (suc f) n =
    let front = numeral base f (n / base) in
    if ltb n base then digit n else front <> digit (n % base)

-- uitoa
unfoldable pub decimal : ℕ → String
decimal n = numeral 10 n n

hex : ℕ → String
unfolding numeral
hex n = numeral 16 n n

-- Two digits to a byte.
unfoldable pub hex_bytes : Ip → String
hex_bytes [] = ""
hex_bytes (b ∷ r) = digit (b / 16) <> digit (b % 16) <> hex_bytes r

words : Ip → List ℕ
words (a ∷ b ∷ r) = (a * 256 + b) ∷ words r
words r = []

-- How many zero words stand in front.
zeros : List ℕ → ℕ
zeros [] = 0
zeros (w ∷ r) = let n = zeros r in if w == 0 then suc n else 0

-- The first of the longest runs of zero words, from word `i` on: its place and its length.
longest : ℕ → List ℕ → ℕ × ℕ
longest i [] = (i, 0)
longest i (w ∷ r) =
    let n = zeros (w ∷ r) in let (j, m) = longest (i + 1) r in if leb m n then (i, n) else (j, m)

join : List ℕ → String
unfolding hex
join [] = ""
join (w ∷ []) = hex w
join (w ∷ v ∷ r) = hex w <> ":" <> join (v ∷ r)

v6_string : List ℕ → String
unfolding longest zeros join
v6_string ws =
    let (e, n) = longest 0 ws in
    if leb n 1 then join ws else join (take e ws) <> "::" <> join (drop (e + n) ws)

unfoldable pub dotted : Ip → String
dotted (a ∷ b ∷ c ∷ d ∷ r) = decimal a <> "." <> decimal b <> "." <> decimal c <> "." <> decimal d
dotted _ = ""

unfoldable pub ip_string : Ip → String
unfolding to4 hex_bytes words v6_string
ip_string ip = if length ip == 0 then "<nil>" else elim (to4 ip) [
  | some v4 ↦ dotted v4
  | none ↦ if length ip == 16 then v6_string (words ip) else "?" <> hex_bytes ip
]

v4_text : ip_string (192 ∷ 168 ∷ 0 ∷ 10 ∷ []) ≡ "192.168.0.10"
unfolding ip_string dotted decimal numeral
v4_text = refl

v6_text :
    ip_string (32 ∷ 1 ∷ 13 ∷ 184 ∷ 0 ∷ 0 ∷ 0 ∷ 0 ∷ 0 ∷ 1 ∷ 0 ∷ 0 ∷ 0 ∷ 0 ∷ 0 ∷ 10 ∷ [])
    ≡ "2001:db8::1:0:0:a"
unfolding ip_string dotted decimal numeral
v6_text = refl

odd_text : ip_string (1 ∷ 0 ∷ 171 ∷ []) ≡ "?0100ab"
unfolding ip_string dotted decimal numeral
odd_text = refl
