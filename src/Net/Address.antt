-- ===== src/Net/Address.antt =====
-- net.IP: To4, To16 and Equal.
use lbmanager.Base.{
  ℕ, Bool, false, ◌&&◌, Option, none, some, List, [], ◌∷◌, ◌++◌, length, take, drop, list_beq, ◌==◌,
  nat_eq, if◌then◌else◌,
}

abbrev pub Ip : Type 0
Ip = List ℕ

abbrev pub bytes_beq : Ip → Ip → Bool
bytes_beq = list_beq

-- The twelve bytes in front of an IPv4 address in its 16-byte form.
abbrev pub v4_in_v6 : Ip
v4_in_v6 = 0 ∷ 0 ∷ 0 ∷ 0 ∷ 0 ∷ 0 ∷ 0 ∷ 0 ∷ 0 ∷ 0 ∷ 255 ∷ 255 ∷ []

unfoldable pub to4 : Ip → Option Ip
to4 ip =
    if length ip == 4
    then some ip
    else if length ip == 16 && bytes_beq (take 12 ip) v4_in_v6
    then some (drop 12 ip)
    else none

unfoldable pub to16 : Ip → Option Ip
to16 ip =
    if length ip == 4 then some (v4_in_v6 ++ ip) else if length ip == 16 then some ip else none

unfoldable pub equal : Ip → Ip → Bool
equal a b =
    if length a == length b
    then bytes_beq a b
    else if length a == 4 && length b == 16
    then bytes_beq (take 12 b) v4_in_v6 && bytes_beq a (drop 12 b)
    else if length a == 16 && length b == 4
    then bytes_beq (take 12 a) v4_in_v6 && bytes_beq (drop 12 a) b
    else false
