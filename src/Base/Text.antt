-- ===== src/Base/Text.antt =====
-- Go's package strings, as far as the program calls it. The texts are ASCII, so a byte is a
-- character; a separator is one character, as it is in every call.
use Prim.Native.Nat.{ℕ, zero, suc, ◌-◌}
use Prim.Native.Char.{Char, code}
use Prim.Native.String.{String}
use mathlib.Core.Bool.{Bool, true, false, ◌&&◌, ◌||◌}
use mathlib.Core.List.{List, [], ◌∷◌}
use mathlib.Core.Path.{◌≡◌, refl}
use native.Mathlib.Omega.{arith}
use lbmanager.Base.Tests.{◌==◌, nat_eq, if◌then◌else◌}
use lbmanager.Base.Lists.{last_or}

-- strings.HasPrefix
unfoldable pub has_prefix : String → String → Bool
has_prefix s String.[] = true
has_prefix String.[] (String.◌∷◌ d p) = false
has_prefix (String.◌∷◌ c s) (String.◌∷◌ d p) = code c == code d && has_prefix s p

-- strings.Contains
unfoldable pub contains : String → String → Bool
unfolding has_prefix
contains String.[] p = has_prefix "" p
contains (String.◌∷◌ c s) p = has_prefix (String.◌∷◌ c s) p || contains s p

-- len(s), in bytes
abbrev pub len : String → ℕ
len String.[] = 0
len (String.◌∷◌ c s) = suc (len s)

-- strings.Replace(s, old, "", -1): every occurrence of `old` goes, from the left, none twice.
-- The number counts the characters of an occurrence that are still to be skipped.
remove_from : String → ℕ → String → String
remove_from old n String.[] = ""
remove_from old (suc n) (String.◌∷◌ c s) = remove_from old n s
remove_from old zero (String.◌∷◌ c s) = elim (has_prefix (String.◌∷◌ c s) old) [
  | true ↦ remove_from old (len old - 1) s
  | false ↦ String.◌∷◌ c (remove_from old zero s)
]

unfoldable pub remove_all : String → String → String
unfolding remove_from has_prefix
remove_all s old = remove_from old 0 s

abbrev glue : Char → List String → List String
glue c [] = String.◌∷◌ c "" ∷ []
glue c (w ∷ ws) = String.◌∷◌ c w ∷ ws

-- strings.Split(s, sep), where `sep` is the character of this code.
unfoldable pub split : ℕ → String → List String
split sep String.[] = "" ∷ []
split sep (String.◌∷◌ c s) =
    let rest = split sep s in if code c == sep then "" ∷ rest else glue c rest

-- The last of the parts, `parts[len(parts)-1]`.
unfoldable pub last_part : ℕ → String → String
unfolding split
last_part sep s = last_or "" (split sep s)

or_false : (a b : Bool) → (a || b) ≡ false → (a ≡ false) × (b ≡ false)
or_false a b h = ground arith

remove_from-absent : (s old : String) → contains s old ≡ false → remove_from old 0 s ≡ s
unfolding remove_from contains
remove_from-absent String.[] old h = refl
remove_from-absent (String.◌∷◌ c s) old h =
    let (first, later) = or_false (has_prefix (String.◌∷◌ c s) old) (contains s old) h in
    ground (arith, first, remove_from-absent s old later)

pub remove_all-absent : (s old : String) → contains s old ≡ false → remove_all s old ≡ s
unfolding remove_all
remove_all-absent s old h = remove_from-absent s old h
