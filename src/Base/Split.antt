-- ===== src/Base/Split.antt =====
-- strings.Split of texts that were put together with the separator.
use text.Mathlib.TextLemmas.{cons-append, nil-append}
use Prim.Native.Nat.{ℕ}
use Prim.Native.Char.{Char, code}
use Prim.Native.String.{String, ◌++◌ as ◌<>◌}
use mathlib.Core.Path.{◌≡◌, refl, ap, ◌∙◌}
use mathlib.Core.Bool.{false}
use mathlib.Core.Logic.{inl, inr}
use mathlib.Core.List.{List, [], ◌∷◌, ◌++◌}
use lbmanager.Base.Tests.{◌==◌, ==_self, nat_eq, Bool-cases}
use lbmanager.Base.Lists.{All, last_or}
use lbmanager.Base.Text.{split, last_part}

-- The text has no character of the code `sep`.
abbrev pub Lacks : ℕ → String → Type 0
Lacks sep String.[] = Unit
Lacks sep (String.◌∷◌ c s) = ((code c == sep) ≡ false) × Lacks sep s

pub split-Lacks : (sep : ℕ) (s : String) → Lacks sep s → split sep s ≡ s ∷ []
unfolding split
split-Lacks sep String.[] h = refl
split-Lacks sep (String.◌∷◌ c s) (other, h) = rw (other, split-Lacks sep s h)

pub split-append :
    (c : Char) (p s : String)
    → Lacks (code c) p
    → split (code c) (p <> String.◌∷◌ c s) ≡ p ∷ split (code c) s
unfolding split
split-append c String.[] s h = rw (nil-append, ==_self (code c))
split-append c (String.◌∷◌ d p) s (other, h) = rw (cons-append, other, split-append c p s h)

-- The parts with the separator between them.
unfoldable pub join : Char → List String → String
join c [] = ""
join c (p ∷ []) = p
join c (p ∷ q ∷ ps) = p <> String.◌∷◌ c (join c (q ∷ ps))

pub split-join :
    (c : Char) (p : String) (ps : List String)
    → All (Lacks (code c)) (p ∷ ps)
    → split (code c) (join c (p ∷ ps)) ≡ p ∷ ps
unfolding join
split-join c p [] (h, rest) = split-Lacks (code c) p h
split-join c p (q ∷ ps) (h, rest) =
    split-append c p (join c (q ∷ ps)) h ∙ ap (λ l. p ∷ l) (split-join c q ps rest)

pub Lacks-append : (sep : ℕ) (s t : String) → Lacks sep s → Lacks sep t → Lacks sep (s <> t)
Lacks-append sep String.[] t h k = rw nil-append k
Lacks-append sep (String.◌∷◌ c s) t (other, h) k = rw cons-append (other, Lacks-append sep s t h k)

-- Behind a separator, the last of the parts is what follows the last separator.
split-ends :
    (c : Char) (p s : String)
    → Lacks (code c) s
    → (y : String) × (ys : List String) × (split (code c) (p <> String.◌∷◌ c s)
        ≡ y ∷ (ys ++ s ∷ []))
unfolding split
split-ends c String.[] s h =
    ("", [], rw (nil-append, ==_self (code c), split-Lacks (code c) s h) refl)
split-ends c (String.◌∷◌ d p) s h =
    let (y, ys, e) = split-ends c p s h in
    elim (Bool-cases (code d == code c)) [
      | inl same ↦ ("", y ∷ ys, rw (cons-append, same, e) refl)
      | inr other ↦ (String.◌∷◌ d y, ys, rw (cons-append, other, e) refl)
    ]

last_or-append : (d x : String) (ys : List String) → last_or d (ys ++ x ∷ []) ≡ x
last_or-append d x [] = refl
last_or-append d x (y ∷ ys) = last_or-append y x ys

pub last_part-append :
    (c : Char) (p s : String) → Lacks (code c) s → last_part (code c) (p <> String.◌∷◌ c s) ≡ s
unfolding last_part
last_part-append c p s h = let (y, ys, e) = split-ends c p s h in rw e (last_or-append y s ys)
