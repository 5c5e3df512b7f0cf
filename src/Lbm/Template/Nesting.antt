-- ===== src/Lbm/Template/Nesting.antt =====
-- The braces of a text that was put together, in their order.
use text.Mathlib.TextLemmas.{cons-append, nil-append, append-nil}
use lbmanager.Base.{
  ◌≡◌, refl, ap, ◌∙◌, ℕ, zero, suc, ◌+◌, ◌<◌, ℤ, pos, negsuc, String, ◌<>◌, code, Bool, true, false,
  List, [], ◌∷◌, ◌++◌, ◌==◌, nat_eq, if◌then◌else◌, arith, All, length, ◌*◌,
}
use lbmanager.Net.{decimal, digit_char, numeral}
use lbmanager.Ipv4.Text.{numeral_induction, is_digit-digit_char}
use lbmanager.Lbm.Template.{concat, for_each, int_text, text_if}

-- The braces of a text: an opening one is `true`.
unfoldable pub braces : String → List Bool
braces String.[] = []
braces (String.◌∷◌ c s) =
    let rest = braces s in
    if code c == b'{' then true ∷ rest else (if code c == b'}' then false ∷ rest else rest)

-- Reading braces with so many open and so many that have closed none: both numbers at the end.
unfoldable pub nest : ℕ → ℕ → List Bool → ℕ × ℕ
nest opened stray [] = (opened, stray)
nest opened stray (true ∷ bs) = nest (suc opened) stray bs
nest zero stray (false ∷ bs) = nest zero (suc stray) bs
nest (suc opened) stray (false ∷ bs) = nest opened stray bs

pub braces-append : (s t : String) → braces (s <> t) ≡ braces s ++ braces t
unfolding braces
braces-append String.[] t = rw nil-append refl
braces-append (String.◌∷◌ c s) t = rw cons-append (ground (arith, braces-append s t))

abbrev pub all_braces : List String → List Bool
all_braces [] = []
all_braces (s ∷ ss) = braces s ++ all_braces ss

pub braces-concat : (ss : List String) → braces (concat ss) ≡ all_braces ss
unfolding concat braces
braces-concat [] = refl
braces-concat (s ∷ ss) = braces-append s (concat ss) ∙ ap (λ r. braces s ++ r) (braces-concat ss)

-- The text has no braces.
abbrev pub IsPlain : String → Type 0
IsPlain s = braces s ≡ []

digit-IsPlain : (d : ℕ) (t : String) → d < 10 → IsPlain t → IsPlain (String.◌∷◌ (digit_char d) t)
unfolding braces
digit-IsPlain d t lt p = ground (arith, is_digit-digit_char d lt)

pub decimal-IsPlain : (n : ℕ) → IsPlain (decimal n)
unfolding decimal braces
decimal-IsPlain n =
    rw (append-nil (numeral 10 n n)) at
      (numeral_induction IsPlain digit-IsPlain n n "" (omega arith) refl)

pub int_text-IsPlain : (z : ℤ) → IsPlain (int_text z)
unfolding int_text braces
int_text-IsPlain (pos n) = decimal-IsPlain n
int_text-IsPlain (negsuc n) = rw (braces-append, decimal-IsPlain (suc n)) refl

pub text_if-IsPlain : (b : Bool) (s : String) → IsPlain s → IsPlain (text_if b s)
unfolding text_if braces
text_if-IsPlain true s p = p
text_if-IsPlain false s p = refl

pub if-IsPlain : (b : Bool) (s t : String) → IsPlain s → IsPlain t → IsPlain (if b then s else t)
if-IsPlain true s t p q = p
if-IsPlain false s t p q = q

-- A word and a value behind it, where there is one.
pub option-IsPlain :
    (b : Bool) (name value : String)
    → IsPlain name
    → IsPlain value
    → IsPlain (text_if b (concat (name ∷ value ∷ [])))
option-IsPlain b name value n v =
    text_if-IsPlain b _ (braces-concat (name ∷ value ∷ []) ∙ rw (n, v) refl)

-- The same braces so many times over.
unfoldable pub times : ℕ → List Bool → List Bool
times zero p = []
times (suc k) p = p ++ times k p

-- The pieces of a range that have the same braces, each.
pub braces-for_each :
    {A : Type 0} (f : A → String) (p : List Bool) (P : A → Type 0)
    → ((a : A) → P a → braces (f a) ≡ p)
    → (l : List A) → All P l
    → braces (for_each f l) ≡ times (length l) p
unfolding for_each braces times
braces-for_each f p P each [] h = refl
braces-for_each f p P each (a ∷ l) (q, h) =
    braces-append (f a) (for_each f l) ∙ rw (each a q, braces-for_each f p P each l h) refl

pub times-empty : (k : ℕ) → times k [] ≡ []
unfolding times
times-empty zero = refl
times-empty (suc k) = times-empty k

pub append_assoc : (xs ys zs : List Bool) → (xs ++ ys) ++ zs ≡ xs ++ (ys ++ zs)
append_assoc [] ys zs = refl
append_assoc (x ∷ xs) ys zs = ap (λ r. x ∷ r) (append_assoc xs ys zs)

-- The braces close what they open, and nothing else.
abbrev pub IsBalanced : List Bool → Type 0
IsBalanced p = (opened stray : ℕ) (r : List Bool) → nest opened stray (p ++ r) ≡ nest opened stray r

-- The braces read as a single closing one.
abbrev pub IsCloser : List Bool → Type 0
IsCloser p =
    (opened stray : ℕ) (r : List Bool) → nest opened stray (p ++ r) ≡ nest opened stray (false ∷ r)

pub times-IsBalanced : (p : List Bool) → IsBalanced p → (k : ℕ) → IsBalanced (times k p)
unfolding times
times-IsBalanced p h zero opened stray r = refl
times-IsBalanced p h (suc k) opened stray r =
    rw (append_assoc p) (h opened stray (times k p ++ r) ∙ times-IsBalanced p h k opened stray r)

pub times-IsCloser :
    (p : List Bool)
    → IsCloser p
    → (k opened stray : ℕ) (r : List Bool)
    → nest opened stray (times k p ++ r) ≡ nest opened stray (times k (false ∷ []) ++ r)
unfolding times nest
times-IsCloser p h zero opened stray r = refl
times-IsCloser p h (suc k) zero stray r =
    rw (append_assoc p) (h zero stray (times k p ++ r) ∙ times-IsCloser p h k zero (suc stray) r)
times-IsCloser p h (suc k) (suc opened) stray r =
    rw (append_assoc p)
      (h (suc opened) stray (times k p ++ r) ∙ times-IsCloser p h k opened stray r)

-- Closing braces in a row, with one open.
strays : (k stray : ℕ) → nest zero stray (times k (false ∷ []) ++ (false ∷ [])) ≡ (0, stray + suc k)
unfolding nest times
strays zero stray = ap (λ n. (0, n)) (omega arith)
strays (suc k) stray = strays k (suc stray) ∙ ap (λ n. (0, n)) (omega arith)

pub nest-closing : (k : ℕ) → nest 1 0 (times k (false ∷ []) ++ (false ∷ [])) ≡ (0, 1 * k)
unfolding nest times
nest-closing zero = refl
nest-closing (suc k) = strays k 0 ∙ ap (λ n. (0, n)) (omega arith)
