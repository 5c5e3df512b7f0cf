-- ===== src/Lbm/Roles/Overlap.antt =====
-- How many calls of Run wait beside one another, and how many watches they have started.
use mathlib.Core.Path.{fun_ext}
use lbmanager.Base.{
  ◌≡◌, refl, ap, sym, ◌∙◌, ℕ, zero, suc, ◌+◌, ◌≤◌, String, true, false, not, Option, none, some,
  List, [], ◌∷◌, ◌++◌, map, ◌==◌, ==_self, nat_eq, string_eq, if◌then◌else◌, length, arith,
  Bool-cases, inl, inr,
}
use lbmanager.Lbm.Roles.{
  Node, boot, without, close, change, handle, play, Callback, started_leading, stopped_leading,
  new_leader, and_then,
}

-- The numbers below k, downwards.
abbrev down : ℕ → List ℕ
down zero = []
down (suc k) = k ∷ down k

abbrev last_made : ℕ → Option ℕ
last_made zero = none
last_made (suc k) = some k

-- The node when it has changed to follow k times.
abbrev followed : ℕ → Node
followed k = record {
  stop = last_made k;
  is_leader = false;
  term = none;
  next = k;
  closed = [];
  runs = down k;
  watches = k;
}

-- How many of the leaders are other nodes.
unfoldable pub others : String → List String → ℕ
others own [] = 0
others own (id ∷ ids) = if not (own == id) then suc (others own ids) else others own ids

length-down : (k : ℕ) → length (down k) ≡ k
length-down zero = refl
length-down (suc k) = omega (arith, length-down k)

without-down : (c k : ℕ) → k ≤ c → without c (down k) ≡ down k
unfolding without
without-down c zero h = refl
without-down c (suc k) h = ground (arith, without-down c k)

and_then_assoc :
    (o : Option Node) (f g : Node → Option Node)
    → and_then (and_then o f) g ≡ and_then o (λ n. and_then (f n) g)
and_then_assoc none f g = refl
and_then_assoc (some n) f g = refl

play-append :
    (own : String) (xs ys : List Callback) (n : Node)
    → play own (xs ++ ys) n ≡ and_then (play own xs n) (play own ys)
unfolding play
play-append own [] ys n = refl
play-append own (x ∷ xs) ys n =
    ap (and_then (handle own x n)) (fun_ext (play-append own xs ys))
    ∙ sym (and_then_assoc (handle own x n) (play own xs) (play own ys))

change-followed : (k : ℕ) → change (followed k) ≡ some (followed (suc k))
unfolding change
change-followed k = refl

play-followed :
    (own : String) (ids : List String) (k : ℕ)
    → play own (map new_leader ids) (followed k) ≡ some (followed (others own ids + k))
unfolding play others handle
play-followed own [] k = ap (λ j. some (followed j)) (omega arith)
play-followed own (id ∷ ids) k = elim (Bool-cases (own == id)) [
  | inl e ↦ rw e (play-followed own ids k)
  | inr e ↦ rw e (play-followed own ids (suc k) ∙ ap (λ j. some (followed j)) (omega arith))
]

-- The node when it has won the election behind that, and when it has lost it again.
elected : ℕ → Node
elected zero = record {
  stop = none;
  is_leader = true;
  term = some 0;
  next = 1;
  closed = [];
  runs = 0 ∷ [];
  watches = 1;
}
elected (suc k) = record {
  stop = some k;
  is_leader = true;
  term = some (suc k);
  next = suc (suc k);
  closed = k ∷ [];
  runs = suc k ∷ down k;
  watches = suc (suc k);
}

deposed : ℕ → Node
deposed zero = record {
  stop = some 1;
  is_leader = false;
  term = some 0;
  next = 2;
  closed = 0 ∷ [];
  runs = 1 ∷ [];
  watches = 2;
}
deposed (suc k) = record {
  stop = some (suc (suc k));
  is_leader = false;
  term = some (suc k);
  next = suc (suc (suc k));
  closed = suc k ∷ k ∷ [];
  runs = suc (suc k) ∷ down k;
  watches = suc (suc (suc k));
}

handle-followed :
    (own : String) (k : ℕ) → handle own started_leading (followed k) ≡ some (elected k)
unfolding handle elected
handle-followed own zero = refl
handle-followed own (suc k) = rw (==_self k, without-down k k (omega arith))

before_next : (k : ℕ) → (k == suc k) ≡ false
before_next k = ground arith

handle-elected : (own : String) (k : ℕ) → handle own stopped_leading (elected k) ≡ some (deposed k)
unfolding handle close elected deposed
handle-elected own zero = refl
handle-elected own (suc k) =
    rw (close, before_next k, ==_self (suc k), without-down (suc k) k (omega arith))

runs-elected : (k : ℕ) → length (elected k).runs ≡ (if k == 0 then 1 else k)
unfolding elected
runs-elected zero = refl
runs-elected (suc k) = ground (arith, length-down k)

runs-deposed : (k : ℕ) → length (deposed k).runs ≡ (if k == 0 then 1 else k)
unfolding deposed
runs-deposed zero = refl
runs-deposed (suc k) = ground (arith, length-down k)

leads : (k : ℕ) → (elected k).is_leader ≡ true
unfolding elected
leads zero = refl
leads (suc k) = refl

idles : (k : ℕ) → (deposed k).is_leader ≡ false
unfolding deposed
idles zero = refl
idles (suc k) = refl

watches-elected : (k : ℕ) → (elected k).watches ≡ suc k
unfolding elected
watches-elected zero = refl
watches-elected (suc k) = refl

watches-deposed : (k : ℕ) → (deposed k).watches ≡ suc (suc k)
unfolding deposed
watches-deposed zero = refl
watches-deposed (suc k) = refl

won :
    (own : String) (ids : List String)
    → play own (map new_leader ids ++ started_leading ∷ []) boot ≡ some (elected (others own ids))
unfolding boot play handle
won own ids =
    play-append own (map new_leader ids) (started_leading ∷ []) boot
    ∙ ap (λ o. and_then o (play own (started_leading ∷ []))) (play-followed own ids 0)
    ∙ ap (λ o. and_then o (λ n. some n)) (start_from (others own ids + 0))
    ∙ ap (λ j. some (elected j)) (omega arith)
  where
    start_from : (k : ℕ) → handle own started_leading (followed k) ≡ some (elected k)
    start_from = handle-followed own

-- A node that sees leaders come and go, wins the election and loses it never closes a channel twice.
-- While it leads and afterwards one call of Run waits if the node saw at most one other leader, and
-- else one for each time that it saw another; and it has started a watch for each of those times,
-- one for winning, and one for losing.
pub play-runs :
    (own : String) (ids : List String)
    → (leading idle : Node) × (play own (map new_leader ids ++ started_leading ∷ []) boot
        ≡ some leading)
      × (leading.is_leader ≡ true)
      × (length leading.runs ≡ (if others own ids == 0 then 1 else others own ids))
      × (leading.watches ≡ suc (others own ids))
      × (handle own stopped_leading leading ≡ some idle)
      × (idle.is_leader ≡ false)
      × (length idle.runs ≡ (if others own ids == 0 then 1 else others own ids))
      × (idle.watches ≡ suc (suc (others own ids)))
play-runs own ids =
    let k = others own ids in
    (
      elected k,
      deposed k,
      won own ids,
      leads k,
      runs-elected k,
      watches-elected k,
      handle-elected own k,
      idles k,
      runs-deposed k,
      watches-deposed k,
    )
