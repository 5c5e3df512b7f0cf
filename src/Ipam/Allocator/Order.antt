-- ===== src/Ipam/Allocator/Order.antt =====
-- The addresses in the order in which the loop of `Get` visits them.
use lbmanager.Base.{
  ◌≡◌, refl, ap, ◌∙◌, ℕ, zero, suc, ◌+◌, ◌-◌, ◌<◌, ◌≤◌, Option, none, some, List, [], ◌∷◌, ◌++◌,
  ◌==◌, nat_eq, arith, Bool-cases, inl, inr,
}
use lbmanager.Ipam.Allocator.Search.{Way, path, next}

-- `k` numbers from `n` on.
abbrev pub up : ℕ → ℕ → List ℕ
up n zero = []
up n (suc k) = n ∷ up (n + 1) k

-- All of the range from its start, or all of it from behind the last reserved address on.
abbrev pub order : ℕ → ℕ → Option ℕ → List ℕ
order lo hi none = up lo (suc (hi - lo))
order lo hi (some l) = up (l + 1) (hi - l) ++ up lo (suc (l - lo))

module _ (lo hi l : ℕ) (in_range : l ≤ hi) where
  Way-front : (k n : ℕ) → n + k ≡ l → Way lo hi l k n
  Way-front zero n e = omega arith
  Way-front (suc k) n e = (omega arith, ground (arith, Way-front k (n + 1)))

  path-front : (k n : ℕ) → n + k ≡ l → path lo hi k n ≡ up n (suc k)
  unfolding path
  path-front zero n e = refl
  path-front (suc k) n e = ground (arith, path-front k (n + 1))

next_top : (lo hi n : ℕ) → n + 0 ≡ hi → next lo hi n ≡ lo
next_top lo hi n e = ground arith

next_below : (lo hi j n : ℕ) → n + suc j ≡ hi → next lo hi n ≡ n + 1
next_below lo hi j n e = ground arith

-- The steps from `j` below the end of the range, over the end, to `l`.
abbrev steps : ℕ → ℕ → ℕ
steps front zero = suc front
steps front (suc j) = suc (steps front j)

steps-eq : (front j : ℕ) → steps front j ≡ suc (j + front)
steps-eq front zero = omega arith
steps-eq front (suc j) = omega (arith, steps-eq front j)

module _ (lo hi l : ℕ) (in_range : l ≤ hi) (low : lo ≤ l) where
  Way-wrap : (j n : ℕ) → n + j ≡ hi → l < n → Way lo hi l (steps (l - lo) j) n
  Way-wrap zero n e h =
      (omega arith, rw (next_top lo hi n e) (Way-front lo hi l in_range (l - lo) lo (omega arith)))
  Way-wrap (suc j) n e h =
      (omega arith, rw (next_below lo hi j n e) (Way-wrap j (n + 1) (omega arith) (omega arith)))

  path-wrap :
      (j n : ℕ)
      → n + j ≡ hi
      → l < n
      → path lo hi (steps (l - lo) j) n ≡ up n (suc j) ++ up lo (suc (l - lo))
  unfolding path
  path-wrap zero n e h =
      rw (path, next_top lo hi n e, path-front lo hi l in_range (l - lo) lo (omega arith))
  path-wrap (suc j) n e h =
      rw (path, next_below lo hi j n e, path-wrap j (n + 1) (omega arith) (omega arith))

-- Where the loop starts and where it ends, after the last reserved address `l` or from the start.
abbrev pub start_of : ℕ → ℕ → Option ℕ → ℕ
start_of lo hi none = lo
start_of lo hi (some l) = next lo hi l

abbrev pub last_of : ℕ → Option ℕ → ℕ
last_of hi none = hi
last_of hi (some l) = l

abbrev pub IsWithin : ℕ → ℕ → Option ℕ → Type 0
IsWithin lo hi none = Unit
IsWithin lo hi (some l) = (lo ≤ l) × (l ≤ hi)

-- The loop comes round to its last address after `hi - lo` steps, by the addresses in order.
pub order_lem :
    (lo hi : ℕ) (l : Option ℕ)
    → lo ≤ hi
    → IsWithin lo hi l
    → Way lo hi (last_of hi l) (hi - lo) (start_of lo hi l)
      × (path lo hi (hi - lo) (start_of lo hi l) ≡ order lo hi l)
order_lem lo hi none h w = (
  Way-front lo hi hi (omega arith) (hi - lo) lo (omega arith),
  path-front lo hi hi (omega arith) (hi - lo) lo (omega arith),
)
order_lem lo hi (some l) h (low, high) = elim (Bool-cases (l == hi)) [
  | inl e ↦
      let e' : l ≡ hi = ground arith in
      rw e (
        rw e' (
          Way-front lo hi hi (omega arith) (hi - lo) lo (omega arith),
          let none_left : hi - hi ≡ 0 = omega arith in
              rw none_left (path-front lo hi hi (omega arith) (hi - lo) lo (omega arith)),
        ))
  | inr e ↦
      let lt : l < hi = ground arith in
      let count : hi - lo ≡ steps (l - lo) (hi - l - 1) =
        omega (arith, steps-eq (l - lo) (hi - l - 1)) in
      let after : suc (hi - l - 1) ≡ hi - l = omega arith in
      rw (e, count)
        (
          Way-wrap lo hi l high low (hi - l - 1) (l + 1) (omega arith) (omega arith),
          path-wrap lo hi l high low (hi - l - 1) (l + 1) (omega arith) (omega arith)
              ∙ ap (λ c. up (l + 1) c ++ up lo (suc (l - lo))) after,
        )
]
