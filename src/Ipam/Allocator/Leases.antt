-- ===== src/Ipam/Allocator/Leases.antt =====
-- What `Get` does to the table of holders.
use lbmanager.Base.{
  ◌≡◌, ◌≢◌, ◌↔◌, ◌⊎◌, refl, ap, ℕ, zero, suc, ◌+◌, ◌-◌, ◌<◌, ◌≤◌, String, true, false, Option, none,
  some, List, [], ◌∷◌, ◌++◌, ◌==◌, nat_eq, if◌then◌else◌, arith, Bool-cases, Option-cases, inl, inr,
  leb, is_ok, Result, ok, err, Any,
}
use lbmanager.Net.{Ip}
use lbmanager.Ipv4.{v4, v4_eq}
use lbmanager.Ipam.Types.{IpConfig, Route}
use lbmanager.Ipam.Allocator.{granted, get}
use lbmanager.Ipam.Allocator.Config.{IpAllocator}
use lbmanager.Ipam.Allocator.Laws.{IsTable}
use lbmanager.Ipam.Allocator.Search.{IsRange, is_free, first_free}
use lbmanager.Ipam.Allocator.Order.{order, up, IsWithin}
use lbmanager.Ipam.Allocator.Get.{usable, usable-IsWithin, IsRecorded, grant, get-first_free}

abbrev In : ℕ → List ℕ → Type 0
In n = Any (λ m. n ≡ m)

In-up : (k lo n : ℕ) → lo ≤ n → n < lo + k → In n (up lo k)
In-up zero lo n h l = absurd (omega arith)
In-up (suc k) lo n h l = ground (arith, In-up k (lo + 1) n)

up_bounds : (k lo n : ℕ) → In n (up lo k) → (lo ≤ n) × (n < lo + k)
up_bounds zero lo n h = absurd h
up_bounds (suc k) lo n (inl e) = omega arith
up_bounds (suc k) lo n (inr h) = omega (arith, up_bounds k (lo + 1) n h)

In-append : (n : ℕ) (xs ys : List ℕ) → In n (xs ++ ys) → In n xs ⊎ In n ys
In-append n [] ys h = inr h
In-append n (x ∷ xs) ys (inl e) = inl (inl e)
In-append n (x ∷ xs) ys (inr h) = elim (In-append n xs ys h) [ inl p ↦ inl (inr p) | inr p ↦ inr p ]

In-append_left : (n : ℕ) (xs ys : List ℕ) → In n xs → In n (xs ++ ys)
In-append_left n [] ys h = absurd h
In-append_left n (x ∷ xs) ys (inl e) = inl e
In-append_left n (x ∷ xs) ys (inr h) = inr (In-append_left n xs ys h)

In-append_right : (n : ℕ) (xs ys : List ℕ) → In n ys → In n (xs ++ ys)
In-append_right n [] ys h = h
In-append_right n (x ∷ xs) ys h = inr (In-append_right n xs ys h)

-- The loop visits exactly the addresses of the range.
pub In-order :
    (lo hi n : ℕ) (l : Option ℕ)
    → lo ≤ hi
    → IsWithin lo hi l
    → In n (order lo hi l) ↔ ((lo ≤ n) × (n ≤ hi))
In-order lo hi n none h w = (
  λ i. omega (arith, up_bounds (suc (hi - lo)) lo n i),
  λ (p, q). In-up (suc (hi - lo)) lo n p (omega arith),
)
In-order lo hi n (some l) h (low, high) = (
  λ i. elim (In-append n (up (l + 1) (hi - l)) (up lo (suc (l - lo))) i) [
    | inl p ↦ omega (arith, up_bounds (hi - l) (l + 1) n p)
    | inr p ↦ omega (arith, up_bounds (suc (l - lo)) lo n p)
  ],
  λ (p, q). elim (Bool-cases (leb n l)) [
    | inl e ↦
        In-append_right n (up (l + 1) (hi - l)) (up lo (suc (l - lo)))
          (In-up (suc (l - lo)) lo n p (ground arith))
    | inr e ↦
        In-append_left n (up (l + 1) (hi - l)) (up lo (suc (l - lo)))
          (In-up (hi - l) (l + 1) n (ground arith) (ground arith))
  ],
)

first_free-some :
    (holder : ℕ → Option String) (ns : List ℕ) (n : ℕ)
    → first_free none holder ns ≡ some n
    → In n ns × (holder n ≡ none)
unfolding first_free
first_free-some holder [] n h = ground arith
first_free-some holder (m ∷ ns) n h = elim (Bool-cases (is_free none holder m)) [
  | inl f ↦ let e : n ≡ m = ground arith in (inl e, rw e (ground arith))
  | inr f ↦ let (i, e) = first_free-some holder ns n (rw f at h) in (inr i, e)
]

first_free-none :
    (holder : ℕ → Option String) (ns : List ℕ) (n : ℕ)
    → first_free none holder ns ≡ none
    → In n ns
    → holder n ≢ none
unfolding first_free
first_free-none holder [] n h i = absurd i
first_free-none holder (m ∷ ns) n h (inl e) = rw e (λ p. ground arith)
first_free-none holder (m ∷ ns) n h (inr i) = first_free-none holder ns n (ground arith) i

abbrev ip_of : Result (IpConfig × List Route) → Ip
ip_of (ok (c, _)) = c.address.ip
ip_of (err e) = []

grant-some :
    {W : Type 0} (a : IpAllocator W) (id : String) (w : W) (o : Option ℕ) (n : ℕ)
    → (grant a id w o).0 ≡ ok (granted a none (v4 n))
    → o ≡ some n
unfolding granted
grant-some a id w none n h = cc
grant-some a id w (some k) n h = ap some (v4_eq k n (ap ip_of h))

grant-none :
    {W : Type 0} (a : IpAllocator W) (id : String) (w : W) (o : Option ℕ)
    → is_ok (grant a id w o).0 ≡ false
    → o ≡ none
grant-none a id w none h = refl
grant-none a id w (some k) h = cc

module _ {W : Type 0} (a : IpAllocator W) (lo hi : ℕ) (r : IsRange a lo hi) (t : IsTable a.store)
    (no_gateway : a.conf.gateway ≡ none) (id : String) (fuel : ℕ) (l : Option ℕ) (w : W)
    (recorded : IsRecorded a l w) (enough : hi - lo < fuel) where
  pub found : Option ℕ
  found = first_free none (t.holder w) (order lo hi (usable a lo hi l))

  pub get-found : get a fuel id none true w ≡ grant a id w found
  unfolding found
  get-found = get-first_free a lo hi r t no_gateway id fuel l w recorded enough

  pub found-some : (n : ℕ) → found ≡ some n → ((lo ≤ n) × (n ≤ hi)) × (t.holder w n ≡ none)
  unfolding found
  found-some n h =
      let (i, free) = first_free-some (t.holder w) (order lo hi (usable a lo hi l)) n h in
      ((In-order lo hi n (usable a lo hi l) r.ordered (usable-IsWithin a lo hi l)).0 i, free)

  pub found-none : found ≡ none → (n : ℕ) → lo ≤ n → n ≤ hi → t.holder w n ≢ none
  unfolding found
  found-none h n p q =
      first_free-none (t.holder w) (order lo hi (usable a lo hi l)) n h
        ((In-order lo hi n (usable a lo hi l) r.ordered (usable-IsWithin a lo hi l)).1 (p, q))

  -- A lease that Get grants, with no requested address, no gateway and fuel for each address of the
  -- range, is for an address of the range that had no holder; the name holds it from then on, and
  -- every other address keeps the holder it had.
  get-lease :
      (n : ℕ)
      → (get a fuel id none true w).0 ≡ ok (granted a none (v4 n))
      → (lo ≤ n)
        × (n ≤ hi)
        × (t.holder w n ≡ none)
        × ((m : ℕ)
            → m < 4294967296
            → t.holder (get a fuel id none true w).1 m ≡ (if n == m then some id else t.holder w m))
  get-lease n h =
      let is_n : found ≡ some n = grant-some a id w found n (rw get-found at h) in
      let (bounds, free) = found-some n is_n in
      (
        bounds.0,
        bounds.1,
        free,
        λ m lt. rw (get-found, is_n) (t.holder-reserve id n m w (ground (arith, r)) lt free),
      )

  -- With no requested address, no gateway and fuel for each address of the range, Get fails exactly
  -- when every address of the range has a holder.
  get-fails_iff :
      (is_ok (get a fuel id none true w).0 ≡ false)
      ↔ ((n : ℕ) → lo ≤ n → n ≤ hi → t.holder w n ≢ none)
  get-fails_iff = (
    λ h. found-none (grant-none a id w found (rw get-found at h)),
    λ all. elim (Option-cases found) [
      | inl e ↦ rw (get-found, e)
      | inr (n, e) ↦ let (bounds, free) = found-some n e in absurd (all n bounds.0 bounds.1 free)
    ],
  )
