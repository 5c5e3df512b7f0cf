-- ===== src/Ipam/Allocator/Search.antt =====
-- The loop of `Get`: it visits the addresses of the range in order, once each, and reserves the
-- first that is free.
use lbmanager.Base.{
  ◌≡◌, ◌≢◌, refl, ap, ◌∙◌, ℕ, zero, suc, ◌+◌, ◌<◌, ◌≤◌, String, Bool, true, false, ◌&&◌, not,
  Option, none, some, List, [], ◌∷◌, ◌==◌, nat_eq, if◌then◌else◌, arith, Bool-cases, inl, inr,
  Result, ok,
}
use mathlib.Core.Option
use lbmanager.Net.{Ip, equal}
use lbmanager.Ipv4.{v4, equal-v4}
use lbmanager.Ipv4.Step.{next_ip-v4}
use lbmanager.Ipam.Allocator.{search, next_ip, is_equal}
use lbmanager.Ipam.Allocator.Config.{IpAllocator}
use lbmanager.Ipam.Allocator.Laws.{IsTable}

abbrev pub is_gateway : Option ℕ → ℕ → Bool
is_gateway none n = false
is_gateway (some g) n = g == n

abbrev pub is_none : Option String → Bool
is_none none = true
is_none (some _) = false

abbrev pub is_free : Option ℕ → (ℕ → Option String) → ℕ → Bool
is_free gw holder n = not (is_gateway gw n) && is_none (holder n)

-- The first free address of a list; the gateway is never free.
unfoldable pub first_free : Option ℕ → (ℕ → Option String) → List ℕ → Option ℕ
first_free gw holder [] = none
first_free gw holder (n ∷ ns) = if is_free gw holder n then some n else first_free gw holder ns

-- An allocator whose range is that of the numbers from `lo` to `hi`. The first byte is not 0: NextIP
-- gives addresses of less than four bytes there.
pub record IsRange {W : Type 0} (a : IpAllocator W) (lo hi : ℕ) : Type 0 where
  pub start_lem : a.start ≡ v4 lo
  pub end_lem : a.end ≡ v4 hi
  pub positive : 16777216 ≤ lo
  pub ordered : lo ≤ hi
  pub bounded : hi < 4294967296

abbrev pub next : ℕ → ℕ → ℕ → ℕ
next lo hi n = if n == hi then lo else n + 1

-- `k` steps lead from `n` to `last`, and not fewer.
abbrev pub Way : ℕ → ℕ → ℕ → ℕ → ℕ → Type 0
Way lo hi last zero n = n ≡ last
Way lo hi last (suc k) n = (n ≢ last) × Way lo hi last k (next lo hi n)

-- The addresses on the way.
unfoldable pub path : ℕ → ℕ → ℕ → ℕ → List ℕ
path lo hi zero n = n ∷ []
path lo hi (suc k) n = n ∷ path lo hi k (next lo hi n)

module _ {W : Type 0} (a : IpAllocator W) (lo hi : ℕ) (r : IsRange a lo hi) where
  pub next_ip-eq-next : (n : ℕ) → lo ≤ n → n ≤ hi → next_ip a (v4 n) ≡ v4 (next lo hi n)
  unfolding next_ip
  next_ip-eq-next n h k = elim (Bool-cases (n == hi)) [
    | inl e ↦ rw (next_ip, r.end_lem, equal-v4, e) r.start_lem
    | inr e ↦
        rw (next_ip, r.end_lem, equal-v4, e) (next_ip-v4 n (ground (arith, r)) (ground (arith, r)))
  ]

  pub next_bounds : (n : ℕ) → lo ≤ n → n ≤ hi → (lo ≤ next lo hi n) × (next lo hi n ≤ hi)
  next_bounds n h k = ground (arith, r)

pub is_equal-v4 : (gw : Option ℕ) (n : ℕ) → is_equal (Option.map v4 gw) (v4 n) ≡ is_gateway gw n
is_equal-v4 none n = refl
is_equal-v4 (some g) n = equal-v4 g n

-- One round of the loop.
module _ {W : Type 0} (a : IpAllocator W) (id : String) (gw : Option Ip) (last : Ip) (fuel : ℕ)
    (cur : Ip) (w : W) where
  pub round_gateway :
      is_equal gw cur ≡ true
      → search a id gw last (suc fuel) cur w ≡ search a id gw last fuel (next_ip a cur) w
  unfolding search
  round_gateway e = rw (search, e)

  round_free :
      is_equal gw cur ≡ false
      → (a.store.reserve id cur w).0 ≡ ok true
      → search a id gw last (suc fuel) cur w ≡ (ok (some cur), (a.store.reserve id cur w).1)
  unfolding search
  round_free e h = rw (search, e, h)

  round_last :
      is_equal gw cur ≡ false
      → a.store.reserve id cur w ≡ (ok false, w)
      → equal cur last ≡ true
      → search a id gw last (suc fuel) cur w ≡ (ok none, w)
  unfolding search
  round_last e h l = rw (search, e, h, l)

  round_next :
      is_equal gw cur ≡ false
      → a.store.reserve id cur w ≡ (ok false, w)
      → equal cur last ≡ false
      → search a id gw last (suc fuel) cur w ≡ search a id gw last fuel (next_ip a cur) w
  unfolding search
  round_next e h l = rw (search, e, h, l)

-- The result of the loop for the address that it finds.
abbrev pub outcome : {W : Type 0} → IpAllocator W → String → W → Option ℕ → Result (Option Ip) × W
outcome a id w none = (ok none, w)
outcome a id w (some n) = (ok (some (v4 n)), (a.store.reserve id (v4 n) w).1)

module _ {W : Type 0} (a : IpAllocator W) (lo hi : ℕ) (r : IsRange a lo hi) (t : IsTable a.store)
    (id : String) (gw : Option ℕ) (last : ℕ) (last_ip : Ip)
    (same : (n : ℕ) → equal (v4 n) last_ip ≡ (n == last)) (w : W) where
  -- At an address that is not free, one round goes on to the next one.
  pub skip :
      (n fuel : ℕ)
      → lo ≤ n
      → n ≤ hi
      → n ≢ last
      → is_free gw (t.holder w) n ≡ false
      → search a id (Option.map v4 gw) last_ip (suc fuel) (v4 n) w
        ≡ search a id (Option.map v4 gw) last_ip fuel (v4 (next lo hi n)) w
  skip n fuel h k ne f = elim (Bool-cases (is_gateway gw n)) [
    | inl g ↦
        round_gateway a id (Option.map v4 gw) last_ip fuel (v4 n) w (is_equal-v4 gw n ∙ g)
        ∙ ap (λ c. search a id (Option.map v4 gw) last_ip fuel c w)
            (next_ip-eq-next a lo hi r n h k)
    | inr g ↦
        round_next a id (Option.map v4 gw) last_ip fuel (v4 n) w (is_equal-v4 gw n ∙ g)
          (t.reserve_taken id n w (ground (arith, r)) (λ e. ground arith)) (same n ∙ ground arith)
        ∙ ap (λ c. search a id (Option.map v4 gw) last_ip fuel c w)
            (next_ip-eq-next a lo hi r n h k)
  ]

  take_free :
      (n fuel : ℕ)
      → n ≤ hi
      → is_free gw (t.holder w) n ≡ true
      → search a id (Option.map v4 gw) last_ip (suc fuel) (v4 n) w ≡ outcome a id w (some n)
  take_free n fuel k f =
      round_free a id (Option.map v4 gw) last_ip fuel (v4 n) w (is_equal-v4 gw n ∙ ground arith)
        (t.reserve_free id n w (ground (arith, r)) (ground arith))

  at_last :
      (n fuel : ℕ)
      → n ≤ hi
      → n ≡ last
      → is_gateway gw last ≡ false
      → is_free gw (t.holder w) n ≡ false
      → search a id (Option.map v4 gw) last_ip (suc fuel) (v4 n) w ≡ (ok none, w)
  at_last n fuel k e g f =
      let g' : is_gateway gw n ≡ false = ap (is_gateway gw) e ∙ g in
      round_last a id (Option.map v4 gw) last_ip fuel (v4 n) w (is_equal-v4 gw n ∙ g')
        (t.reserve_taken id n w (ground (arith, r)) (λ h. ground arith)) (same n ∙ ground arith)

  pub search-path :
      (k fuel n : ℕ)
      → lo ≤ n
      → n ≤ hi
      → is_gateway gw last ≡ false
      → Way lo hi last k n
      → k < fuel
      → search a id (Option.map v4 gw) last_ip fuel (v4 n) w
        ≡ outcome a id w (first_free gw (t.holder w) (path lo hi k n))
  unfolding first_free path
  search-path k zero n h l g way lt = absurd (omega arith)
  search-path zero (suc fuel) n h l g way lt = elim (Bool-cases (is_free gw (t.holder w) n)) [
    | inl f ↦ rw f (take_free n fuel l f)
    | inr f ↦ rw f (at_last n fuel l way g f)
  ]
  search-path (suc k) (suc fuel) n h l g (ne, way) lt =
      elim (Bool-cases (is_free gw (t.holder w) n)) [
        | inl f ↦ rw f (take_free n fuel l f)
        | inr f ↦ rw f (
            skip n fuel h l ne f
            ∙ search-path k fuel (next lo hi n) (next_bounds a lo hi r n h l).0
                (next_bounds a lo hi r n h l).1 g way (omega arith))
      ]
