-- ===== src/Ipam/Allocator/Get.antt =====
-- `Get` without a requested address: it reserves the first free address in order.
pub mod Endless
use mathlib.Core.Option
use lbmanager.Base.{
  ◌≡◌, refl, ap, ◌∙◌, ℕ, ◌-◌, ◌<◌, ◌≤◌, String, true, ◌&&◌, Option, none, some, List, ◌==◌, nat_eq,
  if◌then◌else◌, arith, Bool-cases, inl, inr, leb, is_ok, Result, ok, err, errorf, str, Args,
}
use lbmanager.Base.Monad.Exec.{continue}
use lbmanager.Net.{Ip, equal, net_contains}
use lbmanager.Ipv4.{v4, v4_mapped, equal-v4, equal-v4_mapped, equal-v4_mapped_left}
use lbmanager.Ipv4.Step.{next_ip-v4, next_ip-v4_mapped}
use lbmanager.Ipam.Types.{IpConfig, Route}
use lbmanager.Ipam.Allocator.{
  next_ip, search_range, get_search_range, search, found_free, granted, get_any, gateway_of, get,
}
use lbmanager.Ipam.Allocator.Config.{IpAllocator}
use lbmanager.Ipam.Allocator.Laws.{IsTable}
use lbmanager.Ipam.Allocator.Range.{validate_range_ip}
use lbmanager.Ipam.Allocator.Bounds.{validate_range_ip-v4}
use lbmanager.Ipam.Allocator.Search.{IsRange, first_free, outcome, search-path, next}
use lbmanager.Ipam.Allocator.Order.{order, start_of, last_of, IsWithin, order_lem}

-- The recorded address counts if it is in the network and in the range.
abbrev pub usable : {W : Type 0} → IpAllocator W → ℕ → ℕ → Option ℕ → Option ℕ
usable a lo hi none = none
usable a lo hi (some l) =
    if net_contains a.conf.subnet (v4 l) && (leb lo l && leb l hi) then some l else none

pub usable-IsWithin :
    {W : Type 0} (a : IpAllocator W) (lo hi : ℕ) (l : Option ℕ) → IsWithin lo hi (usable a lo hi l)
usable-IsWithin a lo hi none = tt
usable-IsWithin a lo hi (some l) =
    elim (Bool-cases (net_contains a.conf.subnet (v4 l) && (leb lo l && leb l hi))) [
      | inl e ↦ rw e (ground arith, ground arith)
      | inr e ↦ rw e tt
    ]

module _ {W : Type 0} (a : IpAllocator W) (lo hi : ℕ) (r : IsRange a lo hi) where
  next_ip-mapped : (n : ℕ) → lo ≤ n → n ≤ hi → next_ip a (v4_mapped n) ≡ v4 (next lo hi n)
  unfolding next_ip
  next_ip-mapped n h k = elim (Bool-cases (n == hi)) [
    | inl e ↦ rw (next_ip, r.end_lem, equal-v4_mapped_left, e) r.start_lem
    | inr e ↦
        rw (next_ip, r.end_lem, equal-v4_mapped_left, e, next_ip-v4_mapped)
          (next_ip-v4 n (ground (arith, r)) (ground (arith, r)))
  ]

  -- The test of the recorded address.
  recorded_ok :
      (l : ℕ)
      → is_ok (validate_range_ip (v4_mapped l) a.conf.subnet (some a.start) (some a.end))
        ≡ (net_contains a.conf.subnet (v4 l) && (leb lo l && leb l hi))
  recorded_ok l = rw (r.start_lem, r.end_lem) (validate_range_ip-v4 a.conf.subnet l lo hi).1

  -- The two ends of the search, whatever address the store has recorded.
  search_range-eq :
      (l : Option ℕ)
      → (last : Ip) × ((n : ℕ) → equal (v4 n) last ≡ (n == last_of hi (usable a lo hi l)))
        × (search_range a (ok (Option.map v4_mapped l))
            ≡ (v4 (start_of lo hi (usable a lo hi l)), last))
  unfolding search_range
  search_range-eq none = (v4 hi, λ n. equal-v4 n hi, rw (r.start_lem, r.end_lem))
  search_range-eq (some l) =
      elim (Bool-cases (net_contains a.conf.subnet (v4 l) && (leb lo l && leb l hi))) [
        | inl e ↦ rw e (
          v4_mapped l,
          λ n. equal-v4_mapped n l,
          rw (recorded_ok l ∙ e)
              (ap (λ c. (c, v4_mapped l)) (next_ip-mapped l (ground arith) (ground arith))),
        )
        | inr e ↦ rw e (v4 hi, λ n. equal-v4 n hi, rw (recorded_ok l ∙ e, r.start_lem, r.end_lem))
      ]

-- The address that a call of LastReservedIP gives; with an error there is none.
abbrev pub address_read : Result (Option Ip) → Option Ip
address_read (err e) = none
address_read (ok o) = o

-- The store has recorded the address `l`, or none that it can read, and reading changes nothing.
pub record IsRecorded {W : Type 0} (a : IpAllocator W) (l : Option ℕ) (w : W) : Type 0 where
  pub read_lem : address_read (a.store.last_reserved_ip w).0 ≡ Option.map v4_mapped l
  pub world_lem : (a.store.last_reserved_ip w).1 ≡ w

search_range-read :
    {W : Type 0} (a : IpAllocator W) (x : Result (Option Ip))
    → search_range a x ≡ search_range a (ok (address_read x))
unfolding search_range
search_range-read a (err e) = refl
search_range-read a (ok o) = refl

-- The result of `Get` for the address that the search has found.
abbrev pub grant :
    {W : Type 0} → IpAllocator W → String → W → Option ℕ → Result (IpConfig × List Route) × W
grant a id w none =
    (err (errorf "no IP addresses available in network: %s" (str a.conf.name Args.end)), w)
grant a id w (some n) = (ok (granted a none (v4 n)), (a.store.reserve id (v4 n) w).1)

module _ {W : Type 0} (a : IpAllocator W) (lo hi : ℕ) (r : IsRange a lo hi) (t : IsTable a.store)
    (no_gateway : a.conf.gateway ≡ none) where
  bounds :
      (l : Option ℕ)
      → (lo ≤ start_of lo hi (usable a lo hi l)) × (start_of lo hi (usable a lo hi l) ≤ hi)
  bounds none = ground (arith, r)
  bounds (some l) = ground (arith, r)

  found_by_search :
      (id : String) (fuel : ℕ) (l : Option ℕ) (last : Ip) (w : W)
      → ((n : ℕ) → equal (v4 n) last ≡ (n == last_of hi (usable a lo hi l)))
      → hi - lo < fuel
      → search a id none last fuel (v4 (start_of lo hi (usable a lo hi l))) w
        ≡ outcome a id w (first_free none (t.holder w) (order lo hi (usable a lo hi l)))
  found_by_search id fuel l last w same enough =
      let u = usable a lo hi l in
      let (way, visited) = order_lem lo hi u r.ordered (usable-IsWithin a lo hi l) in
      search-path a lo hi r t id none (last_of hi u) last same w (hi - lo) fuel (start_of lo hi u)
        (bounds l).0 (bounds l).1 refl way enough
      ∙ ap (λ ns. outcome a id w (first_free none (t.holder w) ns)) visited

  grant_lem :
      (id : String) (w : W) (o : Option ℕ)
      → continue (outcome a id w o).0 (found_free a none) (outcome a id w o).1 ≡ grant a id w o
  unfolding found_free
  grant_lem id w none = refl
  grant_lem id w (some n) = refl

  get_any-order :
      (id : String) (fuel : ℕ) (l : Option ℕ) (w : W)
      → IsRecorded a l w
      → hi - lo < fuel
      → get_any a fuel id none w
        ≡ grant a id w (first_free none (t.holder w) (order lo hi (usable a lo hi l)))
  unfolding get_any get_search_range
  get_any-order id fuel l w recorded enough =
      let (last, same, ends) = search_range-eq a lo hi r l in
      let start : search_range a (a.store.last_reserved_ip w).0
          ≡ (v4 (start_of lo hi (usable a lo hi l)), last) =
        search_range-read a _ ∙ (ap (λ o. search_range a (ok o)) recorded.read_lem ∙ ends) in
      rw (recorded.world_lem, start, found_by_search id fuel l last w same enough)
        (grant_lem id w _)

  no_gateway_used : gateway_of a true ≡ none
  unfolding gateway_of
  no_gateway_used = ground arith

  unlocked :
      {A : Type 0} (x : Result A × W) → ◌≡◌ {A = Result A × W} (x.0, (a.store.unlock x.1).1) x
  unlocked x = rw t.unlock_lem

  -- Get with no requested address and no gateway returns, given fuel for each address of the range;
  -- it reserves the first address without a holder, in the order that begins behind the last
  -- reserved address if that is usable and else at the start of the range, and fails with nothing
  -- changed when every address of the range has a holder.
  pub get-first_free :
      (id : String) (fuel : ℕ) (l : Option ℕ) (w : W)
      → IsRecorded a l w
      → hi - lo < fuel
      → get a fuel id none true w
        ≡ grant a id w (first_free none (t.holder w) (order lo hi (usable a lo hi l)))
  unfolding get
  get-first_free id fuel l w recorded enough =
      rw (no_gateway_used, t.lock_lem, get_any-order id fuel l w recorded enough)
        (unlocked (grant a id w _))
