-- ===== src/Ipam/Allocator/Get/Endless.antt =====
-- The loop of Get with a gateway where the search ends.
use lbmanager.Base.{
  ◌≡◌, ◌≢◌, refl, ap, ◌∙◌, ℕ, zero, suc, ◌≤◌, String, Bool, true, false, ◌&&◌, not, Option, none,
  some, ◌==◌, nat_eq, arith, Bool-cases, inl, inr, ok, err, out_of_fuel,
}
use lbmanager.Net.{Ip, equal}
use lbmanager.Ipv4.{v4}
use lbmanager.Ipam.Allocator.{get, get_any, get_search_range, search, search_range, gateway_of}
use lbmanager.Ipam.Allocator.Config.{IpAllocator}
use lbmanager.Ipam.Allocator.Laws.{IsTable}
use lbmanager.Ipam.Allocator.Order.{start_of, last_of, IsWithin}
use lbmanager.Ipam.Allocator.Search.{
  IsRange, is_gateway, is_none, next, next_ip-eq-next, next_bounds, round_gateway, is_equal-v4,
  skip,
}
use lbmanager.Ipam.Allocator.Get.{
  usable, usable-IsWithin, IsRecorded, search_range-eq, search_range-read,
}

taken_lem : (b : Bool) (o : Option String) → o ≢ none → (not b && is_none o) ≡ false
taken_lem true o h = refl
taken_lem false none h = absurd (h refl)
taken_lem false (some x) h = refl

starts :
    (lo hi : ℕ) (l : Option ℕ)
    → lo ≤ hi
    → IsWithin lo hi l
    → (lo ≤ start_of lo hi l) × (start_of lo hi l ≤ hi)
starts lo hi none h k = ground arith
starts lo hi (some l) h k = ground arith

module _ {W : Type 0} (a : IpAllocator W) (lo hi : ℕ) (r : IsRange a lo hi) (t : IsTable a.store)
    (w : W) where
  -- Every address of the range has a holder, but for one.
  abbrev pub IsFullBut : ℕ → Type 0
  IsFullBut g = (n : ℕ) → lo ≤ n → n ≤ hi → n ≢ g → t.holder w n ≢ none

  search-endless :
      (id : String) (g : ℕ) (last : Ip)
      → ((n : ℕ) → equal (v4 n) last ≡ (n == g))
      → IsFullBut g
      → (fuel n : ℕ) → lo ≤ n
      → n ≤ hi
      → search a id (some (v4 g)) last fuel (v4 n) w ≡ (err out_of_fuel, w)
  unfolding search
  search-endless id g last same full zero n h k = refl
  search-endless id g last same full (suc fuel) n h k =
      let (h', k') = next_bounds a lo hi r n h k in
      let onward = search-endless id g last same full fuel (next lo hi n) h' k' in
      elim (Bool-cases (is_gateway (some g) n)) [
        | inl at_gateway ↦
            round_gateway a id (some (v4 g)) last fuel (v4 n) w
              (is_equal-v4 (some g) n ∙ at_gateway)
            ∙ (ap (λ c. search a id (some (v4 g)) last fuel c w) (next_ip-eq-next a lo hi r n h k)
                ∙ onward)
        | inr e ↦
            skip a lo hi r t id (some g) g last same w n fuel h k (ground arith)
              (taken_lem (is_gateway (some g) n) (t.holder w n) (full n h k (ground arith)))
            ∙ onward
      ]

  -- When the gateway of the configuration is the address at which the search of Get ends, and all the
  -- others of the range have a holder, Get without a requested address never returns: it is still in
  -- its loop after any number of rounds.
  pub get-endless :
      (l : Option ℕ) (recorded : IsRecorded a l w)
      (gateway : a.conf.gateway ≡ some (v4 (last_of hi (usable a lo hi l))))
      (full : IsFullBut (last_of hi (usable a lo hi l))) (id : String) (nogw : Bool) (fuel : ℕ)
      → get a fuel id none nogw w ≡ (err out_of_fuel, w)
  unfolding get get_any get_search_range gateway_of
  get-endless l recorded gateway full id nogw fuel =
      let u = usable a lo hi l in
      let (last, same, ends) = search_range-eq a lo hi r l in
      let (low, high) = starts lo hi u r.ordered (usable-IsWithin a lo hi l) in
      let start : search_range a (a.store.last_reserved_ip w).0 ≡ (v4 (start_of lo hi u), last) =
        search_range-read a (a.store.last_reserved_ip w).0
        ∙ (ap (λ o. search_range a (ok o)) recorded.read_lem ∙ ends) in
      let loop = search-endless id (last_of hi u) last same full fuel (start_of lo hi u) low high in
      rw (gateway, t.lock_lem, recorded.world_lem, start, loop, t.unlock_lem) refl
