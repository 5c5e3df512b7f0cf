-- ===== src/Ipam/State/Leases.antt =====
-- What RequireIP does to the table of holders, when no address is asked for.
use lbmanager.Base.{
  ◌≡◌, ◌≢◌, ◌⊎◌, refl, ap, ℕ, ◌-◌, ◌<◌, String, Option, none, some, ◌==◌, nat_eq, if◌then◌else◌,
  arith, Option-cases, Bool-cases, inl, inr, Result, ok,
}
use lbmanager.Net.{ip_string, parse_ip}
use lbmanager.Ipv4.{v4}
use lbmanager.Ipam.Allocator.Config.{IpAllocator}
use lbmanager.Ipam.Allocator.Laws.{IsTable}
use lbmanager.Ipam.Allocator.Search.{IsRange}
use lbmanager.Ipam.Allocator.Registry.{IsRegistry, Holds}
use lbmanager.Ipam.State.{State, require_ip}
use lbmanager.Ipam.State.Require.{free, free-some, answer, given, require_ip-answer}

result_eq : {x y : String} → ◌≡◌ {A = Result String} (ok x) (ok y) → x ≡ y
result_eq h = cc

module _ {W : Type 0} (a : IpAllocator W) (lo hi : ℕ) (r : IsRange a lo hi) (t : IsTable a.store)
    (g : IsRegistry a.store t) (no_gateway : a.conf.gateway ≡ none) (fuel : ℕ)
    (enough : hi - lo < fuel) (name : String) (not_address : parse_ip name ≡ none) (s : State W)
    (kept : g.IsKept s.world) where
  free_here : Option ℕ
  free_here = free a lo hi r t g no_gateway fuel enough name s kept

  answers : Option ℕ → Result String × State W
  answers = answer a lo hi r t g no_gateway fuel enough name s kept

  Owed : ℕ → Type 0
  Owed n =
      (t.holder s.world n ≡ some name)
      ⊎ ((t.holder s.world n ≡ none) × Holds (t.holder s.world) name none)

  -- A granted address is one that the name had, or one that was free.
  Grants : State W → ℕ → Type 0
  Grants s' n =
      (n < 4294967296)
      × Owed n
      × g.IsKept s'.world
      × ((m : ℕ)
          → m < 4294967296
          → t.holder s'.world m ≡ (if n == m then some name else t.holder s.world m))

  held-Grants : (n : ℕ) → Holds (t.holder s.world) name (some n) → Grants s n
  unfolding Grants Owed
  held-Grants n (lt, h) = (
    lt,
    inl h,
    kept,
    λ m k. elim (Bool-cases (n == m)) [
      | inl e ↦ ground (arith, ap (t.holder s.world))
      | inr e ↦ rw e refl
    ],
  )

  free-Grants :
      (n : ℕ)
      → free_here ≡ some n
      → Holds (t.holder s.world) name none
      → Grants (given a name s (some n)).1 n
  unfolding Grants Owed free_here
  free-Grants n e none_held =
      let (bounds, f) = free-some a lo hi r t g no_gateway fuel enough name s kept n e in
      let lt : n < 4294967296 = ground (arith, r) in
      (
        lt,
        inr (f, none_held),
        g.kept-reserve name n s.world lt f kept,
        λ m k. t.holder-reserve name n m s.world lt k f,
      )

  none_given : (addr : String) → free_here ≡ none → (answers none).0 ≢ ok addr
  unfolding answers free_here
  none_given addr e h = ground (arith, e)

  given_text :
      (n : ℕ) (addr : String) → (given a name s (some n)).0 ≡ ok addr → addr ≡ ip_string (v4 n)
  given_text n addr h = cc

  answers-ok :
      (o : Option ℕ) (addr : String)
      → Holds (t.holder s.world) name o
      → (answers o).0 ≡ ok addr
      → (n : ℕ) × (addr ≡ ip_string (v4 n)) × Grants (answers o).1 n
  unfolding answers free_here
  answers-ok (some n) addr h e = (n, cc, held-Grants n h)
  answers-ok none addr h e = elim (Option-cases free_here) [
    | inl e' ↦ absurd (none_given addr e' e)
    | inr (n, e') ↦ rw e' (n, given_text n addr (rw e' at e), free-Grants n e' h)
  ]

  -- With no address asked for and no gateway, a store that keeps its table of holders, a name
  -- that is not the text of an address, and fuel for each address of the range: a name that
  -- RequireIP gives an address to holds it from then on. Before, it held this address already, or
  -- it held none and the address had no holder; every other address keeps the holder it had.
  pub require_ip-holder :
      (addr : String)
      → (require_ip a fuel name "" s).0 ≡ ok addr
      → (n : ℕ) × (addr ≡ ip_string (v4 n))
        × (n < 4294967296)
        × ((t.holder s.world n ≡ some name)
            ⊎ ((t.holder s.world n ≡ none)
                × ((m : ℕ) → m < 4294967296 → t.holder s.world m ≢ some name)))
        × g.IsKept (require_ip a fuel name "" s).1.world
        × ((m : ℕ)
            → m < 4294967296
            → t.holder (require_ip a fuel name "" s).1.world m
              ≡ (if n == m then some name else t.holder s.world m))
  unfolding answers Grants Owed
  require_ip-holder addr e =
      let (o, same, h) =
        require_ip-answer a lo hi r t g no_gateway fuel enough name s kept not_address in
      let (n, text, (lt, old, k, all)) = answers-ok o addr h (rw same at e) in
      rw same (n, text, lt, old, k, all)
