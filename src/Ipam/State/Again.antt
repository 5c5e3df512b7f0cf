-- ===== src/Ipam/State/Again.antt =====
-- RequireIP called again, and the invariant of the table of holders.
use lbmanager.Base.{
  ◌≡◌, ◌≢◌, ◌↔◌, ◌⊎◌, refl, ap, ◌∙◌, ℕ, ◌-◌, ◌<◌, ◌≤◌, String, false, Option, none, some, ◌==◌,
  nat_eq, if◌then◌else◌, arith, Option-cases, Bool-cases, inl, inr, is_ok, Result, ok, err, errorf,
  str, Args,
}
use lbmanager.Base.Monad.Inversion.{is_ok-ok}
use lbmanager.Net.{parse_ip}
use lbmanager.Ipam.Allocator.Config.{IpAllocator}
use lbmanager.Ipam.Allocator.Laws.{IsTable}
use lbmanager.Ipam.Allocator.Search.{IsRange}
use lbmanager.Ipam.Allocator.Registry.{IsRegistry, IsSingle, Holds}
use lbmanager.Ipam.State.{State, require_ip}
use lbmanager.Ipam.State.Require.{free, free-none, free-some, given, answer, require_ip-answer}
use lbmanager.Ipam.State.Leases.{require_ip-holder}

-- After one more entry, the name that held none holds that address alone.
only :
    (before after : ℕ → Option String) (name : String) (n : ℕ) (o : Option ℕ)
    → n < 4294967296
    → Holds before name none
    → ((m : ℕ) → m < 4294967296 → after m ≡ (if n == m then some name else before m))
    → Holds after name o
    → o ≡ some n
only before after name n none lt free all h = absurd (h n lt (ground (arith, all n lt)))
only before after name n (some k) lt free all (lk, h) = elim (Bool-cases (n == k)) [
  | inl e ↦ ground arith
  | inr e ↦ absurd (free k lk (ground (arith, all k lk)))
]

-- One entry keeps the table single, if it is the name's own or the name holds none.
IsSingle-entry :
    (before after : ℕ → Option String) (name : String) (n : ℕ)
    → n < 4294967296
    → IsSingle before
    → (before n ≡ some name) ⊎ ((before n ≡ none) × Holds before name none)
    → ((m : ℕ) → m < 4294967296 → after m ≡ (if n == m then some name else before m))
    → IsSingle after
IsSingle-entry before after name n lt single (inl h) all j k id lj lk hj hk =
    ground
      (arith, all j lj, all k lk, single j k id lj lk, single n k id lt lk, single j n id lj lt)
IsSingle-entry before after name n lt single (inr (h, free)) all j k id lj lk hj hk =
    ground (arith, all j lj, all k lk, single j k id lj lk, free j lj, free k lk)

given-fails :
    {W : Type 0} (a : IpAllocator W) (name : String) (s : State W) (o : Option ℕ)
    → is_ok (given a name s o).0 ≡ false
    → o ≡ none
given-fails a name s none h = refl
given-fails a name s (some n) h = absurd (ground arith)

module _ {W : Type 0} (a : IpAllocator W) (lo hi : ℕ) (r : IsRange a lo hi) (t : IsTable a.store)
    (g : IsRegistry a.store t) (no_gateway : a.conf.gateway ≡ none) (fuel : ℕ)
    (enough : hi - lo < fuel) (name : String) (not_address : parse_ip name ≡ none) (s : State W)
    (kept : g.IsKept s.world) where
  called : Result String × State W
  called = require_ip a fuel name "" s

  again :
      (addr : String) (o : Option ℕ)
      → called ≡ answer a lo hi r t g no_gateway fuel enough name s kept o
      → Holds (t.holder s.world) name o
      → called.0 ≡ ok addr
      → require_ip a fuel name "" called.1 ≡ (ok addr, called.1)
  unfolding called
  again addr (some n) same h e = rw (same, same) (ap (λ x. (x, s)) (rw same at e))
  again addr none same h e =
      let (n, text, lt, old, k, all) =
        require_ip-holder a lo hi r t g no_gateway fuel enough name not_address s kept addr e in
      let (o, same', h') =
        require_ip-answer a lo hi r t g no_gateway fuel enough name called.1 k not_address in
      let at_n : o ≡ some n =
        only (t.holder s.world) (t.holder called.1.world) name n o lt h all h' in
      rw (same', at_n, text)

  -- With no address asked for and no gateway, a store that keeps its table of holders, a name
  -- that is not the text of an address, and fuel for each address of the range: when RequireIP
  -- has given an address, the next call with this name gives the same address and changes
  -- nothing.
  pub require_ip-again :
      (addr : String)
      → (require_ip a fuel name "" s).0 ≡ ok addr
      → require_ip a fuel name "" (require_ip a fuel name "" s).1
        ≡ (ok addr, (require_ip a fuel name "" s).1)
  unfolding called
  require_ip-again addr e =
      let (o, same, h) =
        require_ip-answer a lo hi r t g no_gateway fuel enough name s kept not_address in
      again addr o same h e

  unchanged :
      (o : Option ℕ)
      → called ≡ answer a lo hi r t g no_gateway fuel enough name s kept o
      → Holds (t.holder s.world) name o
      → is_ok called.0 ≡ false
      → (called.1 ≡ s)
        × Holds (t.holder s.world) name none
        × (free a lo hi r t g no_gateway fuel enough name s kept ≡ none)
  unfolding called
  unchanged (some n) same h e = absurd (ground (arith, rw same at e))
  unchanged none same h e =
      let q =
        given-fails a name s (free a lo hi r t g no_gateway fuel enough name s kept)
          (rw same at e) in
      (rw (same, q) refl, h, q)

  -- With no address asked for and no gateway, a store that keeps its table of holders, a name
  -- that is not the text of an address, and fuel for each address of the range: if no name holds
  -- two addresses, none does after RequireIP, whether or not it gives an address.
  pub require_ip-IsSingle :
      IsSingle (t.holder s.world) → IsSingle (t.holder (require_ip a fuel name "" s).1.world)
  unfolding called
  require_ip-IsSingle single = elim (Bool-cases (is_ok called.0)) [
    | inl e ↦
        let (addr, given_addr) = is_ok-ok called.0 e in
        let (n, text, lt, old, k, all) =
          require_ip-holder a lo hi r t g no_gateway fuel enough name not_address s kept addr
            given_addr in
        IsSingle-entry (t.holder s.world) (t.holder called.1.world) name n lt single old all
    | inr e ↦
        let (o, same, h) =
          require_ip-answer a lo hi r t g no_gateway fuel enough name s kept not_address in
        rw (unchanged o same h e).0 single
  ]

  exhausted :
      (o : Option ℕ)
      → called ≡ answer a lo hi r t g no_gateway fuel enough name s kept o
      → Holds (t.holder s.world) name o
      → Holds (t.holder s.world) name none
      → ((n : ℕ) → lo ≤ n → n ≤ hi → t.holder s.world n ≢ none)
      → called
        ≡ (err (errorf "no IP addresses available in network: %s" (str a.conf.name Args.end)), s)
  exhausted (some n) same h none_held all = absurd (none_held n h.0 h.1)
  exhausted none same h none_held all =
      elim (Option-cases (free a lo hi r t g no_gateway fuel enough name s kept)) [
        | inl q ↦ same ∙ ap (given a name s) q
        | inr (n, q) ↦
            let (bounds, f) = free-some a lo hi r t g no_gateway fuel enough name s kept n q in
            absurd (all n bounds.0 bounds.1 f)
      ]

  full :
      (o : Option ℕ)
      → called ≡ answer a lo hi r t g no_gateway fuel enough name s kept o
      → Holds (t.holder s.world) name o
      → is_ok called.0 ≡ false
      → Holds (t.holder s.world) name none × ((n : ℕ) → lo ≤ n → n ≤ hi → t.holder s.world n ≢ none)
  full o same h e =
      let (u, none_held, q) = unchanged o same h e in
      (none_held, free-none a lo hi r t g no_gateway fuel enough name s kept q)

  -- With no address asked for and no gateway, a store that keeps its table of holders, a name
  -- that is not the text of an address, and fuel for each address of the range: RequireIP fails
  -- exactly if the name holds no address and every address of the range has a holder, and then
  -- the error says so and nothing changes.
  pub require_ip-fails_iff :
      ((is_ok (require_ip a fuel name "" s).0 ≡ false) ↔ (
        ((m : ℕ) → m < 4294967296 → t.holder s.world m ≢ some name)
        × ((n : ℕ) → lo ≤ n → n ≤ hi → t.holder s.world n ≢ none)))
      × ((require_ip a fuel name "" s ≡ (
        err (errorf "no IP addresses available in network: %s" (str a.conf.name Args.end)),
        s,
      ))
          ↔ (((m : ℕ) → m < 4294967296 → t.holder s.world m ≢ some name)
              × ((n : ℕ) → lo ≤ n → n ≤ hi → t.holder s.world n ≢ none)))
  unfolding called
  require_ip-fails_iff =
      let (o, same, h) =
        require_ip-answer a lo hi r t g no_gateway fuel enough name s kept not_address in
      (
        (full o same h, λ (none_held, all). rw (exhausted o same h none_held all) refl),
        (λ e. full o same h (rw e refl), λ (none_held, all). exhausted o same h none_held all),
      )
