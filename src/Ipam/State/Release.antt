-- ===== src/Ipam/State/Release.antt =====
-- ReleaseIP, and RequireIP after it.
use mathlib.Core.Option
use lbmanager.Base.{
  ◌≡◌, ◌≢◌, refl, sym, ◌∙◌, ℕ, ◌-◌, ◌<◌, ◌≤◌, String, true, Option, none, some, ◌==◌, ==_iff,
  ==_self, nat_eq, string_eq, if◌then◌else◌, arith, Bool-cases, inl, inr, is_ok, ok,
}
use lbmanager.Base.Dict.{erase}
use lbmanager.Net.{parse_ip}
use lbmanager.Ipv4.{v4_mapped}
use lbmanager.Ipam.Allocator.{release}
use lbmanager.Ipam.Allocator.Config.{IpAllocator}
use lbmanager.Ipam.Allocator.Laws.{IsTable}
use lbmanager.Ipam.Allocator.Search.{IsRange}
use lbmanager.Ipam.Allocator.Registry.{IsRegistry, IsSingle, Holds}
use lbmanager.Ipam.State.{State, require_ip, release_ip, drop_cache}
use lbmanager.Ipam.State.Again.{require_ip-fails_iff}

-- The holder of an address once the name holds none.
abbrev pub without : String → Option String → Option String
without name none = none
without name (some x) = if x == name then none else some x

pub without-other : (name : String) (o : Option String) → o ≢ some name → o ≡ without name o
without-other name none h = refl
without-other name (some x) h = ground (arith, ==_iff x name)

pub without-some : (name x : String) (o : Option String) → without name o ≡ some x → o ≡ some x
without-some name x none h = absurd cc
without-some name x (some y) h = ground (arith, ==_iff y name)

-- A table that gives no name two addresses gives none after a release.
pub IsSingle-without :
    (name : String) (before after : ℕ → Option String)
    → IsSingle before
    → ((m : ℕ) → m < 4294967296 → after m ≡ without name (before m))
    → IsSingle after
IsSingle-without name before after single all n m id ln lm hn hm =
    single n m id ln lm (without-some name id (before n) (sym (all n ln) ∙ hn))
      (without-some name id (before m) (sym (all m lm) ∙ hm))

pub num_eq : (n m : ℕ) → (n == m) ≡ true → n ≡ m
num_eq n m h = ground arith

-- The holders once the address of the name is free.
pub freed :
    (name : String) (before : ℕ → Option String) (n m : ℕ)
    → n < 4294967296
    → m < 4294967296
    → before n ≡ some name
    → IsSingle before
    → (o : Option String) → o ≡ (if n == m then none else before m)
    → o ≡ without name (before m)
freed name before n m lt lm h single o e = elim (Bool-cases (n == m)) [
  | inl same ↦
      let at_m : before m ≡ some name = rw (num_eq n m same) at h in
      rw at_m (ground (arith, ==_self name))
  | inr other ↦
      rw (e, other)
        (without-other name (before m) (λ k. absurd (ground (arith, single n m name lt lm h k))))
]

module _ {W : Type 0} (a : IpAllocator W) (t : IsTable a.store) (g : IsRegistry a.store t)
    (name : String) (not_address : parse_ip name ≡ none) (s : State W)
    (kept : g.IsKept s.world) where
  released : State W
  released = (release_ip a name s).1

  release_lem :
      (w : W)
      → a.store.release_by_id name s.world ≡ (ok tt, w)
      → release_ip a name s ≡ (ok tt, record { cache = erase name s.cache; world = w })
  unfolding release_ip release drop_cache
  release_lem w h = rw (t.lock_lem, h, t.unlock_lem)

  -- The holders behind a release of the name's address.
  pub gone :
      (n m : ℕ)
      → n < 4294967296
      → m < 4294967296
      → t.holder s.world n ≡ some name
      → IsSingle (t.holder s.world)
      → (o : Option String) → o ≡ (if n == m then none else t.holder s.world m)
      → o ≡ without name (t.holder s.world m)
  gone n m lt lm h single o e = freed name (t.holder s.world) n m lt lm h single o e

  dropped :
      (o : Option ℕ)
      → a.store.exist name s.world ≡ (ok (Option.map v4_mapped o), s.world)
      → Holds (t.holder s.world) name o
      → IsSingle (t.holder s.world)
      → ((release_ip a name s).0 ≡ ok tt)
        × g.IsKept (release_ip a name s).1.world
        × ((m : ℕ)
            → m < 4294967296
            → t.holder (release_ip a name s).1.world m ≡ without name (t.holder s.world m))
  dropped none e h single =
      rw (release_lem s.world (g.release_none name s.world e))
        (refl, kept, λ m lt. without-other name (t.holder s.world m) (h m lt))
  dropped (some n) e (lt, h) single =
      let (w, same, k, all) = g.release_some name n s.world kept lt h e in
      rw (release_lem w same) (refl, k, λ m lm. gone n m lt lm h single (t.holder w m) (all m lm))

  -- ReleaseIP of a name that is not the text of an address, from a store that keeps its table of
  -- holders and gives no name two addresses: it succeeds, the name holds no address any more, and
  -- every other address keeps its holder. The store goes on keeping its table.
  pub release_ip-holder :
      IsSingle (t.holder s.world)
      → ((release_ip a name s).0 ≡ ok tt)
        × g.IsKept (release_ip a name s).1.world
        × ((m : ℕ)
            → m < 4294967296
            → t.holder (release_ip a name s).1.world m ≡ without name (t.holder s.world m))
  release_ip-holder single =
      let (o, e, h) = g.exist_lem name s.world not_address kept in dropped o e h single

-- When ReleaseIP has taken an address of the range from a name, in a store that keeps its table
-- of holders and gives no name two addresses, RequireIP gives an address to any name that asks
-- for none in particular, however full the range was before. The names are not the texts of
-- addresses, there is no gateway, and there is fuel for each address of the range.
pub require_ip-release_ip :
    {W : Type 0} (a : IpAllocator W) (lo hi : ℕ) (r : IsRange a lo hi) (t : IsTable a.store)
    (g : IsRegistry a.store t) (no_gateway : a.conf.gateway ≡ none) (fuel : ℕ)
    (enough : hi - lo < fuel) (name other : String) (not_address : parse_ip name ≡ none)
    (other_not_address : parse_ip other ≡ none) (s : State W) (kept : g.IsKept s.world)
    (single : IsSingle (t.holder s.world)) (n : ℕ) (low : lo ≤ n) (high : n ≤ hi)
    (held : t.holder s.world n ≡ some name)
    → is_ok (require_ip a fuel other "" (release_ip a name s).1).0 ≡ true
require_ip-release_ip a lo hi r t g no_gateway fuel enough name other not_address other_not_address
      s kept single n low high held =
    let (done, k, all) = release_ip-holder a t g name not_address s kept single in
    let fails =
      (require_ip-fails_iff a lo hi r t g no_gateway fuel enough other other_not_address
        (release_ip a name s).1 k).0 in
    let free : t.holder (release_ip a name s).1.world n ≡ none =
      rw (all n (ground (arith, r)), held) (ground (arith, ==_self name)) in
    elim (Bool-cases (is_ok (require_ip a fuel other "" (release_ip a name s).1).0)) [
      | inl e ↦ e
      | inr e ↦ absurd ((fails.0 e).1 n low high free)
    ]
