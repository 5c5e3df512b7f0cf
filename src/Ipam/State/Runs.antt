-- ===== src/Ipam/State/Runs.antt =====
-- Any sequence of calls of RequireIP and ReleaseIP.
use lbmanager.Base.{
  ◌≡◌, ◌≢◌, ◌⊎◌, ap, sym, ◌∙◌, ℕ, ◌-◌, ◌<◌, String, Option, none, some, List, [], ◌∷◌, ◌==◌, ==_iff,
  nat_eq, string_eq, if◌then◌else◌, arith, Bool-cases, inl, inr, is_ok, All,
}
use lbmanager.Base.Monad.Inversion.{is_ok-ok}
use lbmanager.Net.{parse_ip}
use lbmanager.Ipam.Allocator.Config.{IpAllocator}
use lbmanager.Ipam.Allocator.Laws.{IsTable}
use lbmanager.Ipam.Allocator.Search.{IsRange}
use lbmanager.Ipam.Allocator.Registry.{IsRegistry, IsSingle}
use lbmanager.Ipam.State.{State, require_ip, release_ip}
use lbmanager.Ipam.State.Leases.{require_ip-holder}
use lbmanager.Ipam.State.Again.{require_ip-IsSingle, require_ip-fails_iff}
use lbmanager.Ipam.State.Release.{release_ip-holder, without, IsSingle-without, num_eq}

-- A call, with the name that it is for; RequireIP asks for no address in particular.
pub data Call : Type 0 where
  required released : String → Call

abbrev pub name_of : Call → String
name_of (required name) = name
name_of (released name) = name

-- The call does not release the name.
abbrev pub Spares : String → Call → Type 0
Spares name (required other) = Unit
Spares name (released other) = other ≢ name

module _ {W : Type 0} (a : IpAllocator W) (fuel : ℕ) where
  abbrev pub call : Call → State W → State W
  call (required name) s = (require_ip a fuel name "" s).1
  call (released name) s = (release_ip a name s).1

  unfoldable pub play : List Call → State W → State W
  play [] s = s
  play (c ∷ calls) s = play calls (call c s)

owner :
    (name x : String) (o : Option String) (P : Type 0)
    → (o ≡ some name) ⊎ ((o ≡ none) × P)
    → o ≡ some x
    → some name ≡ some x
owner name x o P (inl e) h = sym e ∙ h
owner name x o P (inr (e, p)) h = absurd cc

kept_by_entry :
    (before after : ℕ → Option String) (name x : String) (n m : ℕ) (P : Type 0)
    → (before n ≡ some name) ⊎ ((before n ≡ none) × P)
    → after m ≡ (if n == m then some name else before m)
    → before m ≡ some x
    → after m ≡ some x
kept_by_entry before after name x n m P old e h = elim (Bool-cases (n == m)) [
  | inr other ↦ e ∙ (rw other h)
  | inl same ↦
      let at_n : before n ≡ some x = ap before (num_eq n m same) ∙ h in
      e ∙ rw same (owner name x (before n) P old at_n)
]

without-spared :
    (name x : String) (o : Option String) → name ≢ x → o ≡ some x → without name o ≡ some x
without-spared name x o h e = rw e (ground (arith, ==_iff x name))

module _ {W : Type 0} (a : IpAllocator W) (lo hi : ℕ) (r : IsRange a lo hi) (t : IsTable a.store)
    (g : IsRegistry a.store t) (no_gateway : a.conf.gateway ≡ none) (fuel : ℕ)
    (enough : hi - lo < fuel) where
  -- The table is kept, and gives no name two addresses.
  abbrev pub IsSound : State W → Type 0
  IsSound s = g.IsKept s.world × IsSingle (t.holder s.world)

  -- What a call does to the entries of a name that it does not release.
  abbrev Keeps : String → State W → State W → Type 0
  Keeps x s s' =
      (m : ℕ) → m < 4294967296 → t.holder s.world m ≡ some x → t.holder s'.world m ≡ some x

  required_lem :
      (name : String) (s : State W)
      → parse_ip name ≡ none
      → IsSound s
      → IsSound (require_ip a fuel name "" s).1
        × ((x : String) → Keeps x s (require_ip a fuel name "" s).1)
  required_lem name s p (kept, single) =
      let still = require_ip-IsSingle a lo hi r t g no_gateway fuel enough name p s kept single in
      elim (Bool-cases (is_ok (require_ip a fuel name "" s).0)) [
        | inl e ↦
            let (addr, given) = is_ok-ok (require_ip a fuel name "" s).0 e in
            let (n, text, lt, old, k, all) =
              require_ip-holder a lo hi r t g no_gateway fuel enough name p s kept addr given in
            (
              (k, still),
              λ x m lm h.
                  kept_by_entry (t.holder s.world) (t.holder (require_ip a fuel name "" s).1.world)
                    name x n m _ old (all m lm) h,
            )
        | inr e ↦
            let (fails, run) =
              require_ip-fails_iff a lo hi r t g no_gateway fuel enough name p s kept in
            let same = ap (λ y. y.1) (run.1 (fails.0 e)) in
            ((rw same kept, still), λ x m lm h. rw same h)
      ]

  released_lem :
      (name : String) (s : State W)
      → parse_ip name ≡ none
      → IsSound s
      → IsSound (release_ip a name s).1
        × ((x : String) → name ≢ x → Keeps x s (release_ip a name s).1)
  released_lem name s p (kept, single) =
      let (done, k, all) = release_ip-holder a t g name p s kept single in
      (
        (
          k,
          IsSingle-without name (t.holder s.world) (t.holder (release_ip a name s).1.world) single
              all,
        ),
        λ x other m lm h. all m lm ∙ without-spared name x _ other h,
      )

  call_lem :
      (c : Call) (s : State W)
      → parse_ip (name_of c) ≡ none
      → IsSound s
      → IsSound (call a fuel c s) × ((x : String) → Spares x c → Keeps x s (call a fuel c s))
  call_lem (required name) s p sound =
      let (after, keeps) = required_lem name s p sound in (after, λ x spared. keeps x)
  call_lem (released name) s p sound = released_lem name s p sound

  -- With no gateway and fuel for each address of the range, from a store that keeps its table of
  -- holders and gives no name two addresses: after any sequence of RequireIP, with no address asked
  -- for, and ReleaseIP, for names that are not the texts of addresses, the store still keeps its
  -- table and gives no name two addresses.
  pub play-IsSound :
      (calls : List Call) (s : State W)
      → All (λ c. parse_ip (name_of c) ≡ none) calls
      → IsSound s
      → IsSound (play a fuel calls s)
  unfolding play
  play-IsSound [] s names sound = sound
  play-IsSound (c ∷ calls) s (p, names) sound =
      play-IsSound calls (call a fuel c s) names (call_lem c s p sound).0

  -- With no gateway and fuel for each address of the range, from a store that keeps its table of
  -- holders and gives no name two addresses: a name keeps the address that it holds through any
  -- sequence of RequireIP, with no address asked for, and ReleaseIP, for names that are not the
  -- texts of addresses, as long as no call releases it.
  pub play-holder :
      (calls : List Call) (s : State W)
      → All (λ c. parse_ip (name_of c) ≡ none) calls
      → IsSound s
      → (name : String) → All (Spares name) calls
      → (m : ℕ) → m < 4294967296
      → t.holder s.world m ≡ some name
      → t.holder (play a fuel calls s).world m ≡ some name
  unfolding play
  play-holder [] s names sound name spared m lt h = h
  play-holder (c ∷ calls) s (p, names) sound name (spare, spared) m lt h =
      let (after, keeps) = call_lem c s p sound in
      play-holder calls (call a fuel c s) names after name spared m lt (keeps name spare m lt h)
