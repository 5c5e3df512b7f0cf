-- ===== src/Ipam/State/Requested/Assign.antt =====
-- The second part of RequireIP, with an address asked for.
use lbmanager.Base.{
  ◌≡◌, ◌≢◌, refl, ◌∙◌, ℕ, ◌<◌, String, Bool, true, false, ◌&&◌, Option, none, some, ◌==◌, ==_iff,
  nat_eq, string_eq, if◌then◌else◌, arith, Bool-cases, Option-cases, inl, inr, Result, Error, ok,
  err,
}
use lbmanager.Base.Dict.{insert}
use lbmanager.Net.{ip_string}
use lbmanager.Ipv4.{v4, v4_mapped}
use lbmanager.Ipv4.Text.{parse_ip-ip_string, ip_string-v4_in_v6}
use lbmanager.Ipam.Backend.{Store}
use lbmanager.Ipam.Allocator.{get, granted}
use lbmanager.Ipam.Allocator.Config.{IpAllocator}
use lbmanager.Ipam.Allocator.Laws.{IsTable}
use lbmanager.Ipam.Allocator.Search.{IsRange}
use lbmanager.Ipam.Allocator.Registry.{IsRegistry}
use lbmanager.Ipam.Allocator.Requested.{is_allowed, taken, get_refused, get_taken, get_new}
use lbmanager.Ipam.State.{State, assign, put_cache}

-- The address can be reserved: it has no holder and may be given out.
abbrev pub is_new : Bool → Option String → Bool
is_new allowed none = allowed
is_new allowed (some x) = false

-- The name gets the address, or has it already.
abbrev pub is_given : Bool → String → Option String → Bool
is_given allowed name none = allowed
is_given allowed name (some x) = x == name

pub is_given-is_new :
    (allowed : Bool) (name : String) (o : Option String)
    → o ≢ some name
    → is_given allowed name o ≡ is_new allowed o
is_given-is_new allowed name none h = refl
is_given-is_new allowed name (some x) h = ground (arith, ==_iff x name)

abbrev pub answer_of : {A : Type 0} → Result A → Option A
answer_of (ok x) = some x
answer_of (err e) = none

-- What a call does: the answer, the cache and the table of holders, where `new` tells whether the
-- address has been reserved.
abbrev pub Does :
    {W : Type 0} {st : Store W} {t : IsTable st}
    → IsRegistry st t
    → String
    → ℕ
    → State W
    → Bool
    → Bool
    → (ℕ → Option String)
    → Result String × State W
    → Type 0
Does {t = t} g name n s new given rest (x, s') =
    (answer_of x ≡ (if given then some (ip_string (v4 n)) else none))
    × (s'.cache ≡ (if new then insert name (ip_string (v4 n)) s.cache else s.cache))
    × g.IsKept s'.world
    × ((m : ℕ)
        → m < 4294967296
        → t.holder s'.world m ≡ (if n == m && given then some name else rest m))

module _ {W : Type 0} (a : IpAllocator W) (lo hi : ℕ) (r : IsRange a lo hi) (t : IsTable a.store)
    (g : IsRegistry a.store t) (no_gateway : a.conf.gateway ≡ none) (fuel : ℕ) (name : String)
    (n : ℕ) (lt : n < 4294967296) (s : State W) (kept : g.IsKept s.world) where
  assign_failed :
      (e : Error)
      → get a fuel name (some (v4_mapped n)) true s.world ≡ (err e, s.world)
      → Does g name n s false false (t.holder s.world) (assign a fuel name (ip_string (v4 n)) s)
  unfolding assign
  assign_failed e h = rw (parse_ip-ip_string n lt, h) (refl, refl, kept, λ m lm. ground arith)

  assign_done :
      is_allowed a lo hi n ≡ true
      → t.holder s.world n ≡ none
      → Does g name n s true true (t.holder s.world) (assign a fuel name (ip_string (v4 n)) s)
  unfolding assign granted put_cache
  assign_done h free =
      rw
        (
          parse_ip-ip_string n lt,
          get_new a lo hi r t no_gateway fuel name n s.world h lt free,
          ip_string-v4_in_v6,
        )
        (
          refl,
          refl,
          g.kept-reserve name n s.world lt free kept,
          λ m lm. t.holder-reserve name n m s.world lt lm free ∙ ground arith,
        )

  pub assign_lem :
      Does g name n s
        (is_new (is_allowed a lo hi n) (t.holder s.world n))
        (is_new (is_allowed a lo hi n) (t.holder s.world n))
        (t.holder s.world)
        (assign a fuel name (ip_string (v4 n)) s)
  assign_lem = elim (Option-cases (t.holder s.world n)) [
    | inr (x, h) ↦ elim (Bool-cases (is_allowed a lo hi n)) [
      | inl y ↦ rw h (
          assign_failed (taken a n) (
            get_taken a lo hi r t no_gateway fuel name n s.world y lt
              (λ e. absurd (ground (arith, h)))))
      | inr y ↦
          let (e, run) = get_refused a lo hi r t no_gateway fuel name n s.world y in
          rw h (assign_failed e run)
    ]
    | inl h ↦ elim (Bool-cases (is_allowed a lo hi n)) [
      | inl y ↦ rw (h, y) (assign_done y h)
      | inr y ↦
          let (e, run) = get_refused a lo hi r t no_gateway fuel name n s.world y in
          rw (h, y) (assign_failed e run)
    ]
  ]
