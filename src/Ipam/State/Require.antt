-- ===== src/Ipam/State/Require.antt =====
-- RequireIP with no address asked for.
use mathlib.Core.Option
use lbmanager.Base.{
  ◌≡◌, ◌≢◌, ap, ◌∙◌, ℕ, ◌-◌, ◌<◌, ◌≤◌, String, true, Option, none, some, nat_eq, string_eq, Result,
  ok, err, errorf, str, Args,
}
use lbmanager.Base.Dict.{insert}
use lbmanager.Net.{ip_string, parse_ip}
use lbmanager.Ipv4.{v4, v4_mapped}
use lbmanager.Ipv4.Text.{ip_string-v4_in_v6}
use lbmanager.Ipv4.Plain.{ip_string_nonempty, no_address}
use lbmanager.Ipam.Allocator.{get, get_exist, granted}
use lbmanager.Ipam.Allocator.Config.{IpAllocator}
use lbmanager.Ipam.Allocator.Laws.{IsTable}
use lbmanager.Ipam.Allocator.Search.{IsRange}
use lbmanager.Ipam.Allocator.Get.{IsRecorded, grant}
use lbmanager.Ipam.Allocator.Leases.{found, get-found, found-some, found-none}
use lbmanager.Ipam.Allocator.Registry.{IsRegistry, Holds}
use lbmanager.Ipam.State.{State, known, keep, require_ip, settle, assign, put_cache}

known_mapped : (n : ℕ) → n < 4294967296 → known (some (v4_mapped n)) "" ≡ keep (ip_string (v4 n))
unfolding known
known_mapped n h = rw (ip_string-v4_in_v6, ip_string_nonempty n h)

-- The result of RequireIP for the address that it has found for a name without one.
abbrev pub given :
    {W : Type 0} → IpAllocator W → String → State W → Option ℕ → Result String × State W
given a name s none =
    (err (errorf "no IP addresses available in network: %s" (str a.conf.name Args.end)), s)
given a name s (some n) = (
  ok (ip_string (v4 n)),
  record {
    cache = insert name (ip_string (v4 n)) s.cache;
    world = (a.store.reserve name (v4 n) s.world).1;
  },
)

module _ {W : Type 0} (a : IpAllocator W) (t : IsTable a.store) where
  pub get_exist_lem :
      (name : String) (o : Option ℕ) (w : W)
      → a.store.exist name w ≡ (ok (Option.map v4_mapped o), w)
      → get_exist a name w ≡ (ok (Option.map v4_mapped o), w)
  unfolding get_exist
  get_exist_lem name o w h = rw (t.lock_lem, h, t.unlock_lem)

  -- A name that holds an address keeps it.
  require_held :
      (fuel : ℕ) (name : String) (n : ℕ) (s : State W)
      → n < 4294967296
      → a.store.exist name s.world ≡ (ok (some (v4_mapped n)), s.world)
      → require_ip a fuel name "" s ≡ (ok (ip_string (v4 n)), s)
  unfolding require_ip settle
  require_held fuel name n s lt h =
      rw (get_exist_lem name (some n) s.world h)
        (ap (λ k. settle a fuel name "" k s) (known_mapped n lt))

  require_new :
      (fuel : ℕ) (name : String) (s : State W)
      → a.store.exist name s.world ≡ (ok none, s.world)
      → require_ip a fuel name "" s ≡ assign a fuel name "" s
  unfolding require_ip settle known
  require_new fuel name s h = rw (get_exist_lem name none s.world h)

  assign_lem :
      (fuel : ℕ) (name : String) (s : State W) (o : Option ℕ)
      → get a fuel name none true s.world ≡ grant a name s.world o
      → assign a fuel name "" s ≡ given a name s o
  unfolding assign granted put_cache
  assign_lem fuel name s none h = rw (no_address, h)
  assign_lem fuel name s (some n) h = rw (no_address, h)

-- The address that Get finds in this world, if one is free.
module _ {W : Type 0} (a : IpAllocator W) (lo hi : ℕ) (r : IsRange a lo hi) (t : IsTable a.store)
    (g : IsRegistry a.store t) (no_gateway : a.conf.gateway ≡ none) (fuel : ℕ)
    (enough : hi - lo < fuel) (name : String) (s : State W) (kept : g.IsKept s.world) where
  recorded : IsRecorded a (g.recorded_lem s.world kept).0 s.world
  recorded =
      let (l, read, same) = g.recorded_lem s.world kept in
      record { read_lem = read; world_lem = same }

  pub free : Option ℕ
  free =
      found a lo hi r t no_gateway name fuel (g.recorded_lem s.world kept).0 s.world recorded enough

  pub free-some : (n : ℕ) → free ≡ some n → ((lo ≤ n) × (n ≤ hi)) × (t.holder s.world n ≡ none)
  unfolding free
  free-some =
      found-some a lo hi r t no_gateway name fuel (g.recorded_lem s.world kept).0 s.world recorded
        enough

  pub free-none : free ≡ none → (n : ℕ) → lo ≤ n → n ≤ hi → t.holder s.world n ≢ none
  unfolding free
  free-none =
      found-none a lo hi r t no_gateway name fuel (g.recorded_lem s.world kept).0 s.world recorded
        enough

  -- What RequireIP gives for the address that the name holds.
  abbrev pub answer : Option ℕ → Result String × State W
  answer (some n) = (ok (ip_string (v4 n)), s)
  answer none = given a name s free

  settled :
      (o : Option ℕ)
      → a.store.exist name s.world ≡ (ok (Option.map v4_mapped o), s.world)
      → Holds (t.holder s.world) name o
      → require_ip a fuel name "" s ≡ answer o
  unfolding free
  settled (some n) e h = require_held a t fuel name n s h.0 e
  settled none e h =
      require_new a t fuel name s e
      ∙ assign_lem a t fuel name s free (
          get-found a lo hi r t no_gateway name fuel (g.recorded_lem s.world kept).0 s.world
            recorded enough)

  pub require_ip-answer :
      parse_ip name ≡ none
      → (o : Option ℕ) × (require_ip a fuel name "" s ≡ answer o) × Holds (t.holder s.world) name o
  require_ip-answer p = let (o, e, h) = g.exist_lem name s.world p kept in (o, settled o e h, h)
