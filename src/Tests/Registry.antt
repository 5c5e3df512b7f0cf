-- ===== src/Tests/Registry.antt =====
-- Witnesses for RequireIP and ReleaseIP, and for the store in etcd below them.
use mathlib.Core.Option
use lbmanager.Base.{
  ◌≡◌, ◌≢◌, ◌↔◌, refl, sym, ◌∙◌, Option, Bool-cases, ℕ, ◌<◌, ◌≤◌, String, true, false, none, some,
  [], arith, ok, inl, inr, is_ok, ◌==◌, ==_iff, nat_eq, string_eq, if◌then◌else◌, ◌⊎◌, err, errorf,
  str, Args,
}
use lbmanager.Net.{parse_ip, by_mark, ip_string, dotted, decimal, equal}
use lbmanager.Ipv4.{v4, v4_mapped}
use lbmanager.Ipv4.Text.{ip_string-v4_inj}
use lbmanager.Kvstore.Keys.{store_key_inj}
use lbmanager.Kvstore.{store_key}
use lbmanager.Kvstore.Laws.{IsDirectory}
use lbmanager.Kvstore.Memory.{Memory, memory_kv, memory_kv-IsReliable, view_of, find}
use lbmanager.Kvstore.Memory.Listing.{memory_kv-IsDirectory}
use lbmanager.Kvstore
use lbmanager.Kvstore.{read, write, is_exist}
use lbmanager.Ipam.Address
use lbmanager.Ipam.Allocator.{
  get, granted, get_any, get_search_range, gateway_of, search, next_ip, get_exist,
}
use lbmanager.Ipam.Etcd.{etcd_store, exist, release_by_id}
use lbmanager.Ipam.Etcd.Table.{table, held}
use lbmanager.Ipam.Etcd.Names.{registry, IsOwn}
use lbmanager.Ipam.Etcd.Release.{exist-release_by_id}
use lbmanager.Ipam.Allocator.Laws.{IsTable}
use lbmanager.Ipam.Allocator.Registry.{IsRegistry, IsSingle, Holds}
use lbmanager.Ipam.State.{State, require_ip, settle, assign, release_ip}
use lbmanager.Ipam.State.Leases.{require_ip-holder}
use lbmanager.Ipam.State.Again.{require_ip-again, require_ip-IsSingle, require_ip-fails_iff}
use lbmanager.Ipam.State.Release.{release_ip-holder, require_ip-release_ip, without}
use lbmanager.Tests.Ipam.{kv, vips, alc, alc-IsRange, world}

pub directory : IsDirectory memory_kv memory_kv-IsReliable (store_key kv vips.item "")
unfolding store_key
directory = memory_kv-IsDirectory "/lb/ipam/vips"

name_lem : parse_ip "l4-db" ≡ none
unfolding parse_ip by_mark
name_lem = refl

abbrev pub start : State Memory
start = record { cache = []; world = world }

some_eq : {x y : String} → some x ≡ some y → y ≡ x
some_eq h = cc

absent : {x : String} → ◌≡◌ {A = Option String} none (some x) → ⊥
absent h = absurd cc

-- The world has one key in the directory.
found_key :
    (k v : String)
    → (view_of world (store_key kv vips.item k)) ≡ some v
    → (k ≡ ip_string (v4 2886402049)) × (v ≡ "l4-web")
unfolding view_of find ip_string dotted decimal store_key
found_key k v h = elim (Bool-cases ("/lb/ipam/vips/172.11.0.1" == store_key kv vips.item k)) [
  | inl e ↦ (
    sym (store_key_inj kv vips.item "172.11.0.1" k ((==_iff _ (store_key kv vips.item k)).0 e)),
    some_eq (rw e at h),
  )
  | inr e ↦ absurd (absent (rw e at h))
]

unfoldable pub table_here : IsTable (etcd_store kv vips)
table_here = table kv memory_kv-IsReliable vips

unfoldable pub registry_here : IsRegistry (etcd_store kv vips) table_here
unfolding table_here
registry_here = registry kv memory_kv-IsReliable vips directory

pub kept : registry_here.IsKept start.world
unfolding registry_here registry directory memory_kv-IsDirectory memory_kv-IsReliable
kept = (tt, λ k v lacks h. let (key, val) = found_key k v h in inr (2886402049, omega arith, key))

pub single : IsSingle (table_here.holder start.world)
unfolding table_here table memory_kv-IsReliable
single n m id ln lm hn hm =
    let (j, v) = found_key (ip_string (v4 n)) id hn in
    let (i, u) = found_key (ip_string (v4 m)) id hm in ip_string-v4_inj n m ln lm (j ∙ sym i)

other_name : ◌≡◌ {A = String} "l4-db" "l4-web" → ⊥
other_name h = absurd cc

pub fresh : (m : ℕ) → m < 4294967296 → table_here.holder start.world m ≢ some "l4-db"
unfolding table_here table memory_kv-IsReliable
fresh m lt h = other_name (found_key (ip_string (v4 m)) "l4-db" h).1

-- The name that holds no address is given the second one.
pub runs : (require_ip alc 6 "l4-db" "" start).0 ≡ ok "172.11.0.2"
unfolding require_ip settle assign get get_any get_search_range gateway_of search next_ip granted
    get_exist etcd_store memory_kv read write is_exist store_key ip_string dotted decimal equal
    Address.next_ip Address.int_to_ip Address.ip_to_int Kvstore.exist by_mark
runs = refl

require_ip-holder_example :
    (n : ℕ) × ("172.11.0.2" ≡ ip_string (v4 n))
    × (n < 4294967296)
    × ((table_here.holder start.world n ≡ some "l4-db")
        ⊎ ((table_here.holder start.world n ≡ none)
            × ((m : ℕ) → m < 4294967296 → table_here.holder start.world m ≢ some "l4-db")))
    × registry_here.IsKept (require_ip alc 6 "l4-db" "" start).1.world
    × ((m : ℕ)
        → m < 4294967296
        → table_here.holder (require_ip alc 6 "l4-db" "" start).1.world m
          ≡ (if n == m then some "l4-db" else table_here.holder start.world m))
unfolding table_here
require_ip-holder_example =
    require_ip-holder alc 2886402049 2886402054 alc-IsRange table_here registry_here refl 6
      (omega arith) "l4-db" name_lem start kept "172.11.0.2" runs

require_ip-again_example :
    require_ip alc 6 "l4-db" "" (require_ip alc 6 "l4-db" "" start).1
    ≡ (ok "172.11.0.2", (require_ip alc 6 "l4-db" "" start).1)
require_ip-again_example =
    require_ip-again alc 2886402049 2886402054 alc-IsRange table_here registry_here refl 6
      (omega arith) "l4-db" name_lem start kept "172.11.0.2" runs

require_ip-IsSingle_example :
    IsSingle (table_here.holder (require_ip alc 6 "l4-db" "" start).1.world)
require_ip-IsSingle_example =
    require_ip-IsSingle alc 2886402049 2886402054 alc-IsRange table_here registry_here refl 6
      (omega arith) "l4-db" name_lem start kept single

require_ip-fails_iff_example :
    ((is_ok (require_ip alc 6 "l4-db" "" start).0 ≡ false) ↔ (
      ((m : ℕ) → m < 4294967296 → table_here.holder start.world m ≢ some "l4-db")
      × ((n : ℕ) → 2886402049 ≤ n → n ≤ 2886402054 → table_here.holder start.world n ≢ none)))
    × ((require_ip alc 6 "l4-db" "" start
          ≡ (err (errorf "no IP addresses available in network: %s" (str "vips" Args.end)), start))
        ↔ (((m : ℕ) → m < 4294967296 → table_here.holder start.world m ≢ some "l4-db")
            × ((n : ℕ) → 2886402049 ≤ n → n ≤ 2886402054 → table_here.holder start.world n ≢ none)))
require_ip-fails_iff_example =
    require_ip-fails_iff alc 2886402049 2886402054 alc-IsRange table_here registry_here refl 6
      (omega arith) "l4-db" name_lem start kept

web_lem : parse_ip "l4-web" ≡ none
unfolding parse_ip by_mark
web_lem = refl

release_ip-holder_example :
    ((release_ip alc "l4-web" start).0 ≡ ok tt)
    × registry_here.IsKept (release_ip alc "l4-web" start).1.world
    × ((m : ℕ)
        → m < 4294967296
        → table_here.holder (release_ip alc "l4-web" start).1.world m
          ≡ without "l4-web" (table_here.holder start.world m))
release_ip-holder_example =
    release_ip-holder alc table_here registry_here "l4-web" web_lem start kept single

require_ip-release_ip_example :
    is_ok (require_ip alc 6 "l4-db" "" (release_ip alc "l4-web" start).1).0 ≡ true
unfolding table_here table memory_kv-IsReliable view_of find ip_string dotted decimal store_key
require_ip-release_ip_example =
    require_ip-release_ip alc 2886402049 2886402054 alc-IsRange table_here registry_here refl 6
      (omega arith) "l4-web" "l4-db" web_lem name_lem start kept single 2886402049 (omega arith)
      (omega arith) refl

exist-release_by_id_example :
    (o : Option ℕ) × (w' : Memory) × (exist kv vips "l4-web" world
      ≡ (ok (Option.map v4_mapped o), world))
    × Holds (held kv memory_kv-IsReliable vips world) "l4-web" o
    × (release_by_id kv vips "l4-web" world ≡ (ok tt, w'))
    × IsOwn kv memory_kv-IsReliable vips directory w'
    × ((m : ℕ)
        → m < 4294967296
        → held kv memory_kv-IsReliable vips w' m
          ≡ without "l4-web" (held kv memory_kv-IsReliable vips world m))
    × (exist kv vips "l4-web" w' ≡ (ok none, w'))
unfolding registry_here table_here registry table
exist-release_by_id_example =
    exist-release_by_id kv memory_kv-IsReliable vips directory "l4-web" web_lem world kept single
