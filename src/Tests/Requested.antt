-- ===== src/Tests/Requested.antt =====
-- The witness for RequireIP with an address asked for: l4-web, which holds 172.11.0.1, asks for
-- 172.11.0.3.
use lbmanager.Base.{
  ◌≡◌, refl, ℕ, ◌<◌, ◌&&◌, true, none, some, [], arith, ◌==◌, nat_eq, if◌then◌else◌,
}
use lbmanager.Base.Dict.{insert}
use lbmanager.Net.{parse_ip, by_mark, ip_string, dotted, decimal, net_contains}
use lbmanager.Ipv4.{v4}
use lbmanager.Kvstore.{store_key}
use lbmanager.Kvstore.Memory.{memory_kv-IsReliable, view_of, find}
use lbmanager.Ipam.Etcd.Table.{table}
use lbmanager.Ipam.State.{require_ip}
use lbmanager.Ipam.State.Release.{without}
use lbmanager.Ipam.State.Requested.{require_ip-requested}
use lbmanager.Ipam.State.Requested.Assign.{answer_of}
use lbmanager.Tests.Ipam.{alc, alc-IsRange}
use lbmanager.Tests.Registry.{table_here, registry_here, start, kept, single}

web_name : parse_ip "l4-web" ≡ none
unfolding parse_ip by_mark
web_name = refl

require_ip-requested_example :
    (answer_of (require_ip alc 6 "l4-web" (ip_string (v4 2886402051)) start).0
      ≡ some (ip_string (v4 2886402051)))
    × ((require_ip alc 6 "l4-web" (ip_string (v4 2886402051)) start).1.cache
        ≡ insert "l4-web" (ip_string (v4 2886402051)) [])
    × registry_here.IsKept (require_ip alc 6 "l4-web" (ip_string (v4 2886402051)) start).1.world
    × ((m : ℕ)
        → m < 4294967296
        → table_here.holder (require_ip alc 6 "l4-web" (ip_string (v4 2886402051)) start).1.world m
          ≡ (if 2886402051 == m && true
              then some "l4-web"
              else without "l4-web" (table_here.holder start.world m)))
unfolding table_here table memory_kv-IsReliable view_of find ip_string dotted decimal store_key
    net_contains
require_ip-requested_example =
    require_ip-requested alc 2886402049 2886402054 alc-IsRange table_here registry_here refl 6
      "l4-web" 2886402051 (omega arith) web_name start kept single
