-- ===== src/Tests/Endless.antt =====
-- The witness for the gateway at the end of a full range: 172.11.0.1, which is taken, and 172.11.0.2.
use lbmanager.Base.{◌≡◌, ◌≢◌, refl, ap, sym, ◌∙◌, true, none, some, arith, err, out_of_fuel}
use lbmanager.Net.{ip_string, dotted, decimal}
use lbmanager.Ipv4.{v4}
use lbmanager.Kvstore.{read, store_key}
use lbmanager.Kvstore.Memory.{Memory, memory_kv, memory_kv-IsReliable, view_of, find}
use lbmanager.Ipam.Etcd.{etcd_store, last_reserved_ip}
use lbmanager.Ipam.Etcd.Table.{table}
use lbmanager.Ipam.Allocator.{get}
use lbmanager.Ipam.Allocator.Config.{IpAllocator}
use lbmanager.Ipam.Allocator.Search.{IsRange}
use lbmanager.Ipam.Allocator.Get.{IsRecorded}
use lbmanager.Ipam.Allocator.Get.Endless.{IsFullBut, get-endless}
use lbmanager.Tests.Ipam.{kv, vips, alc, world}

abbrev pair : IpAllocator Memory
pair = record alc { end = v4 2886402050; conf = record alc.conf { gateway = some (v4 2886402050) } }

pair-IsRange : IsRange pair 2886402049 2886402050
pair-IsRange = record {
  start_lem = refl;
  end_lem = refl;
  positive = omega arith;
  ordered = omega arith;
  bounded = omega arith;
}

recorded : IsRecorded pair none world
unfolding etcd_store memory_kv last_reserved_ip read store_key
recorded = record { read_lem = refl; world_lem = refl }

first_taken : (table kv memory_kv-IsReliable vips).holder world 2886402049 ≢ none
unfolding table memory_kv-IsReliable view_of find store_key ip_string dotted decimal
first_taken h = absurd cc

full :
    IsFullBut pair 2886402049 2886402050 pair-IsRange
      (table kv memory_kv-IsReliable vips)
      world
      2886402050
full n low high other h =
    let first : n ≡ 2886402049 = omega arith in
    first_taken (ap ((table kv memory_kv-IsReliable vips).holder world) (sym first) ∙ h)

get-endless_example : get pair 100 "l4-db" none true world ≡ (err out_of_fuel, world)
get-endless_example =
    get-endless pair 2886402049 2886402050 pair-IsRange (table kv memory_kv-IsReliable vips) world
      none recorded refl full "l4-db" true 100
