-- ===== src/Tests/Ipam.antt =====
-- Witnesses for the address allocator.
use lbmanager.Base.{◌≡◌, refl, true, none, [], ◌∷◌, arith, ok, nat_eq}
use lbmanager.Net.{IpNet, ip_string, dotted, decimal, equal}
use lbmanager.Ipv4.{v4}
use lbmanager.Kvstore.{KvStore, read, write, is_exist, store_key}
use lbmanager.Kvstore.Memory.{Memory, memory_kv, memory_kv-IsReliable}
use lbmanager.Ipam.Etcd.{EtcdStore, etcd_store, last_reserved_ip}
use lbmanager.Ipam.Etcd.Table.{etcd_store-IsTable}
use lbmanager.Ipam.Address.{prev_ip}
use lbmanager.Ipam.Address
use lbmanager.Ipam.Allocator.{get, granted, get_any, get_search_range, gateway_of, search, next_ip}
use lbmanager.Ipam.Allocator.Config.{IpAllocator}
use lbmanager.Ipam.Allocator.Search.{IsRange, first_free}
use lbmanager.Ipam.Allocator.Order.{order}
use lbmanager.Ipam.Allocator.Get.{usable, grant, IsRecorded, get-first_free}

abbrev pub kv : KvStore Memory
kv = record { store = memory_kv; prefix = "/lb/" }

abbrev pub vips : EtcdStore
vips = record { item = "ipam/vips/" }

-- 172.11.0.1 to 172.11.0.6 of 172.11.0.0/29.
abbrev subnet : IpNet
subnet = record { ip = v4 2886402048; mask = 255 ∷ 255 ∷ 255 ∷ 248 ∷ [] }

abbrev pub alc : IpAllocator Memory
alc = record {
  start = v4 2886402049;
  end = v4 2886402054;
  conf = record {
    name = "vips";
    range_start = none;
    range_end = none;
    subnet = subnet;
    gateway = none;
    routes = [];
  };
  store = etcd_store kv vips;
}

pub alc-IsRange : IsRange alc 2886402049 2886402054
alc-IsRange = record {
  start_lem = refl;
  end_lem = refl;
  positive = omega arith;
  ordered = omega arith;
  bounded = omega arith;
}

-- The first address is taken.
abbrev pub world : Memory
world = record {
  pairs = record { key = "/lb/ipam/vips/172.11.0.1"; value = "l4-web"; last_index = 1 } ∷ [];
  index = 2;
}

world-IsRecorded : IsRecorded alc none world
unfolding etcd_store memory_kv last_reserved_ip read store_key
world-IsRecorded = record { read_lem = refl; world_lem = refl }

get-first_free_example :
    get alc 6 "l4-db" none true world
    ≡ grant alc "l4-db" world (
        first_free none
          ((etcd_store-IsTable kv memory_kv-IsReliable vips).holder world)
          (order 2886402049 2886402054 (usable alc 2886402049 2886402054 none)))
get-first_free_example =
    get-first_free alc 2886402049 2886402054 alc-IsRange
      (etcd_store-IsTable kv memory_kv-IsReliable vips) refl "l4-db" 6 none world world-IsRecorded
      (omega arith)

-- The run itself: 172.11.0.2 is granted.
get_run : (get alc 6 "l4-db" none true world).0 ≡ ok (granted alc none (v4 2886402050))
unfolding get get_any get_search_range gateway_of search next_ip granted etcd_store memory_kv read
    write is_exist store_key ip_string dotted decimal equal Address.next_ip Address.int_to_ip
    Address.ip_to_int
get_run = refl
