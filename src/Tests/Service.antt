-- ===== src/Tests/Service.antt =====
-- Witnesses for allocVIP of the layer 4 service.
use lbmanager.Base.{
  ◌≡◌, refl, err, key_not_found, true, false, ℕ, ◌<◌, pos, some, [], arith, ok, is_ok, ◌==◌, nat_eq,
  if◌then◌else◌, ◌%◌, ◌+◌, leb,
}
use lbmanager.Net.{ip_string, dotted, decimal, equal, by_mark}
use lbmanager.Ipv4.{v4}
use lbmanager.Utils.{Host}
use lbmanager.Kvstore
use lbmanager.Kvstore.{read, write, is_exist, store_key, write_bytes}
use lbmanager.Kvstore.Memory.{Memory, memory_kv}
use lbmanager.Ipam.Address
use lbmanager.Ipam.Etcd.{etcd_store}
use lbmanager.Ipam.Allocator.{
  get, granted, get_any, get_search_range, gateway_of, search, next_ip, get_exist,
}
use lbmanager.Ipam.State.{require_ip, settle, assign}
use lbmanager.Lbm.Lvs.{Lvs, new_lvs, check_port}
use lbmanager.Lbm.Service.{
  Lvsimpl, Site, alloc_vip, with_required, with_vip, update, delete_service,
}
use lbmanager.Lbm.Service.Vip.{
  placed, behind, required, alloc_vip-leaks, alloc_vip-holder, with_vip-check_port,
}
use lbmanager.Kvstore.Memory.{memory_kv-IsReliable}
use lbmanager.Ipam.Etcd.Table.{held, table}
use lbmanager.Lbm.Service.Delete.{IsBeside, delete_service-alloc_vip}
use lbmanager.Lbm.Start.Apart.Beside.{IsLocal, service_of, service_of-IsBeside}
use lbmanager.Lbm.Start.{lb_key}
use lbmanager.Tests.Ipam.{world, kv, vips, alc, alc-IsRange}
use lbmanager.Tests.Registry.{
  table_here, registry_here, start, kept, runs, single, fresh, directory,
}

-- Every command and every file succeeds.
abbrev pub host : Host Memory
host = record {
  start = λ c w. (ok tt, w);
  wait = λ c w. (ok tt, w);
  stat = λ f w. (ok tt, w);
  read_file = λ f w. (ok "", w);
  write_file = λ f t w. (ok tt, w);
  remove = λ f w. (ok tt, w);
  readlink = λ f w. (ok "", w);
}

abbrev pub service : Lvsimpl Memory
service = record {
  conf = record {
    type = "lvs";
    store_prefix = "/lb/";
    cluster_name = "c1";
    catalog = "bj";
    conf_dir = "/etc/lb";
    l4_conf = record {
      subnet_name = "vips";
      subnet_cidr = "172.11.0.0/29";
      port_base = pos 65300;
      k_conf = record { conf_dir = "/etc/keepalived"; reload_time = pos 5; misc_script = "" };
      stats = record { result_path = "/proc/stats"; port = pos 9000 };
      l_addr = [];
    };
  };
  config_path = "/etc/lb/conf.d";
  key = "bj/lvs/";
  is_leader = true;
  groups = [];
  alc = alc;
  fuel = 6;
  kv = kv;
  host = host;
  join = λ d f. d;
  unmarshal = λ t lb. ok lb;
  marshal = λ lb. ok lb.name;
  execute = λ i. ok "";
}

abbrev db : Lvs
db = record new_lvs { common = record new_lvs.common { name = "db" } }

abbrev site : Site Memory
site = record { ipam = start; to_reload = false }

alloc_runs : (alloc_vip service db site).0 ≡ ok tt
unfolding require_ip settle assign get get_any get_search_range gateway_of search next_ip granted
    get_exist etcd_store memory_kv read write is_exist store_key ip_string dotted decimal equal
    Address.next_ip Address.int_to_ip Address.ip_to_int Kvstore.exist by_mark alloc_vip
    with_required with_vip update write_bytes new_lvs
alloc_runs = refl

-- The last address of a /24 is over the limit.
with_vip-check_port_example :
    is_ok (check_port (with_vip service db (ip_string (v4 2886402302))).0)
    ≡ leb (65300 + 2886402302 % 256) 65535
unfolding new_lvs
with_vip-check_port_example = with_vip-check_port service db 2886402302 65300 refl refl

-- json.Marshal fails.
abbrev unwritable : Lvsimpl Memory
unwritable = record service { marshal = λ lb. err key_not_found }

vip_runs : (required unwritable db site).0 ≡ ok "172.11.0.2"
unfolding new_lvs
vip_runs = runs

-- The service whose store of addresses is in its own etcd.
abbrev pub own_service : Lvsimpl Memory
own_service = service_of service service.conf "vips"

pub files : IsLocal host kv memory_kv-IsReliable directory
files = record {
  view-stat = λ f k w. refl;
  view-remove = λ f k w. refl;
  view-write = λ f c k w. refl;
  there-write = λ f c w h. h;
  there-stat = λ f w h. h;
  there-remove = λ f w h. h;
}

beside : IsBeside own_service table_here registry_here
unfolding table_here registry_here
beside = service_of-IsBeside service service.conf "vips" memory_kv-IsReliable directory files

own_runs : (alloc_vip own_service db site).0 ≡ ok tt
unfolding require_ip settle assign get get_any get_search_range gateway_of search next_ip granted
    get_exist etcd_store memory_kv read write is_exist store_key ip_string dotted decimal equal
    Address.next_ip Address.int_to_ip Address.ip_to_int Kvstore.exist by_mark alloc_vip
    with_required with_vip update write_bytes new_lvs lb_key
own_runs = refl

alloc_vip-holder_example :
    (n : ℕ) × (n < 4294967296)
    × (alloc_vip own_service db site ≡ (
      ok tt,
      placed own_service db n,
      (update own_service (placed own_service db n) (behind own_service db site)).1,
    ))
    × ((update own_service (placed own_service db n) (behind own_service db site)).0 ≡ ok tt)
    × ((m : ℕ)
        → m < 4294967296
        → table_here.holder (alloc_vip own_service db site).2.ipam.world m
          ≡ (if n == m then some "l4-db" else table_here.holder start.world m))
unfolding new_lvs table_here registry_here
alloc_vip-holder_example =
    alloc_vip-holder own_service 2886402049 2886402054 alc-IsRange table_here registry_here refl
      (omega arith) db refl site kept
      (λ n lt m lm. beside.holder-update (placed own_service db n) (behind own_service db site) m)
      own_runs

alloc_vip-leaks_example :
    (n : ℕ) × ((alloc_vip unwritable db site).0 ≡ err key_not_found)
    × ((alloc_vip unwritable db site).2
        ≡ (update unwritable (placed unwritable db n) (behind unwritable db site)).1)
    × ("172.11.0.2" ≡ ip_string (v4 n))
    × (table_here.holder (alloc_vip unwritable db site).2.ipam.world n ≡ some "l4-db")
    × ((m : ℕ)
        → m < 4294967296
        → table_here.holder (alloc_vip unwritable db site).2.ipam.world m
          ≡ (if n == m then some "l4-db" else table_here.holder start.world m))
unfolding new_lvs update
alloc_vip-leaks_example =
    alloc_vip-leaks unwritable 2886402049 2886402054 alc-IsRange table_here registry_here refl
      (omega arith) db refl site kept "172.11.0.2" key_not_found (λ n lt m lm. refl) vip_runs
      (λ lb. refl)

delete_service-alloc_vip_example :
    held kv memory_kv-IsReliable vips
      (delete_service own_service "db" (alloc_vip own_service db site).2).1.ipam.world
      2886402050
    ≡ held kv memory_kv-IsReliable vips world 2886402050
unfolding new_lvs table_here registry_here table
delete_service-alloc_vip_example =
    delete_service-alloc_vip own_service 2886402049 2886402054 alc-IsRange table_here registry_here
      beside refl refl (omega arith) db refl site kept single fresh own_runs 2886402050
      (omega arith)
