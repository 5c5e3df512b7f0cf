-- ===== src/Tests/Machine.antt =====
-- A machine with etcd and a disk, and the witness for ConfigService of the leader.
use lbmanager.Base.{
  ◌≡◌, refl, ap, ℕ, ◌<◌, String, true, false, some, [], arith, ok, ◌==◌, nat_eq, if◌then◌else◌,
  Exec,
}
use lbmanager.Base.Dict.{Dict, lookup}
use lbmanager.Utils.{Host}
use lbmanager.Net.{ip_string, dotted, decimal, equal, by_mark}
use lbmanager.Kvstore
use lbmanager.Kvstore.{LibKv, KvStore, read, write, is_exist, store_key, write_bytes}
use lbmanager.Kvstore.Laws.{IsReliable, IsDirectory}
use lbmanager.Kvstore.Memory.{Memory, memory_kv, memory_kv-IsReliable}
use lbmanager.Kvstore.Memory.Listing.{memory_kv-IsDirectory}
use lbmanager.Ipam.Address
use lbmanager.Ipam.Etcd.{etcd_store}
use lbmanager.Ipam.Etcd.Table.{table}
use lbmanager.Ipam.Etcd.Names.{registry}
use lbmanager.Ipam.Allocator.{
  get, granted, get_any, get_search_range, gateway_of, search, next_ip, get_exist,
}
use lbmanager.Ipam.Allocator.Search.{IsRange}
use lbmanager.Ipam.State.{require_ip, settle, assign}
use lbmanager.Lbm.Lvs.{Lvs, new_lvs}
use lbmanager.Lbm.Render.{render}
use lbmanager.Lbm.Render.Again.{IsFileSystem, IsRendered}
use lbmanager.Lbm.Service.{
  Lvsimpl, Site, alloc_vip, with_required, with_vip, update, config_service, prepare,
  render_template, inner_of, get_config_file_path,
}
use lbmanager.Lbm.Service.Vip.{placed, behind}
use lbmanager.Lbm.Service.Config.{config_service-IsRendered}
use lbmanager.Lbm.Start.Apart.Beside.{IsLocal, service_of, service_of-IsBeside}
use lbmanager.Tests.Ipam.{kv, vips, alc, world}
use lbmanager.Tests.Registry.{kept, registry_here}
use lbmanager.Tests.Files.{disk, disk-IsFileSystem}
use lbmanager.Tests.Service.{service}

pub record Machine : Type 0 where
  pub etcd : Memory
  pub files : Dict String

abbrev on_etcd : {A : Type 0} → Exec Memory A → Exec Machine A
on_etcd m w = let (r, e) = m w.etcd in (r, record w { etcd = e })

abbrev on_disk : {A : Type 0} → Exec (Dict String) A → Exec Machine A
on_disk m w = let (r, f) = m w.files in (r, record w { files = f })

abbrev pub machine_kv : LibKv Machine
machine_kv = record {
  put = λ k v o. on_etcd (memory_kv.put k v o);
  get = λ k. on_etcd (memory_kv.get k);
  delete = λ k. on_etcd (memory_kv.delete k);
  exists = λ k. on_etcd (memory_kv.exists k);
  list = λ d. on_etcd (memory_kv.list d);
  watch_tree = λ k. on_etcd (memory_kv.watch_tree k);
  atomic_put = λ k v p o. on_etcd (memory_kv.atomic_put k v p o);
}

abbrev pub machine_host : Host Machine
machine_host = record {
  start = λ c. on_disk (disk.start c);
  wait = λ c. on_disk (disk.wait c);
  stat = λ f. on_disk (disk.stat f);
  read_file = λ f. on_disk (disk.read_file f);
  write_file = λ f t. on_disk (disk.write_file f t);
  remove = λ f. on_disk (disk.remove f);
  readlink = λ f. on_disk (disk.readlink f);
}

abbrev laws : IsReliable memory_kv
laws = memory_kv-IsReliable

unfoldable pub machine_kv-IsReliable : IsReliable machine_kv
machine_kv-IsReliable = record {
  view = λ w k. laws.view w.etcd k;
  exists_lem = λ k w. rw (laws.exists_lem k w.etcd) refl;
  get_some = λ k v w h. let (p, e, v') = laws.get_some k v w.etcd h in (p, rw e refl, v');
  get_none = λ k w h. rw (laws.get_none k w.etcd h) refl;
  put_ok = λ k v w. laws.put_ok k v w.etcd;
  view-put = λ k v j w. laws.view-put k v j w.etcd;
  delete_lem = λ k w. laws.delete_lem k w.etcd;
  view-delete = λ k j w. laws.view-delete k j w.etcd;
}

abbrev pub machine_store : KvStore Machine
machine_store = record { store = machine_kv; prefix = kv.prefix }

unfoldable machine_directory :
    IsDirectory machine_kv machine_kv-IsReliable (store_key machine_store vips.item "")
unfolding machine_kv-IsReliable store_key memory_kv-IsDirectory
machine_directory =
    let d = memory_kv-IsDirectory "/lb/ipam/vips" in
    record {
      IsThere = λ w. d.IsThere w.etcd;
      there-put = λ k v w h. d.there-put k v w.etcd h;
      there-delete = λ k w h. d.there-delete k w.etcd h;
      listed = λ w. d.listed w.etcd;
      list_lem = λ w h. ap (λ x. (x.0, record w { etcd = x.1 })) (d.list_lem w.etcd h);
      listed_sound = λ w h. d.listed_sound w.etcd h;
      listed_all = λ k v w h lacks e. d.listed_all k v w.etcd h lacks e;
    }

machine_files : IsLocal machine_host machine_store machine_kv-IsReliable machine_directory
unfolding machine_kv-IsReliable machine_directory memory_kv-IsDirectory
machine_files = record {
  view-stat = λ f k w. refl;
  view-remove = λ f k w. refl;
  view-write = λ f c k w. refl;
  there-write = λ f c w h. h;
  there-stat = λ f w h. h;
  there-remove = λ f w h. h;
}

machine_host-IsFileSystem : IsFileSystem machine_host
machine_host-IsFileSystem = record {
  read_world = λ path w. refl;
  read_write = λ path text w done. disk-IsFileSystem.read_write path text w.files done;
}

abbrev before_own : Lvsimpl Machine
before_own = record {
  conf = service.conf;
  config_path = service.config_path;
  key = service.key;
  is_leader = true;
  groups = [];
  alc = record {
    start = alc.start;
    end = alc.end;
    conf = alc.conf;
    store = etcd_store machine_store vips;
  };
  fuel = 6;
  kv = machine_store;
  host = machine_host;
  join = λ d f. f;
  unmarshal = λ t lb. ok lb;
  marshal = λ lb. ok lb.name;
  execute = λ i. ok i.lvs.vip;
}

-- Its file is written with the address.
abbrev pub leader : Lvsimpl Machine
leader = service_of before_own service.conf "vips"

abbrev db : Lvs
db = record new_lvs { common = record new_lvs.common { name = "db" } }

abbrev blank : Site Machine
blank = record {
  ipam = record { cache = []; world = record { etcd = world; files = [] } };
  to_reload = false;
}

leader-IsRange : IsRange leader.alc 2886402049 2886402054
leader-IsRange = record {
  start_lem = refl;
  end_lem = refl;
  positive = omega arith;
  ordered = omega arith;
  bounded = omega arith;
}

machine_kept :
    (registry machine_store machine_kv-IsReliable vips machine_directory).IsKept blank.ipam.world
unfolding registry machine_directory machine_kv-IsReliable memory_kv-IsDirectory registry_here
machine_kept = (tt, λ k v lacks h. kept.1 k v lacks h)

runs : (config_service leader db blank).0 ≡ true
unfolding require_ip settle assign get get_any get_search_range gateway_of search next_ip granted
    get_exist etcd_store memory_kv read write is_exist store_key ip_string dotted decimal equal
    Address.next_ip Address.int_to_ip Address.ip_to_int Kvstore.exist by_mark alloc_vip
    with_required with_vip update write_bytes new_lvs config_service prepare render_template render
    get_config_file_path lookup inner_of
runs = refl

config_service-IsRendered_example :
    (n : ℕ) × (n < 4294967296)
    × ((config_service leader db blank).1 ≡ placed leader db n)
    × ((update leader (placed leader db n) (behind leader db blank)).0 ≡ ok tt)
    × IsRendered machine_host machine_host-IsFileSystem leader.execute
        (get_config_file_path leader "db")
        (inner_of leader (placed leader db n))
        (config_service leader db blank).2.ipam.world
    × ((m : ℕ)
        → m < 4294967296
        → (table machine_store machine_kv-IsReliable vips).holder
            (config_service leader db blank).2.ipam.world
            m
          ≡ (if n == m
              then some "l4-db"
              else (table machine_store machine_kv-IsReliable vips).holder blank.ipam.world m))
unfolding new_lvs
config_service-IsRendered_example =
    config_service-IsRendered leader 2886402049 2886402054 leader-IsRange
      (table machine_store machine_kv-IsReliable vips)
      (registry machine_store machine_kv-IsReliable vips machine_directory)
      (service_of-IsBeside before_own service.conf "vips" machine_kv-IsReliable machine_directory
        machine_files)
      machine_host-IsFileSystem refl refl (omega arith) db refl blank machine_kept runs
