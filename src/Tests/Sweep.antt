-- ===== src/Tests/Sweep.antt =====
-- The witness for the files that the deletions leave: web is served, not listed, and has a file.
use lbmanager.Base.{
  ◌≡◌, refl, ap, String, Bool, true, false, not, ◌&&◌, [], ◌∷◌, any, ◌==◌, string_eq, Option, none,
  some,
}
use lbmanager.Base.Dict.{lookup}
use lbmanager.Net.{Ip}
use lbmanager.Kvstore
use lbmanager.Kvstore.{KvPair, store_key}
use lbmanager.Ipam.Etcd
use lbmanager.Ipam.Etcd.{etcd_store, release_by_id, release_found}
use lbmanager.Ipam.Etcd.Table.{etcd_store-IsTable}
use lbmanager.Kvstore.Memory.{memory_kv}
use lbmanager.Lbm.Lvs.{Lvs, new_lvs}
use lbmanager.Lbm.Handlers.{LbBase, handler_delete, is_listed, name_at, deref}
use lbmanager.Lbm.Nginx.Service.Files.{IsDisk}
use lbmanager.Lbm.Service.{Site, lvs_service, get_config_file_path}
use lbmanager.Lbm.Service.Files.{handler_delete-has}
use lbmanager.Tests.Ipam.{vips, world}
use lbmanager.Tests.Files.{disk-IsDisk}
use lbmanager.Tests.Machine.{Machine, machine_host, machine_store, machine_kv-IsReliable, leader}

unfoldable machine_disk : IsDisk machine_host
unfolding disk-IsDisk
machine_disk = record {
  has = λ w f. disk-IsDisk.has w.files f;
  stat_lem = λ f w. disk-IsDisk.stat_lem f w.files;
  has-stat = λ f g w. disk-IsDisk.has-stat f g w.files;
  remove_lem = λ f w. disk-IsDisk.remove_lem f w.files;
  has-remove = λ f g w. disk-IsDisk.has-remove f g w.files;
}

-- Requests to etcd leave the files.
release-files :
    (o : Option Ip) (w : Machine) → (release_found machine_store vips o w).1.files ≡ w.files
unfolding release_found Etcd.release Kvstore.delete
release-files none w = refl
release-files (some a) w = refl

by_id-files :
    (id : String) (w : Machine) → (release_by_id machine_store vips id w).1.files ≡ w.files
unfolding release_by_id Etcd.exist Kvstore.exist memory_kv
by_id-files id w = release-files _ w

apart :
    (id g : String) (w : Machine)
    → machine_disk.has (leader.alc.store.release_by_id id w).1 g ≡ machine_disk.has w g
unfolding machine_disk etcd_store
apart id g w = ap (λ f. disk-IsDisk.has f g) (by_id-files id w)

never : Lvs → Lvs → Bool
never lb obj = false

abbrev served : LbBase (Site Machine) Lvs
served = record {
  objects = record new_lvs { common = record new_lvs.common { name = "web" } } ∷ [];
  elem = ("/lb/bj/lvs/web", 0) ∷ [];
  world = record {
    ipam = record {
      cache = ("l4-web", "172.11.0.1") ∷ [];
      world = record { etcd = world; files = ("web.conf", "172.11.0.1") ∷ [] };
    };
    to_reload = false;
  };
}

handler_delete-has_example :
    ((handler_delete (lvs_service leader never) "c1" [] served).0 ≡ true)
    × ((g : String)
        → machine_disk.has
            (handler_delete (lvs_service leader never) "c1" [] served).1.world.ipam.world
            g
          ≡ (machine_disk.has served.world.ipam.world g
              && not (
                  any
                    (λ (k, p).
                      not (is_listed k [])
                      && get_config_file_path leader
                          (name_at (lvs_service leader never) "c1" served.objects p)
                        == g)
                    served.elem)))
unfolding is_listed machine_disk disk-IsDisk get_config_file_path lookup new_lvs lvs_service deref
handler_delete-has_example =
    handler_delete-has leader (etcd_store-IsTable machine_store machine_kv-IsReliable vips)
      machine_disk apart never "c1" [] served
