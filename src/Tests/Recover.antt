-- ===== src/Tests/Recover.antt =====
-- The witnesses for Recover and the deletions: the cache has the address of web, which is listed no
-- more.
use lbmanager.Base.{
  ◌≡◌, ◌≢◌, ◌↔◌, ◌⊎◌, refl, ℕ, ◌<◌, String, ◌<>◌, Bool, contains, true, false, some, [], ◌∷◌, inl,
  arith, All,
}
use lbmanager.Kvstore.Memory.{Memory, memory_kv-IsReliable, view_of, find}
use lbmanager.Ipam.State.{get_keys}
use lbmanager.Ipam.Allocator.Registry.{IsSingle}
use lbmanager.Lbm.Lvs.{Lvs, new_lvs}
use lbmanager.Lbm.Handlers.{LbBase, is_listed, name_at, handler_delete}
use lbmanager.Lbm.Service.{stick, Site, lvs_service, recover}
use lbmanager.Lbm.Service.Delete.{IsBeside}
use lbmanager.Lbm.Service.Sweep.{handler_delete-holder}
use lbmanager.Lbm.Service.Stranded.{before_lead, once_leader, handler_delete-stranded}
use lbmanager.Ipam.Etcd.Table.{table}
use lbmanager.Kvstore.{store_key}
use lbmanager.Net.{ip_string, dotted, decimal}
use lbmanager.Lbm.Service.Recover.{recover-handler_delete}
use lbmanager.Lbm.Start.Apart.Beside.{service_of-IsBeside}
use lbmanager.Tests.Registry.{table_here, registry_here, start, kept, single, directory}
use lbmanager.Tests.Service.{service, own_service, files}

abbrev cached : Site Memory
cached = record { ipam = record start { cache = ("l4-web", "172.11.0.1") ∷ [] }; to_reload = false }

abbrev fresh_base : LbBase (Site Memory) Lvs
fresh_base = record { objects = []; elem = []; world = cached }

abbrev never : Lvs → Lvs → Bool
never lb obj = false

beside : IsBeside own_service table_here registry_here
unfolding table_here registry_here
beside = service_of-IsBeside service service.conf "vips" memory_kv-IsReliable directory files

recover-handler_delete_example :
    table_here.holder
      (handler_delete
        (lvs_service own_service never)
        "c1"
        []
        (recover own_service fresh_base)).1.world.ipam.world
      2886402049
    ≢ some "l4-web"
unfolding get_keys is_listed contains
recover-handler_delete_example =
    recover-handler_delete own_service table_here registry_here beside refl never "c1" fresh_base
      kept single [] "web" refl (inl refl) refl 2886402049 (omega arith)

-- web is served, and not listed.
abbrev served : LbBase (Site Memory) Lvs
served = record {
  objects = record new_lvs { common = record new_lvs.common { name = "web" } } ∷ [];
  elem = ("/lb/bj/lvs/web", 0) ∷ [];
  world = cached;
}

handler_delete-holder_example :
    registry_here.IsKept
      (handler_delete (lvs_service own_service never) "c1" [] served).1.world.ipam.world
    × IsSingle (
        table_here.holder
          (handler_delete (lvs_service own_service never) "c1" [] served).1.world.ipam.world)
    × ((m : ℕ) (y : String)
        → m < 4294967296
        → (table_here.holder
              (handler_delete (lvs_service own_service never) "c1" [] served).1.world.ipam.world
              m
            ≡ some y)
          ↔ ((table_here.holder cached.ipam.world m ≡ some y)
              × All
                  (λ (k, p).
                    (is_listed k [] ≡ true)
                    ⊎ (stick <> name_at (lvs_service own_service never) "c1" served.objects p ≢ y))
                  served.elem))
handler_delete-holder_example =
    handler_delete-holder own_service table_here registry_here beside refl never "c1" [] served kept
      single

-- A node that has not given web its address.
abbrev elsewhere : LbBase (Site Memory) Lvs
elsewhere = record served { world = record { ipam = start; to_reload = false } }

handler_delete-stranded_example :
    table_here.holder
      (once_leader own_service never "c1" []
        (before_lead own_service never "c1" [] elsewhere)).world.ipam.world
      2886402049
    ≡ some "l4-web"
unfolding get_keys table_here table memory_kv-IsReliable view_of find ip_string dotted decimal
    store_key
handler_delete-stranded_example =
    handler_delete-stranded own_service table_here registry_here beside never "c1" [] elsewhere kept
      single "web" tt 2886402049 (omega arith) refl
