-- ===== src/Ipam/Backend.antt =====
-- pkg/ipam/backend/store.go: what the allocator asks of a store of reservations.
use lbmanager.Base.{String, Bool, Option, Exec}
use lbmanager.Base.Dict.{Dict}
use lbmanager.Net.{Ip}

pub record Store (W : Type 0) : Type 0 where
  pub lock : Exec W (Unit {0})
  pub unlock : Exec W (Unit {0})
  pub close : Exec W (Unit {0})
  pub reserve : String → Ip → Exec W Bool
  pub last_reserved_ip : Exec W (Option Ip)
  pub release : Ip → Exec W (Unit {0})
  pub release_by_id : String → Exec W (Unit {0})
  pub exist : String → Exec W (Option Ip)
  pub recover : Exec W (Dict String)
