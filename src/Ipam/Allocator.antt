-- ===== src/Ipam/Allocator.antt =====
-- The methods of IPAllocator, pkg/ipam/backend/allocator/allocator.go.
pub mod Range
pub mod Config
pub mod Laws
pub mod Search
pub mod Bounds
pub mod Order
pub mod Get
pub mod Leases
pub mod Registry
pub mod Network
pub mod Requested
use lbmanager.Base.{
  ℕ, zero, suc, ◌+◌, String, Bool, true, false, ◌&&◌, not, Option, none, some, List, [], ◌∷◌, is_ok,
  if◌then◌else◌, Error, message, errorf, str, ip, Args, out_of_fuel, Result, ok, err, Exec, unless,
}
use lbmanager.Base.Monad.Exec.{pure, raise, lift, attempt, ◌>>=◌, ◌>>◌}
use lbmanager.Base.Dict.{Dict}
use lbmanager.Net.{Ip, IpNet, equal}
use lbmanager.Ipam.Address
use lbmanager.Ipam.Types.{IpConfig, Route}
use lbmanager.Ipam.Backend.{Store}
use lbmanager.Ipam.Allocator.Range.{validate_range_ip}
use lbmanager.Ipam.Allocator.Config.{IpAllocator, convert_routes_to_current}

abbrev pub is_equal : Option Ip → Ip → Bool
is_equal none a = false
is_equal (some gw) a = equal gw a

-- `a.store.Lock()`, and `a.store.Unlock()` deferred; the errors of both are dropped.
abbrev locked : {W A : Type 0} → Store W → Exec W A → Exec W A
locked store m w =
    let (_, w₁) = store.lock w in let (r, w₂) = m w₁ in let (_, w₃) = store.unlock w₂ in (r, w₃)

module _ {W : Type 0} (a : IpAllocator W) where
  unfoldable pub next_ip : Ip → Ip
  next_ip cur = if equal cur a.end then a.start else Address.next_ip cur

  -- The two addresses for the last reserved one; an error of the store is logged at most.
  unfoldable pub search_range : Result (Option Ip) → Ip × Ip
  unfolding next_ip
  search_range (err e) = (a.start, a.end)
  search_range (ok none) = (a.start, a.end)
  search_range (ok (some last)) =
      if is_ok (validate_range_ip last a.conf.subnet (some a.start) (some a.end))
      then (next_ip last, last)
      else (a.start, a.end)

  unfoldable pub get_search_range : Exec W (Ip × Ip)
  unfolding search_range
  get_search_range = attempt a.store.last_reserved_ip λ r. pure (search_range r)

  -- The loop of `Get`, one round to a unit of fuel: the address reserved, if one was free.
  unfoldable pub search : String → Option Ip → Ip → ℕ → Ip → Exec W (Option Ip)
  unfolding next_ip
  search id gw last zero cur = raise out_of_fuel
  search id gw last (suc fuel) cur =
      let rest = search id gw last fuel (next_ip cur) in
      if is_equal gw cur then rest else do
        reserved ← a.store.reserve id cur
        if reserved then pure (some cur) else if equal cur last then pure none else rest

  -- The result for a reserved address.
  unfoldable pub granted : Option Ip → Ip → IpConfig × List Route
  unfolding convert_routes_to_current
  granted gw addr = (
    record {
      version = "4";
      address = record { ip = addr; mask = a.conf.subnet.mask };
      gateway = gw;
    },
    convert_routes_to_current a.conf.routes,
  )

  -- The branch for a requested address.
  unfoldable pub get_requested : String → Ip → Option Ip → Exec W (IpConfig × List Route)
  unfolding granted validate_range_ip
  get_requested id requested gw = do
    lift (unless (is_equal gw requested) (message "requested IP must differ gateway IP"))
    lift (validate_range_ip requested a.conf.subnet (some a.start) (some a.end))
    reserved ← a.store.reserve id requested
    if reserved
        then pure (granted gw requested)
        else raise (
            errorf "requested IP address %q is not available in network: %s"
              (ip requested (str a.conf.name Args.end)))

  unfoldable pub found_free : Option Ip → Option Ip → Exec W (IpConfig × List Route)
  unfolding granted
  found_free gw none =
      raise (errorf "no IP addresses available in network: %s" (str a.conf.name Args.end))
  found_free gw (some cur) = pure (granted gw cur)

  unfoldable pub get_any : ℕ → String → Option Ip → Exec W (IpConfig × List Route)
  unfolding get_search_range search found_free
  get_any fuel id gw = do
    (start, last) ← get_search_range
    found ← search id gw last fuel start
    found_free gw found

  unfoldable pub gateway_of : Bool → Option Ip
  gateway_of nogw = elim a.conf.gateway [
    | some gw ↦ some gw
    | none ↦ if nogw then none else some (Address.next_ip a.conf.subnet.ip)
  ]

  unfoldable pub get : ℕ → String → Option Ip → Bool → Exec W (IpConfig × List Route)
  unfolding gateway_of get_requested get_any
  get fuel id requested nogw = locked a.store (elim requested [
    | some addr ↦ get_requested id addr (gateway_of nogw)
    | none ↦ get_any fuel id (gateway_of nogw)
  ])

  unfoldable pub release : String → Exec W (Unit {0})
  release id = locked a.store (a.store.release_by_id id)

  unfoldable pub get_exist : String → Exec W (Option Ip)
  get_exist id = locked a.store (a.store.exist id)

  unfoldable pub recover : Exec W (Dict String)
  recover = locked a.store a.store.recover
