-- ===== src/Ipam/Allocator/Config.antt =====
-- pkg/ipam/backend/allocator/config.go, and NewIPAllocator of allocator.go.
use lbmanager.Base.{
  ◌+◌, String, Option, none, some, List, [], ◌∷◌, ltb, Args, errorf, ip, Result, ok, unless,
}
use lbmanager.Base.Monad.Pure.{◌>>=◌, ◌>>◌}
use lbmanager.Net.{Ip, IpNet, mask_size}
use lbmanager.Ipam.Address.{next_ip}
use lbmanager.Ipam.Types.{Route}
use lbmanager.Ipam.Backend.{Store}
use lbmanager.Ipam.Allocator.Range.{validate_range_ip, network_range}

-- config.go: IPAMConfig; a nil address is `none`.
pub record IpamConfig : Type 0 where
  pub name : String
  pub range_start : Option Ip
  pub range_end : Option Ip
  pub subnet : IpNet
  pub gateway : Option Ip
  pub routes : List Route

unfoldable pub new_ipam_conf : String → IpNet → IpamConfig
new_ipam_conf name cidr = record {
  name = name;
  range_start = none;
  range_end = none;
  subnet = cidr;
  gateway = none;
  routes = [];
}

unfoldable pub convert_routes_to_current : List Route → List Route
convert_routes_to_current [] = []
convert_routes_to_current (r ∷ rs) =
    record { dst = r.dst; gw = r.gw } ∷ convert_routes_to_current rs

pub record IpAllocator (W : Type 0) : Type 0 where
  pub start : Ip
  pub end : Ip
  pub conf : IpamConfig
  pub store : Store W

-- The address of the configuration if there is one and it is valid, else the default.
configured : Option Ip → Ip → (Ip → Result (Unit {0})) → Result Ip
configured none default check = ok default
configured (some a) default check = do check a; ok a

unfoldable pub new_ip_allocator : {W : Type 0} → IpamConfig → Store W → Result (IpAllocator W)
unfolding configured mask_size network_range next_ip
new_ip_allocator conf store = do
  let (ones, masklen) = mask_size conf.subnet.mask
  unless (ltb masklen (ones + 2))
      (errorf "Network %v too small to allocate from" (ip conf.subnet.ip Args.end))
  (first, broadcast) ← network_range conf.subnet
  start ←
      configured conf.range_start (next_ip first) (λ a. validate_range_ip a conf.subnet none none)
  last ←
      configured conf.range_end broadcast (λ a. validate_range_ip a conf.subnet (some start) none)
  ok (record { start = start; end = last; conf = conf; store = store })
