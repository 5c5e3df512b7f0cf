-- ===== src/Ipam/Types.antt =====
-- pkg/ipam/types/types.go.
pub mod Json
pub mod RoundTrip
use lbmanager.Base.{String, Option, Result, ok}
use lbmanager.Base.Monad.Pure.{◌>>=◌}
use lbmanager.Net.{Ip, IpNet, parse_cidr}

pub record IpConfig : Type 0 where
  pub version : String
  pub address : IpNet
  pub gateway : Option Ip

pub record Route : Type 0 where
  pub dst : IpNet
  pub gw : Ip

-- ParseCIDR keeps the address as it is written, where net.ParseCIDR masks it.
unfoldable pub parse_host_cidr : String → Result IpNet
unfolding parse_cidr
parse_host_cidr s = do (ip, ipn) ← parse_cidr s; ok (record ipn { ip = ip })
