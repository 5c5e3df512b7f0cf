-- ===== src/Ipam/Types/Json.antt =====
-- The JSON methods of pkg/ipam/types/types.go. encoding/json is an argument: how it writes and
-- reads a text and the struct `route`, whose network it passes to the methods of IPNet.
use lbmanager.Base.{◌≡◌, String, some, Result, ok}
use lbmanager.Base.Monad.Pure.{◌>>=◌}
use lbmanager.Net.{Ip, IpNet, ip_string, parse_ip, ipnet_string}
use lbmanager.Ipam.Types.{Route, parse_host_cidr}

-- The struct `route`, with the tags of its fields.
pub record RouteFields : Type 0 where
  pub dst : IpNet
  pub gw : Ip

pub record Json : Type 0 where
  pub marshal_text : String → Result String
  pub unmarshal_text : String → Result String
  pub marshal_route : (IpNet → Result String) → RouteFields → Result String
  pub unmarshal_route : (String → Result IpNet) → String → Result RouteFields

-- What is read was written. An address is written as its text, and read by net.ParseIP.
pub record IsJson (j : Json) : Type 0 where
  pub text_lem : (s t : String) → j.marshal_text s ≡ ok t → j.unmarshal_text t ≡ ok s
  pub route_lem :
      (write : IpNet → Result String) (read : String → Result IpNet) (r : RouteFields)
      (t u : String) (n : IpNet) (gw : Ip)
      → j.marshal_route write r ≡ ok t
      → write r.dst ≡ ok u
      → read u ≡ ok n
      → parse_ip (ip_string r.gw) ≡ some gw
      → j.unmarshal_route read t ≡ ok (record { dst = n; gw = gw })

module _ (j : Json) where
  unfoldable pub marshal_ipnet : IpNet → Result String
  unfolding ipnet_string
  marshal_ipnet n = j.marshal_text (ipnet_string n)

  unfoldable pub unmarshal_ipnet : String → Result IpNet
  unfolding parse_host_cidr
  unmarshal_ipnet text = do s ← j.unmarshal_text text; parse_host_cidr s

  unfoldable pub unmarshal_json_route : String → Result Route
  unfolding unmarshal_ipnet
  unmarshal_json_route text = do
    rt ← j.unmarshal_route unmarshal_ipnet text
    ok (record { dst = rt.dst; gw = rt.gw })

  unfoldable pub marshal_json_route : Route → Result String
  unfolding marshal_ipnet
  marshal_json_route r = j.marshal_route marshal_ipnet (record { dst = r.dst; gw = r.gw })
