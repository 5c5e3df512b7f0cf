-- ===== src/Ipam/Types/RoundTrip.antt =====
-- What the JSON methods write, they read again.
use lbmanager.Base.{◌≡◌, refl, ℕ, ◌<◌, ◌≤◌, String, ok}
use lbmanager.Net.{ipnet_string}
use lbmanager.Ipv4.{v4, v4_mapped}
use lbmanager.Ipv4.Text.{parse_ip-ip_string}
use lbmanager.Ipv4.Cidr.{host_net, parse_host_cidr-ipnet_string}
use lbmanager.Ipam.Types.Json.{
  Json, IsJson, marshal_ipnet, unmarshal_ipnet, marshal_json_route, unmarshal_json_route,
}

module _ (j : Json) (l : IsJson j) (n k : ℕ) (hn : n < 4294967296) (hk : k ≤ 32) where
  -- If encoding/json reads what it writes: an IPv4 network, with the bits of a host, that MarshalJSON
  -- of IPNet has written is read by UnmarshalJSON as it was.
  unmarshal_ipnet-marshal_ipnet :
      (t : String) → marshal_ipnet j (host_net n k) ≡ ok t → unmarshal_ipnet j t ≡ ok (host_net n k)
  unfolding marshal_ipnet unmarshal_ipnet
  unmarshal_ipnet-marshal_ipnet t h =
      rw (l.text_lem (ipnet_string (host_net n k)) t h) (parse_host_cidr-ipnet_string n k hn hk)

  -- If encoding/json reads what it writes: a route to an IPv4 network by an IPv4 gateway, which
  -- MarshalJSON of Route has written, is read by UnmarshalJSON with its network as it was and its
  -- gateway in the 16-byte form.
  unmarshal_json_route-marshal_json_route :
      (g : ℕ) (t u : String)
      → g < 4294967296
      → marshal_ipnet j (host_net n k) ≡ ok u
      → marshal_json_route j (record { dst = host_net n k; gw = v4 g }) ≡ ok t
      → unmarshal_json_route j t ≡ ok (record { dst = host_net n k; gw = v4_mapped g })
  unfolding marshal_json_route unmarshal_json_route
  unmarshal_json_route-marshal_json_route g t u hg written h =
      rw
        (l.route_lem (marshal_ipnet j) (unmarshal_ipnet j)
          (record { dst = host_net n k; gw = v4 g }) t u (host_net n k) (v4_mapped g) h written
          (unmarshal_ipnet-marshal_ipnet u written) (parse_ip-ip_string g hg))
        refl
