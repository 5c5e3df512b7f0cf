-- ===== src/Tests/Groups.antt =====
-- The witness for the order of the groups: an address in two groups of different names.
use lbmanager.Base.{◌≡◌, ◌↔◌, [], ◌∷◌}
use mathlib.Core.List.{Permᴰ}
use lbmanager.Base.Dict.{Dict}
use lbmanager.Net.{IpNet, parse_ip}
use lbmanager.Ipv4.{v4}
use lbmanager.Conf.Group.{bytes_of, get_l_addr_group_name}
use lbmanager.Conf.Group.Order.{IsApart, get_l_addr_group_name-IsApart_iff}

-- 10.0.0.0/8, and 10.1.0.0/16 inside of it.
abbrev groups : Dict IpNet
groups =
    ("inner", record { ip = v4 167772160; mask = 255 ∷ 0 ∷ 0 ∷ 0 ∷ [] })
    ∷ ("lab", record { ip = v4 167837696; mask = 255 ∷ 255 ∷ 0 ∷ 0 ∷ [] })
    ∷ []

get_l_addr_group_name-IsApart_iff_example :
    ((e : Dict IpNet)
      → Permᴰ groups e
      → get_l_addr_group_name e "10.1.0.1" ≡ get_l_addr_group_name groups "10.1.0.1")
    ↔ IsApart (bytes_of (parse_ip "10.1.0.1")) groups
get_l_addr_group_name-IsApart_iff_example = get_l_addr_group_name-IsApart_iff groups "10.1.0.1"
