-- ===== src/Conf/Group.antt =====
-- GetLAddrGroupName of pkg/conf/conf.go.
pub mod Order
use lbmanager.Base.{
  String, Option, none, some, [], ◌∷◌, if◌then◌else◌, errorf, str, end, Result, ok, err,
}
use lbmanager.Base.Dict.{Dict}
use lbmanager.Net.{Ip, IpNet, parse_ip, net_contains}

-- A nil address is the empty list of bytes.
abbrev pub bytes_of : Option Ip → Ip
bytes_of none = []
bytes_of (some a) = a

unfoldable pub group_of : Ip → Dict IpNet → Option String
group_of back [] = none
group_of back ((k, v) ∷ d) = if net_contains v back then some k else group_of back d

-- What follows the loop, by the group that it has returned.
abbrev pub after_groups : String → Option String → Result String
after_groups ip (some k) = ok k
after_groups ip none = err (errorf "can not find matched local addr group, ip: %s" (str ip end))

unfoldable pub get_l_addr_group_name : Dict IpNet → String → Result String
unfolding group_of
get_l_addr_group_name laddr ip = after_groups ip (group_of (bytes_of (parse_ip ip)) laddr)
