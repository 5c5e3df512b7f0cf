-- ===== src/Tests/Lbm.antt =====
-- Witnesses for the load balancers.
use lbmanager.Base.{
  is_ok, ◌≡◌, ◌↔◌, refl, ℤ, pos, String, true, false, ◌&&◌, ◌||◌, List, [], ◌∷◌, ◌==◌, ==_iff,
  string_eq, ok, has_prefix, last_part,
}
use lbmanager.Base.Dict.{Dict, lookup}
use lbmanager.Net.{IpNet, parse_ip}
use lbmanager.Net
use lbmanager.Ipv4.{v4}
use lbmanager.Kvstore.{KvPair}
use lbmanager.Utils.{is_element_exist}
use lbmanager.Conf.Group.{get_l_addr_group_name, group_of}
use lbmanager.Lbm.Common.{
  check_common, check_name, check_vip, check_health, check_l4, check_backend,
}
use lbmanager.Lbm.Lvs.{
  Lvs, new_lvs, validate, check_conf, check_port, check_protocol, check_servers,
}
use lbmanager.Lbm.Lvs.Accepted.{IsAccepted, validate_iff}
use lbmanager.Lbm.Nginx.{Nginx, new_nginx}
use lbmanager.Lbm.Nginx
use lbmanager.Lbm.Nginx.Accepted.{IsServed, validate-IsServed_iff}
use lbmanager.Lbm.Handlers.{
  Impl, LbBase, is_listed, accepted, is_current, is_same_cluster, deref, handler_event,
}
use lbmanager.Lbm.Handlers.Keys.{has, is_offered, handler_event-elem}
use lbmanager.Lbm.Handlers.Quiet.{handler_event-settled}

-- One group, for the servers in 10.0.0.0/8.
abbrev groups : Dict IpNet
groups = ("inner", record { ip = v4 167772160; mask = 255 ∷ 0 ∷ 0 ∷ 0 ∷ [] }) ∷ []

abbrev web : ℤ → Lvs
web weight = record new_lvs {
  common = record new_lvs.common { name = "web"; cluster_name = "c1" };
  vip = "172.11.0.2";
  port = pos 80;
  servers = record { ip = "10.0.0.1"; port = pos 8080; weight = weight } ∷ [];
}

web-validate : validate groups (web (pos 0)) ≡ ok (web (pos 100))
unfolding validate check_common check_name check_vip check_health check_l4 check_backend check_port
    check_protocol check_conf check_servers new_lvs get_l_addr_group_name group_of is_element_exist
    parse_ip has_prefix Net.by_mark Net.parse_ipv4 Net.dtoi Net.v4_rest Net.net_contains
web-validate = refl

validate_iff_example :
    (validate groups (web (pos 100)) ≡ ok (web (pos 100))) ↔ IsAccepted groups (web (pos 100))
validate_iff_example = validate_iff groups (web (pos 100))

-- One location, for a pool of one server.
abbrev site : Nginx
site = record new_nginx {
  common = record new_nginx.common { name = "site"; cluster_name = "c1" };
  port = pos 80;
  pools =
      record {
        name = "app";
        strategy = "round_robin";
        session_stick = record {
          name = "";
          domain = "";
          path = "";
          expires = pos 0;
          enable = false;
        };
        servers = record { ip = "10.0.0.1"; port = pos 8080; weight = pos 1 } ∷ [];
      }
      ∷ [];
  locations = record { uri_path = ""; pool_name = "app" } ∷ [];
}

validate-IsServed_iff_example : (is_ok (Nginx.validate site) ≡ true) ↔ IsServed site
validate-IsServed_iff_example = validate-IsServed_iff site

-- Load balancers that are their own names, in a world that lists what was configured and deleted.
abbrev named : Impl (List String) String
named = record {
  parse = λ key value. ok value;
  recover = λ b. b;
  config_service = λ lb w. (true, lb, lb ∷ w);
  delete_service = λ name w. (true, name ∷ w);
  reload = λ w. w;
  name = λ lb. lb;
  cluster_name = λ lb. "c1";
  equal = λ a b. a == b;
}

abbrev listing : List KvPair
listing = record { key = "/lb/l4/web"; value = "web"; last_index = 1 } ∷ []

abbrev serving : LbBase (List String) String
serving = record { objects = "web" ∷ []; elem = ("/lb/l4/web", 0) ∷ []; world = [] }

handler_event-elem_example : has "/lb/l4/db" (handler_event named "c1" listing serving).elem ≡ (
    is_listed "/lb/l4/db" listing
    && (has "/lb/l4/db" serving.elem || is_offered named "c1" "/lb/l4/db" listing))
handler_event-elem_example = handler_event-elem named "c1" listing serving "/lb/l4/db"

handler_event-settled_example : handler_event named "c1" listing serving ≡ serving
unfolding is_listed accepted is_current is_same_cluster deref last_part lookup
handler_event-settled_example =
    handler_event-settled named "c1" listing serving ((λ lb e. (==_iff lb "web").1 cc), tt)
      (refl, tt)
