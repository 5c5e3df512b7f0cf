-- ===== src/Lbm/Lvs.antt =====
-- pkg/lbm: the layer 4 load balancer. lvsconf.go and the type LVS of types.go.
pub mod Servers
pub mod Fields
pub mod Accepted
use lbmanager.Base.{
  ℕ, zero, suc, ℤ, pos, String, Bool, true, false, not, ◌||◌, ◌&&◌, List, [], ◌∷◌, Option, none,
  some, ◌==◌, string_eq, int_eq, ltb, if◌then◌else◌, gtb, negative, not_positive, Error, message,
  errorf, str, int, cause, end, Result, ok, err, unless,
}
use lbmanager.Base.Monad.Pure.{◌>>=◌, ◌>>◌}
use lbmanager.Base.Dict.{Dict}
use lbmanager.Net.{Ip, IpNet, parse_ip}
use lbmanager.Utils.{is_element_exist}
use lbmanager.Conf.Group.{get_l_addr_group_name}
use lbmanager.Lbm.Common.{
  Backend, HealthCheck, LbCommon, no_status, lvs_type, lvs_prot, check_backend, check_health,
  check_common, check_vip,
}

abbrev pub max_timeout : ℕ
max_timeout = 10000

abbrev pub max_bps : ℕ
max_bps = 10000

abbrev pub max_cps : ℕ
max_cps = 20000

abbrev pub strategy_opts : List String
strategy_opts = "rr" ∷ "wrr" ∷ "dh" ∷ "sh" ∷ "sed" ∷ "nq" ∷ "lc" ∷ "wlc" ∷ "lblc" ∷ "lblcr" ∷ []

abbrev pub kind_opts : List String
kind_opts = "FNAT" ∷ []

-- The fields of type uint are numbers.
pub record LvsConf : Type 0 where
  pub strategy : String
  pub persistence_timeout : ℕ
  pub syn_proxy : Bool
  pub kind : String
  pub bps_limit : ℕ
  pub cps_limit : ℕ

-- LVSConf.CheckValid: a valid strategy, and so a valid kind, returns at once.
unfoldable pub check_conf : LvsConf → Result (Unit {0})
check_conf l =
    if not (l.strategy == "")
    then (if is_element_exist l.strategy strategy_opts
        then ok tt
        else err (message "algo is invalid"))
    else if ltb max_timeout l.persistence_timeout
    then err (message "persistence_timeout is invalid")
    else if not (l.kind == "")
    then (if is_element_exist l.kind kind_opts then ok tt else err (message "kind is invalid"))
    else if ltb max_bps l.bps_limit
    then err (message "bps_limit is invalid")
    else if ltb max_cps l.cps_limit
    then err (message "cps_limit is invalid")
    else ok tt

pub record Lvs : Type 0 where
  pub common : LbCommon
  pub open common use *
  pub vip : String
  pub port : ℤ
  pub conf : LvsConf
  pub monitor : HealthCheck
  pub servers : List Backend

unfoldable pub new_lvs : Lvs
new_lvs = record {
  common = record {
    id = "";
    name = "";
    type = lvs_type;
    cluster_name = "";
    protocol = "TCP";
    status = no_status;
  };
  vip = "";
  port = pos 0;
  conf = record {
    strategy = "rr";
    persistence_timeout = 0;
    syn_proxy = false;
    kind = "FNAT";
    bps_limit = 0;
    cps_limit = 0;
  };
  monitor = record {
    type = "TCP";
    url_path = "/";
    status_code = pos 200;
    interval = pos 7;
    rise = pos 0;
    timeout = pos 10;
    max_retries = pos 2;
    delay = pos 5;
    enable = false;
  };
  servers = [];
}

unfoldable pub check_port : Lvs → Result (Unit {0})
check_port l =
    unless (gtb l.port 65535 || negative l.port)
      (errorf "lb virtual port %d is invalid" (int l.port end))

unfoldable pub check_protocol : Lvs → Result (Unit {0})
check_protocol l = do
  unless (not (is_element_exist l.protocol lvs_prot))
      (errorf "lb protocol %s is invalid" (str l.protocol end))
  unless
      ((l.protocol == "TCP" && l.monitor.type == "MISC")
        || (l.protocol == "UDP" && not (l.monitor.type == "MISC")))
      (errorf "lb protocol %s is mismatch with health check type %s"
        (str l.protocol (str l.monitor.type end)))

-- The first server's group, and its address.
abbrev pub First : Type 0
First = String × String

-- The test of one server's group against that of the first; at index 0 there is none to compare.
abbrev same_group : Option First → String → Backend → Result (Unit {0})
same_group none la be = ok tt
same_group (some (laddr, ip)) la be =
    unless (not (laddr == la))
      (errorf "backend server is not in same cidr, %s and %s" (str ip (str be.ip end)))

-- The loop over the servers, which writes each back with its default weight.
unfoldable pub check_servers : Dict IpNet → Option First → List Backend → Result (List Backend)
check_servers groups first [] = ok []
check_servers groups first (be ∷ servers) = do
  checked ← check_backend be
  la ← get_l_addr_group_name groups checked.ip
  same_group first la checked
  rest ← check_servers groups (some (elim first [ none ↦ (la, checked.ip) | some f ↦ f ])) servers
  ok (checked ∷ rest)

abbrev pub conf_error : Result (Unit {0}) → Result (Unit {0})
conf_error (ok done) = ok done
conf_error (err e) = err (errorf "lvs conf is invalid, %s" (cause e end))

-- LVS.Validate; the receiver comes back with its servers' weights.
unfoldable pub validate : Dict IpNet → Lvs → Result Lvs
unfolding check_port check_protocol
validate groups l = do
  check_common l.common
  unless (not (l.type == lvs_type)) (errorf "lb type %s is mismatch" (str l.type end))
  check_vip l.vip
  check_port l
  check_protocol l
  conf_error (check_conf l.conf)
  check_health l.monitor l.type
  servers ← check_servers groups none l.servers
  ok (record l { servers = servers })
