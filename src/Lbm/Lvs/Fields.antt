-- ===== src/Lbm/Lvs/Fields.antt =====
-- What the checks of the fields of an LVS accept.
use lbmanager.Base.{
  ◌≡◌, ◌≢◌, ◌↔◌, ◌⊎◌, sym, ◌∙◌, ◌≤◌, ℤ, pos, negsuc, String, true, false, string_eq, int_eq, arith,
  InRange, gtb, not_positive, negative, ◌||◌, ==_iff, ok, len, has_prefix,
}
use lbmanager.Net.{parse_ip}
use lbmanager.Lbm.Common.{
  HealthCheck, LbCommon, check_name, check_common, check_vip, check_health, check_l4, is_nil,
  lvs_health_prot, lb_type,
}
use lbmanager.Lbm.Lvs.{
  strategy_opts, kind_opts, LvsConf, check_conf, Lvs, check_port, check_protocol,
}
use lbmanager.Lbm.Lvs.Servers.{IsPositive}
use lbmanager.Utils.{is_element_exist}

abbrev pub IsName : String → Type 0
IsName name = (name ≢ "") × (len name ≤ 255)

pub check_name_iff : (name : String) → (check_name name ≡ ok tt) ↔ IsName name
unfolding check_name
check_name_iff name = ground (arith, ==_iff name "")

abbrev pub IsVip : String → Type 0
IsVip vip = (vip ≡ "") ⊎ (is_nil (parse_ip vip) ≡ false)

pub check_vip_iff : (vip : String) → (check_vip vip ≡ ok tt) ↔ IsVip vip
unfolding check_vip
check_vip_iff vip = ground (arith, ==_iff vip "")

pub port_iff : (p : ℤ) → ((gtb p 65535 || negative p) ≡ false) ↔ InRange 0 65535 p
port_iff (pos n) = ground arith
port_iff (negsuc n) = ground arith

pub not_positive_iff : (p : ℤ) → (not_positive p ≡ false) ↔ IsPositive p
not_positive_iff (pos n) = ground arith
not_positive_iff (negsuc n) = ground arith

pub check_port_iff : (l : Lvs) → (check_port l ≡ ok tt) ↔ InRange 0 65535 l.port
unfolding check_port
check_port_iff l = ground (arith, port_iff l.port)

abbrev pub Match : String → String → Type 0
Match protocol monitor =
    ((protocol ≡ "TCP") × (monitor ≢ "MISC")) ⊎ ((protocol ≡ "UDP") × (monitor ≡ "MISC"))

not_true : false ≡ true → ⊥
not_true h = absurd cc

tcp_udp : (p : String) → p ≡ "TCP" → p ≢ "UDP"
tcp_udp p h e = not_true ((==_iff "TCP" "UDP").1 (sym h ∙ e))

pub check_protocol_iff : (l : Lvs) → (check_protocol l ≡ ok tt) ↔ Match l.protocol l.monitor.type
unfolding check_protocol is_element_exist
check_protocol_iff l = ground (
  arith,
  tcp_udp l.protocol,
  ==_iff l.protocol "TCP",
  ==_iff l.protocol "UDP",
  ==_iff l.monitor.type "MISC",
)

abbrev pub IsLimit : LvsConf → Type 0
IsLimit c = (c.bps_limit ≤ 10000) × (c.cps_limit ≤ 20000)

no_strategy : (s : String) → s ≡ "" → is_element_exist s strategy_opts ≡ false
unfolding is_element_exist
no_strategy s h = rw h

no_kind : (s : String) → s ≡ "" → is_element_exist s kind_opts ≡ false
unfolding is_element_exist
no_kind s h = rw h

-- The options of an LVS are accepted exactly when their algorithm is a known one, whatever the other
-- options are, or there is no algorithm, the timeout is at most 10000 and the kind is a known one,
-- or there is no kind either and the two limits hold.
-- The options of an LVS are accepted exactly when their algorithm is a known one, whatever the other
-- options are, or there is no algorithm, the timeout is at most 10000 and the kind is a known one,
-- or there is no kind either and the two limits hold.
pub check_conf_iff :
    (c : LvsConf)
    → (check_conf c ≡ ok tt) ↔ (
        (is_element_exist c.strategy strategy_opts ≡ true)
        ⊎ ((c.strategy ≡ "")
            × (c.persistence_timeout ≤ 10000)
            × ((is_element_exist c.kind kind_opts ≡ true) ⊎ ((c.kind ≡ "") × IsLimit c))))
unfolding check_conf
check_conf_iff c =
    ground (arith, ==_iff c.strategy "", ==_iff c.kind "", no_strategy c.strategy, no_kind c.kind)

abbrev pub IsUrl : HealthCheck → Type 0
IsUrl h = (h.type ≡ "HTTP") → (has_prefix h.url_path "/" ≡ true)

pub record IsMonitor (h : HealthCheck) : Type 0 where
  pub type : is_element_exist h.type lvs_health_prot ≡ true
  pub url : IsUrl h
  pub interval : IsPositive h.interval
  pub timeout : IsPositive h.timeout
  pub max_retries : IsPositive h.max_retries
  pub delay : IsPositive h.delay

pub check_health_iff : (h : HealthCheck) → (check_health h "l4" ≡ ok tt) ↔ IsMonitor h
unfolding check_health check_l4
check_health_iff h = ground (
  arith,
  ==_iff h.type "HTTP",
  not_positive_iff h.interval,
  not_positive_iff h.timeout,
  not_positive_iff h.max_retries,
  not_positive_iff h.delay,
)

pub check_common_iff :
    (l : LbCommon)
    → (check_common l ≡ ok tt)
      ↔ ((is_element_exist l.type lb_type ≡ true) × IsName l.name × IsName l.cluster_name)
unfolding check_common
check_common_iff l = ground (arith, check_name_iff l.name, check_name_iff l.cluster_name)
