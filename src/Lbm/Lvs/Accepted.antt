-- ===== src/Lbm/Lvs/Accepted.antt =====
-- What LVS.Validate accepts.
use mathlib.Core.Path.{subst}
use lbmanager.Base.{
  ◌≡◌, ◌↔◌, ◌⊎◌, refl, String, true, false, not, none, ◌==◌, string_eq, arith, InRange, ==_iff,
  Result, ok, err, ◌≤◌,
}
use lbmanager.Base.Dict.{Dict}
use lbmanager.Base.Monad.Inversion.{ok_inj, bind_ok, unless_ok}
use lbmanager.Net.{IpNet}
use lbmanager.Utils.{is_element_exist}
use lbmanager.Lbm.Common.{lvs_type, lb_type, check_common, check_vip, check_health}
use lbmanager.Lbm.Lvs.{
  Lvs, LvsConf, strategy_opts, kind_opts, check_conf, conf_error, check_port, check_protocol,
  check_servers, validate,
}
use lbmanager.Lbm.Lvs.Servers.{AreServers, check_servers-AreServers, AreServers-check_servers}
use lbmanager.Lbm.Lvs.Fields.{
  IsName, IsVip, Match, IsLimit, IsMonitor, check_common_iff, check_vip_iff, check_port_iff,
  check_protocol_iff, check_conf_iff, check_health_iff,
}

abbrev pub IsConf : LvsConf → Type 0
IsConf c =
    (is_element_exist c.strategy strategy_opts ≡ true)
    ⊎ ((c.strategy ≡ "")
        × (c.persistence_timeout ≤ 10000)
        × ((is_element_exist c.kind kind_opts ≡ true) ⊎ ((c.kind ≡ "") × IsLimit c)))

-- A valid type, names, address, port, protocol, options and health check, and servers of one group
-- of local addresses, with their weights filled in.
pub record IsAccepted (groups : Dict IpNet) (l : Lvs) : Type 0 where
  pub type : l.type ≡ lvs_type
  pub name : IsName l.name
  pub cluster : IsName l.cluster_name
  pub vip : IsVip l.vip
  pub port : InRange 0 65535 l.port
  pub protocol : Match l.protocol l.monitor.type
  pub conf : IsConf l.conf
  pub monitor : IsMonitor l.monitor
  pub servers : AreServers groups l.servers

conf_error_ok : (r : Result (Unit {0})) → conf_error r ≡ ok tt → r ≡ ok tt
conf_error_ok (ok done) h = refl
conf_error_ok (err e) h = absurd cc

is_l4 : (t : String) → not (t == lvs_type) ≡ false → t ≡ lvs_type
is_l4 t h = ground (arith, ==_iff t lvs_type)

-- A load balancer that Validate accepts comes back meeting IsAccepted, and only its servers have
-- changed.
validate-IsAccepted :
    (groups : Dict IpNet) (l m : Lvs)
    → validate groups l ≡ ok m
    → IsAccepted groups m × (m ≡ record l { servers = m.servers })
unfolding validate
validate-IsAccepted groups l m h =
    let (_, common, h1) = bind_ok (check_common l.common) _ h in
    let (type, h2) = unless_ok _ (not (l.type == lvs_type)) _ h1 in
    let (_, vip, h3) = bind_ok (check_vip l.vip) _ h2 in
    let (_, port, h4) = bind_ok (check_port l) _ h3 in
    let (_, protocol, h5) = bind_ok (check_protocol l) _ h4 in
    let (_, conf, h6) = bind_ok (conf_error (check_conf l.conf)) _ h5 in
    let (_, monitor, h7) = bind_ok (check_health l.monitor l.type) _ h6 in
    let (bs, servers, h8) = bind_ok (check_servers groups none l.servers) _ h7 in
    subst (λ x. IsAccepted groups x × (x ≡ record l { servers = x.servers })) (ok_inj h8)
      (
        record {
          type = is_l4 l.type type;
          name = ((check_common_iff l.common).0 common).1;
          cluster = ((check_common_iff l.common).0 common).2;
          vip = (check_vip_iff l.vip).0 vip;
          port = (check_port_iff l).0 port;
          protocol = (check_protocol_iff l).0 protocol;
          conf = (check_conf_iff l.conf).0 (conf_error_ok (check_conf l.conf) conf);
          monitor =
              (check_health_iff l.monitor).0
                (subst (λ t. check_health l.monitor t ≡ ok tt) (is_l4 l.type type) monitor);
          servers = check_servers-AreServers groups l.servers bs servers;
        },
        refl,
      )

l4_known : (t : String) → t ≡ lvs_type → is_element_exist t lb_type ≡ true
unfolding is_element_exist
l4_known t h = rw h

-- Validate accepts a load balancer and leaves it as it is exactly when it meets IsAccepted.
pub validate_iff :
    (groups : Dict IpNet) (l : Lvs) → (validate groups l ≡ ok l) ↔ IsAccepted groups l
unfolding validate
validate_iff groups l = (
  λ h. (validate-IsAccepted groups l l h).0,
  λ a. rw (
    (check_common_iff l.common).1 (l4_known l.type a.type, a.name, a.cluster),
    (check_vip_iff l.vip).1 a.vip,
    (check_port_iff l).1 a.port,
    (check_protocol_iff l).1 a.protocol,
    (check_conf_iff l.conf).1 a.conf,
    a.type,
    (check_health_iff l.monitor).1 a.monitor,
    AreServers-check_servers groups l.servers a.servers,
  ),
)

-- Validate accepts again what it accepted.
pub validate-again :
    (groups : Dict IpNet) (l m : Lvs) → validate groups l ≡ ok m → validate groups m ≡ ok m
validate-again groups l m h = (validate_iff groups m).1 (validate-IsAccepted groups l m h).0
