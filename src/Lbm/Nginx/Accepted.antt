-- ===== src/Lbm/Nginx/Accepted.antt =====
-- What Nginx.Validate accepts.
use lbmanager.Base.{
  ◌≡◌, ◌≢◌, ◌↔◌, ◌⊎◌, refl, ap, String, Bool, true, false, not, List, [], ◌∷◌, ◌==◌, ◌||◌,
  string_eq, if◌then◌else◌, arith, InRange, All, negative, ==_iff, is_ok, Bool-cases, inl, inr, ok,
  has_prefix,
}
use mathlib.Core.Path.{subst}
use lbmanager.Base.Monad.Inversion.{bind_ok, unless_ok, is_ok-ok}
use lbmanager.Net.{parse_ip}
use lbmanager.Utils.{is_element_exist}
use lbmanager.Lbm.Common.{
  Backend, HealthCheck, ng_type, lb_type, nginx_strategy, nginx_prot, is_nil, check_backend,
  check_name, check_common, check_vip, check_health, check_l7,
}
use lbmanager.Lbm.Lvs.Servers.{is_bad_port_iff}
use lbmanager.Lbm.Lvs.Fields.{IsName, IsVip, check_name_iff, check_vip_iff, check_common_iff}
use lbmanager.Lbm.Nginx.{
  SessionPersistence, Pool, Location, Nginx, check_session, check_pool, check_pool_servers,
  is_empty, check_location, check_ng_port, check_ng_protocol, check_pools, check_locations,
  has_pool, validate,
}

-- The weight may be 0: the default is written to a copy.
abbrev pub IsRealServer : Backend → Type 0
IsRealServer b =
    (is_nil (parse_ip b.ip) ≡ false) × InRange 1 65535 b.port × (negative b.weight ≡ false)

check_backend_iff : (b : Backend) → (is_ok (check_backend b) ≡ true) ↔ IsRealServer b
unfolding check_backend
check_backend_iff b = ground (arith, is_bad_port_iff b.port)

check_pool_servers_iff : (bs : List Backend) → (check_pool_servers bs ≡ ok tt) ↔ All IsRealServer bs
unfolding check_pool_servers
check_pool_servers_iff [] = ground arith
check_pool_servers_iff (b ∷ bs) = ground (arith, check_backend_iff b, check_pool_servers_iff bs)

-- A pool with a session that has no good name passes whatever its servers are.
abbrev pub IsPool : Pool → Type 0
IsPool p =
    IsName p.name
    × (is_element_exist p.strategy nginx_strategy ≡ true)
    × (((p.session_stick.enable ≡ true) × (check_name p.session_stick.name ≢ ok tt))
        ⊎ ((is_empty p.servers ≡ false) × All IsRealServer p.servers))

check_session_iff :
    (s : SessionPersistence)
    → (check_session s ≢ ok tt) ↔ ((s.enable ≡ true) × (check_name s.name ≢ ok tt))
unfolding check_session
check_session_iff s = ground arith

check_pool_iff : (p : Pool) → (check_pool p ≡ ok tt) ↔ IsPool p
unfolding check_pool
check_pool_iff p = ground (
  arith,
  check_name_iff p.name,
  check_session_iff p.session_stick,
  check_pool_servers_iff p.servers,
)

check_pools_iff : (ps : List Pool) → (check_pools ps ≡ ok tt) ↔ All IsPool ps
unfolding check_pools
check_pools_iff [] = ground arith
check_pools_iff (p ∷ ps) = ground (arith, check_pool_iff p, check_pools_iff ps)

abbrev has_path : Location → Bool
has_path l = (l.uri_path == "") || has_prefix l.uri_path "/"

-- The locations that the loop checks: it ends, without an error, at the first bad path.
unfoldable pub checked_part : List Location → List Location
checked_part [] = []
checked_part (l ∷ ls) = let rest = checked_part ls in if has_path l then l ∷ rest else []

slash : has_prefix "/" "/" ≡ true
unfolding has_prefix
slash = refl

check_location_iff : (l : Location) → (is_ok (check_location l) ≡ true) ↔ (has_path l ≡ true)
unfolding check_location
check_location_iff l = elim (Bool-cases (l.uri_path == "")) [
  | inl e ↦ rw (e, slash) (ground arith)
  | inr e ↦ rw e (ground arith)
]

check_location-name : (l m : Location) → check_location l ≡ ok m → m.pool_name ≡ l.pool_name
unfolding check_location
check_location-name l m h = ground arith

known_again : (pools : List Pool) (a b : String) → a ≡ b → has_pool pools a ≡ has_pool pools b
known_again pools a b h = ap (has_pool pools) h

bad_path : (l : Location) → has_path l ≡ false → is_ok (check_location l) ≡ false
bad_path l h = ground (arith, check_location_iff l)

check_locations_iff :
    (pools : List Pool) (ls : List Location)
    → (is_ok (check_locations pools ls) ≡ true)
      ↔ All (λ l. has_pool pools l.pool_name ≡ true) (checked_part ls)
unfolding check_locations checked_part
check_locations_iff pools [] = ground arith
check_locations_iff pools (l ∷ ls) = elim (Bool-cases (has_path l)) [
  | inl e ↦
      let (m, found) = is_ok-ok (check_location l) ((check_location_iff l).1 e) in
      let named = known_again pools m.pool_name l.pool_name (check_location-name l m found) in
      rw e (ground (arith, found, named, check_locations_iff pools ls))
  | inr e ↦ rw e (ground (arith, bad_path l e))
]

pub record IsServed (n : Nginx) : Type 0 where
  pub type : n.type ≡ ng_type
  pub name : IsName n.name
  pub cluster : IsName n.cluster_name
  pub vip : IsVip n.vip
  pub port : InRange 1 65535 n.port
  pub protocol : is_element_exist n.protocol nginx_prot ≡ true
  pub timeout : negative n.monitor.timeout ≡ false
  pub max_retries : negative n.monitor.max_retries ≡ false
  pub pools : All IsPool n.pools
  pub locations : All (λ l. has_pool n.pools l.pool_name ≡ true) (checked_part n.locations)

check_l7_iff :
    (h : HealthCheck)
    → (check_health h "l7" ≡ ok tt)
      ↔ ((negative h.timeout ≡ false) × (negative h.max_retries ≡ false))
unfolding check_health check_l7
check_l7_iff h = ground arith

port_iff : (n : Nginx) → (check_ng_port n ≡ ok tt) ↔ InRange 1 65535 n.port
unfolding check_ng_port
port_iff n = ground (arith, is_bad_port_iff n.port)

protocol_iff :
    (n : Nginx) → (check_ng_protocol n ≡ ok tt) ↔ (is_element_exist n.protocol nginx_prot ≡ true)
unfolding check_ng_protocol
protocol_iff n = ground arith

is_l7 : (t : String) → not (t == ng_type) ≡ false → t ≡ ng_type
is_l7 t h = ground (arith, ==_iff t ng_type)

l7_known : (t : String) → t ≡ ng_type → is_element_exist t lb_type ≡ true
unfolding is_element_exist
l7_known t h = rw h

accepted_parts : (n : Nginx) → is_ok (validate n) ≡ true → IsServed n
unfolding validate
accepted_parts n valid =
    let (m, h) = is_ok-ok (validate n) valid in
    let (_, common, h1) = bind_ok (check_common n.common) _ h in
    let (type, h2) = unless_ok _ (not (n.type == ng_type)) _ h1 in
    let (_, vip, h3) = bind_ok (check_vip n.vip) _ h2 in
    let (_, port, h4) = bind_ok (check_ng_port n) _ h3 in
    let (_, protocol, h5) = bind_ok (check_ng_protocol n) _ h4 in
    let (_, monitor, h6) = bind_ok (check_health n.monitor n.type) _ h5 in
    let (_, pools, h7) = bind_ok (check_pools n.pools) _ h6 in
    let (ls, locations, h8) = bind_ok (check_locations n.pools n.locations) _ h7 in
    let (timeout, max_retries) =
      (check_l7_iff n.monitor).0
        (subst (λ t. check_health n.monitor t ≡ ok tt) (is_l7 n.type type) monitor) in
    record {
      type = is_l7 n.type type;
      name = ((check_common_iff n.common).0 common).1;
      cluster = ((check_common_iff n.common).0 common).2;
      vip = (check_vip_iff n.vip).0 vip;
      port = (port_iff n).0 port;
      protocol = (protocol_iff n).0 protocol;
      timeout = timeout;
      max_retries = max_retries;
      pools = (check_pools_iff n.pools).0 pools;
      locations = (check_locations_iff n.pools n.locations).0 (ap is_ok locations);
    }

parts_accepted : (n : Nginx) → IsServed n → is_ok (validate n) ≡ true
unfolding validate
parts_accepted n a =
    let (ls, e) =
      is_ok-ok (check_locations n.pools n.locations)
        ((check_locations_iff n.pools n.locations).1 a.locations) in
    rw (
      (check_common_iff n.common).1 (l7_known n.type a.type, a.name, a.cluster),
      (check_vip_iff n.vip).1 a.vip,
      (port_iff n).1 a.port,
      (protocol_iff n).1 a.protocol,
      a.type,
      (check_l7_iff n.monitor).1 (a.timeout, a.max_retries),
      (check_pools_iff n.pools).1 a.pools,
      e,
    )

-- Nginx.Validate gives no error exactly for the load balancers of IsServed, which leaves out of
-- account the servers of a pool whose session has no good name, and the locations from the first
-- with a bad path on.
pub validate-IsServed_iff : (n : Nginx) → (is_ok (validate n) ≡ true) ↔ IsServed n
validate-IsServed_iff n = (accepted_parts n, parts_accepted n)
