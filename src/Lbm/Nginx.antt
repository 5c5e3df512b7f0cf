-- ===== src/Lbm/Nginx.antt =====
-- pkg/lbm: the layer 7 load balancer, the type Nginx of types.go.
pub mod Accepted
pub mod Service
use lbmanager.Base.{
  ℤ, pos, String, Bool, true, false, not, ◌||◌, List, [], ◌∷◌, ◌==◌, string_eq, if◌then◌else◌, gtb,
  has_prefix, any, message, errorf, str, int, cause, end, Result, ok, err, unless,
}
use lbmanager.Base.Monad.Pure.{◌>>=◌, ◌>>◌}
use lbmanager.Net.{Ip, parse_ip}
use lbmanager.Utils.{is_element_exist}
use lbmanager.Lbm.Common.{
  Backend, HealthCheck, LbStatus, LbCommon, ng_type, nginx_strategy, nginx_prot, is_bad_port,
  no_status, wrap, check_backend, check_health, check_name, check_common, check_vip,
}

pub record SessionPersistence : Type 0 where
  pub name : String
  pub domain : String
  pub path : String
  pub expires : ℤ
  pub enable : Bool

unfoldable pub check_session : SessionPersistence → Result (Unit {0})
check_session s = if s.enable then check_name s.name else ok tt

pub record Pool : Type 0 where
  pub name : String
  pub strategy : String
  pub session_stick : SessionPersistence
  pub servers : List Backend

abbrev pub is_empty : List Backend → Bool
is_empty [] = true
is_empty (_ ∷ _) = false

-- The loop over the servers of a pool, which checks copies of them.
unfoldable pub check_pool_servers : List Backend → Result (Unit {0})
check_pool_servers [] = ok tt
check_pool_servers (be ∷ servers) = do check_backend be; check_pool_servers servers

-- What follows the check of the session: an error of that check ends the whole check without one.
abbrev pub after_session : Result (Unit {0}) → Result (Unit {0}) → Result (Unit {0})
after_session (err e) k = ok tt
after_session (ok done) k = k

-- Pool.CheckValid
unfoldable pub check_pool : Pool → Result (Unit {0})
unfolding check_session check_pool_servers
check_pool p = do
  wrap (check_name p.name) "lb pool name %s is invalid, %s" p.name
  unless (not (is_element_exist p.strategy nginx_strategy))
      (errorf "lb pool strategy %s is invalid" (str p.strategy end))
  after_session (check_session p.session_stick) (do
    unless (is_empty p.servers) (message "lb pool server is empty")
    check_pool_servers p.servers)

pub record Location : Type 0 where
  pub uri_path : String
  pub pool_name : String

-- Location.CheckValid; the receiver comes back with its default path.
unfoldable pub check_location : Location → Result Location
check_location loc = do
  path ← ok (if loc.uri_path == "" then "/" else loc.uri_path)
  unless (not (has_prefix path "/")) (errorf "location url %s is invalid" (str path end))
  ok (record loc { uri_path = path })

pub record L7Rule : Type 0 where
  pub type : String
  pub compare_type : String
  pub key : String
  pub value : String
  pub invert : Bool

pub record L7Policy : Type 0 where
  pub name : String
  pub action : String
  pub redirect_pool : String
  pub redirect_url : String
  pub rules : List L7Rule

pub record Nginx : Type 0 where
  pub common : LbCommon
  pub open common use *
  pub vip : String
  pub port : ℤ
  pub monitor : HealthCheck
  pub pools : List Pool
  pub locations : List Location
  pub policy : List L7Policy

unfoldable pub new_nginx : Nginx
new_nginx = record {
  common = record {
    id = "";
    name = "";
    type = ng_type;
    cluster_name = "";
    protocol = "HTTP";
    status = no_status;
  };
  vip = "";
  port = pos 0;
  monitor = record {
    type = "HTTP";
    url_path = "/";
    status_code = pos 0;
    interval = pos 0;
    rise = pos 0;
    timeout = pos 10;
    max_retries = pos 2;
    delay = pos 0;
    enable = false;
  };
  pools = [];
  locations = [];
  policy = [];
}

-- Nginx.CheckVIP
abbrev pub check_ng_vip : Nginx → Result (Unit {0})
check_ng_vip n = check_vip n.vip

unfoldable pub check_ng_port : Nginx → Result (Unit {0})
check_ng_port n =
    unless (is_bad_port n.port) (errorf "lb virtual port %d is invalid" (int n.port end))

unfoldable pub check_ng_protocol : Nginx → Result (Unit {0})
check_ng_protocol n =
    unless (not (is_element_exist n.protocol nginx_prot))
      (errorf "lb protocol %s is invalid" (str n.protocol end))

unfoldable pub check_pools : List Pool → Result (Unit {0})
check_pools [] = ok tt
check_pools (p ∷ pools) = do check_pool p; check_pools pools

unfoldable pub has_pool : List Pool → String → Bool
has_pool pools name = any (λ p. p.name == name) pools

-- The loop over the locations, which writes each back with its default path. A location with a
-- bad path ends the loop without an error, and the locations from it on stay as they are.
unfoldable pub check_locations : List Pool → List Location → Result (List Location)
unfolding has_pool
check_locations pools [] = ok []
check_locations pools (l ∷ locations) =
    let rest = check_locations pools locations in
    elim (check_location l) [
      | err e ↦ ok (l ∷ locations)
      | ok checked ↦ do
        unless (not (has_pool pools checked.pool_name))
            (errorf "location pool name %s is mismatch with pools" (str checked.pool_name end))
        others ← rest
        ok (checked ∷ others)
    ]

-- Nginx.Validate; the receiver comes back with its locations' paths.
unfoldable pub validate : Nginx → Result Nginx
unfolding check_ng_port check_ng_protocol
validate n = do
  check_common n.common
  unless (not (n.type == ng_type)) (errorf "lb type %s is mismatch" (str n.type end))
  check_ng_vip n
  check_ng_port n
  check_ng_protocol n
  check_health n.monitor n.type
  check_pools n.pools
  locations ← check_locations n.pools n.locations
  ok (record n { locations = locations })
