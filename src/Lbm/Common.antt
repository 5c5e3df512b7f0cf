-- ===== src/Lbm/Common.antt =====
-- pkg/lbm/types.go: what the two kinds of load balancer share. `len` counts bytes, as Go's does.
use lbmanager.Base.{
  ℤ, pos, String, Bool, true, false, not, ◌||◌, List, [], ◌∷◌, Option, none, some, ◌==◌, string_eq,
  int_eq, ltb, if◌then◌else◌, gtb, negative, not_positive, has_prefix, len, message, errorf, str,
  int, cause, end, Result, ok, err, unless,
}
use lbmanager.Base.Monad.Pure.{◌>>◌}
use lbmanager.Net.{Ip, parse_ip}
use lbmanager.Utils.{is_element_exist}

abbrev pub lvs_type : String
lvs_type = "l4"

abbrev pub ng_type : String
ng_type = "l7"

abbrev pub lvs_prot : List String
lvs_prot = "TCP" ∷ "UDP" ∷ []

abbrev pub lvs_health_prot : List String
lvs_health_prot = "TCP" ∷ "HTTP" ∷ "MISC" ∷ []

abbrev pub lb_type : List String
lb_type = "l4" ∷ "l7" ∷ []

abbrev pub nginx_strategy : List String
nginx_strategy = "round_robin" ∷ "least_conn" ∷ []

abbrev pub nginx_prot : List String
nginx_prot = "HTTP" ∷ "TCP" ∷ "UDP" ∷ []

-- A port of at most 65535, above 0.
abbrev pub is_bad_port : ℤ → Bool
is_bad_port p = gtb p 65535 || not_positive p

abbrev pub is_nil : Option Ip → Bool
is_nil none = true
is_nil (some _) = false

pub record Backend : Type 0 where
  pub ip : String
  pub port : ℤ
  pub weight : ℤ

abbrev pub or_default : ℤ → ℤ
or_default w = if w == pos 0 then pos 100 else w

-- Backend.CheckValid; the receiver comes back with its default weight.
unfoldable pub check_backend : Backend → Result Backend
check_backend b = do
  unless (is_nil (parse_ip b.ip)) (errorf "backend server IP %s is invalid" (str b.ip end))
  unless (is_bad_port b.port) (errorf "backend server port %d is invalid" (int b.port end))
  unless (negative b.weight) (errorf "backend server weight %d is invalid" (int b.weight end))
  ok (record b { weight = or_default b.weight })

pub record HealthCheck : Type 0 where
  pub type : String
  pub url_path : String
  pub status_code : ℤ
  pub interval : ℤ
  pub rise : ℤ
  pub timeout : ℤ
  pub max_retries : ℤ
  pub delay : ℤ
  pub enable : Bool

unfoldable pub check_l7 : HealthCheck → Result (Unit {0})
check_l7 h = do
  unless (negative h.timeout) (errorf "health check timeout %d is invalid" (int h.timeout end))
  unless (negative h.max_retries)
      (errorf "health check retry %d is invalid" (int h.max_retries end))

unfoldable pub check_l4 : HealthCheck → Result (Unit {0})
check_l4 h = do
  unless (not (is_element_exist h.type lvs_health_prot))
      (errorf "health check type %s is invalid" (str h.type end))
  if h.type == "HTTP"
      then unless (not (has_prefix h.url_path "/"))
          (errorf "health check url %s is invalid" (str h.url_path end))
      else ok tt
  unless (not_positive h.interval) (errorf "interval %d is invalid" (int h.interval end))
  unless (not_positive h.timeout) (errorf "health check timeout %d is invalid" (int h.timeout end))
  unless (not_positive h.max_retries)
      (errorf "health check retry %d is invalid" (int h.max_retries end))
  unless (not_positive h.delay) (errorf "health check delay %d is invalid" (int h.delay end))

-- HealthCheck.CheckValid
unfoldable pub check_health : HealthCheck → String → Result (Unit {0})
unfolding check_l4 check_l7
check_health h t = if t == lvs_type then check_l4 h else check_l7 h

pub record LbStatus : Type 0 where
  pub status : String
  pub msg : String
  pub ip : String
  pub host_name : String

abbrev pub no_status : LbStatus
no_status = record { status = ""; msg = ""; ip = ""; host_name = "" }

pub record LbCommon : Type 0 where
  pub id : String
  pub name : String
  pub type : String
  pub cluster_name : String
  pub protocol : String
  pub status : LbStatus

-- The methods of LBCommon that both kinds of load balancer have.
abbrev pub get_name : LbCommon → String
get_name l = l.name

abbrev pub get_cluster_name : LbCommon → String
get_cluster_name l = l.cluster_name

unfoldable pub check_name : String → Result (Unit {0})
check_name name = do
  unless (name == "") (message "name is empty")
  unless (ltb 255 (len name)) (message "name length is to long")

-- `err` with a text and a value in front of it.
abbrev pub wrap : {A : Type 0} → Result A → String → String → Result A
wrap (ok a) format value = ok a
wrap (err e) format value = err (errorf format (str value (cause e end)))

-- LBCommon.CheckValid
unfoldable pub check_common : LbCommon → Result (Unit {0})
unfolding check_name
check_common l = do
  unless (not (is_element_exist l.type lb_type)) (errorf "lb type %s is invalid" (str l.type end))
  wrap (check_name l.name) "lb name %s is invalid, %s" l.name
  wrap (check_name l.cluster_name) "lb cluster name %s is invalid, %s" l.cluster_name

-- CheckVIP of both kinds, at the field VIP.
unfoldable pub check_vip : String → Result (Unit {0})
check_vip vip =
    if vip == ""
    then ok tt
    else unless (is_nil (parse_ip vip)) (errorf "lb virtual ip %s is invalid" (str vip end))
