-- ===== src/Conf.antt =====
-- pkg/conf/conf.go. The package's variable `laddr` is part of the state; encoding/json is the
-- argument `decode`, which gives the configuration with the fields of the text put in.
pub mod Group
use lbmanager.Base.{
  ℕ, ℤ, pos, String, Bool, true, false, not, ◌||◌, Option, none, some, List, [], ◌∷◌, ◌==◌,
  string_eq, nat_eq, if◌then◌else◌, gtb, below, not_positive, has_prefix, length, Error, message,
  errorf, str, int, end, Result, ok, err, Exec, unless,
}
use lbmanager.Base.Monad.Exec.{pure, raise, lift, attempt, ◌>>=◌, ◌>>◌}
use lbmanager.Base.Dict.{Dict, insert}
use lbmanager.Net.{Ip, IpNet, parse_cidr}
use lbmanager.Utils.{Host, is_element_exist, is_file_exist}

pub record Keepalived : Type 0 where
  pub conf_dir : String
  pub reload_time : ℤ
  pub misc_script : String

pub record LvsStats : Type 0 where
  pub result_path : String
  pub port : ℤ

pub record LocalAddrConf : Type 0 where
  pub name : String
  pub dest_cidr : String

pub record L4Conf : Type 0 where
  pub subnet_name : String
  pub subnet_cidr : String
  pub port_base : ℤ
  pub k_conf : Keepalived
  pub stats : LvsStats
  pub l_addr : List LocalAddrConf

pub record LbConf : Type 0 where
  pub type : String
  pub store_prefix : String
  pub cluster_name : String
  pub catalog : String
  pub conf_dir : String
  pub l4_conf : L4Conf

-- GetStorePrefix, of the variable `conf`.
abbrev pub get_store_prefix : LbConf → String
get_store_prefix conf = conf.store_prefix

-- The variable `laddr`, and the world.
pub record State (W : Type 0) : Type 0 where
  pub laddr : Dict IpNet
  pub world : W

abbrev pub outside : {W A : Type 0} → Exec W A → Exec (State W) A
outside m s = let (r, w) = m s.world in (r, record s { world = w })

-- LVSStats.CheckValid
unfoldable pub check_stats : LvsStats → Result (Unit {0})
check_stats s =
    if not (has_prefix s.result_path "/")
    then err (errorf "stats path %s is invalid" (str s.result_path end))
    else if gtb s.port 65535 || not_positive s.port
    then err (errorf "stats port %d is invalid" (int s.port end))
    else ok tt

module _ {W : Type 0} (h : Host W) where
  -- Keepalived.CheckValid
  unfoldable pub check_keepalived : Keepalived → Exec W (Unit {0})
  check_keepalived k =
      if not_positive k.reload_time
      then raise (errorf "reloadPeriod %d is invalid" (int k.reload_time end))
      else attempt (is_file_exist h k.misc_script) λ r. elim r [
        | err _ ↦ raise (errorf "keepalived script path %s is invalid" (str k.misc_script end))
        | ok _ ↦ pure tt
      ]

  -- LocalAddrConf.CheckValid, which writes to `laddr`.
  unfoldable pub check_local_addr : LocalAddrConf → Exec (State W) (Unit {0})
  check_local_addr l s =
      if l.name == ""
      then (err (message "lb addr name is required"), s)
      else elim (parse_cidr l.dest_cidr) [
        | err _ ↦ (err (errorf "lb addr dest cidr %s is invalid" (str l.dest_cidr end)), s)
        | ok (_, cidr) ↦ (ok tt, record s { laddr = insert l.name cidr s.laddr })
      ]

  unfoldable pub check_local_addrs : List LocalAddrConf → Exec (State W) (Unit {0})
  check_local_addrs [] = pure tt
  check_local_addrs (v ∷ vs) = do check_local_addr v; check_local_addrs vs

  -- L4Conf.CheckValid
  unfoldable pub check_l4 : L4Conf → Exec (State W) (Unit {0})
  unfolding check_keepalived check_stats check_local_addrs
  check_l4 l = do
    lift (unless (l.subnet_name == "") (message "lb subnet name is empty"))
    attempt (lift (parse_cidr l.subnet_cidr)) λ r. elim r [
      | err _ ↦ raise (errorf "lb subnet cidr %s is invalid" (str l.subnet_cidr end))
      | ok _ ↦ pure tt
    ]
    lift (
        unless (gtb l.port_base 65535 || below l.port_base 5000)
          (errorf "lb port base %d is invalid" (int l.port_base end)))
    outside (check_keepalived l.k_conf)
    lift (check_stats l.stats)
    lift (unless (length l.l_addr == 0) (message "lb laddr is required"))
    check_local_addrs l.l_addr

  -- LBConf.CheckValid
  unfoldable pub check_valid : LbConf → Exec (State W) (Unit {0})
  unfolding check_l4
  check_valid c = do
    lift (
        unless (not (is_element_exist c.type ("l4" ∷ "l7" ∷ [])))
          (errorf "lb type %s is invalid" (str c.type end)))
    lift (
        unless (not (has_prefix c.store_prefix "/"))
          (errorf "lb store %s is invalid" (str c.store_prefix end)))
    lift (unless (c.cluster_name == "") (message "cluster name is empty"))
    attempt (outside (is_file_exist h c.conf_dir)) λ r. elim r [
      | err _ ↦ raise (errorf "lb conf path %s is invalid" (str c.conf_dir end))
      | ok _ ↦ pure tt
    ]
    if c.type == "l4" then check_l4 c.l4_conf else pure tt

  abbrev pub defaults : LbConf
  defaults = record {
    type = "";
    store_prefix = "";
    cluster_name = "";
    catalog = "";
    conf_dir = "";
    l4_conf = record {
      subnet_name = "";
      subnet_cidr = "";
      port_base = pos 10000;
      k_conf = record { conf_dir = ""; reload_time = pos 5; misc_script = "" };
      stats = record { result_path = "/var/run/lvs_stats"; port = pos 33611 };
      l_addr = [];
    };
  }

  -- Init; an error ends the program. The result becomes the variable `conf`.
  unfoldable pub init : (String → LbConf → Result LbConf) → Exec (State W) LbConf
  unfolding check_valid
  init decode = do
    text ← outside (h.read_file "/etc/lb/lb.conf")
    lb ← lift (decode text defaults)
    check_valid lb
    pure lb
