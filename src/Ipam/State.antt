-- ===== src/Ipam/State.antt =====
-- pkg/ipam/ipam.go. The variables of the package are the allocator, which does not change after
-- Init, and the cache, which stands beside the world. The mutex makes each function one step.
pub mod Require
pub mod Leases
pub mod Again
pub mod Release
pub mod Runs
pub mod Start
pub mod Requested
use lbmanager.Base.{
  ℕ, String, true, ◌&&◌, not, Option, none, some, List, ◌==◌, string_eq, if◌then◌else◌, ok, Exec,
}
use lbmanager.Base.Monad.Exec.{pure, lift, attempt, ◌>>=◌, ◌>>◌}
use lbmanager.Base.Dict.{Dict, insert, erase, keys}
use lbmanager.Net.{Ip, ip_string, parse_ip}
use lbmanager.Kvstore.{KvStore}
use lbmanager.Ipam.Types.{parse_host_cidr}
use lbmanager.Ipam.Etcd
use lbmanager.Ipam.Allocator
use lbmanager.Ipam.Allocator.Config.{IpAllocator, new_ipam_conf, new_ip_allocator}

pub record State (W : Type 0) : Type 0 where
  pub cache : Dict String
  pub world : W

-- An action on the world alone.
abbrev pub outside : {W A : Type 0} → Exec W A → Exec (State W) A
outside m s = let (r, w) = m s.world in (r, record s { world = w })

abbrev pub data_dir : String
data_dir = "ipam/"

-- Init: an error ends the program (glog.Fatal), and is the result here.
unfoldable pub init :
    {W : Type 0} → KvStore W → String → String → Exec W (IpAllocator W × Dict String)
unfolding parse_host_cidr new_ipam_conf new_ip_allocator
init kv name cidr = do
  n ← lift (parse_host_cidr cidr)
  store ← Etcd.new kv name data_dir
  alc ← lift (new_ip_allocator (new_ipam_conf name n) (Etcd.etcd_store kv store))
  cache ← Allocator.recover alc
  pure (alc, cache)

-- What the first part of RequireIP decides on the address that the name has.
pub data Known : Type 0 where
  keep : String → Known
  replace : Known
  unknown : Known

unfoldable pub known : Option Ip → String → Known
unfolding ip_string
known none req = unknown
known (some old) req =
    if ip_string old == ""
    then unknown
    else if not (req == "") && not (req == ip_string old)
    then replace
    else keep (ip_string old)

module _ {W : Type 0} (alc : IpAllocator W) (fuel : ℕ) where
  put_cache : String → String → Exec (State W) (Unit {0})
  put_cache name addr s = (ok tt, record s { cache = insert name addr s.cache })

  -- From `net.ParseIP(reqIP)` on.
  unfoldable pub assign : String → String → Exec (State W) String
  unfolding put_cache parse_ip
  assign name req = do
    (conf, _) ← outside (Allocator.get alc fuel name (parse_ip req) true)
    let addr = ip_string conf.address.ip
    put_cache name addr
    pure addr

  -- What it goes on to do; the error of Release is dropped.
  unfoldable pub settle : String → String → Known → Exec (State W) String
  unfolding assign
  settle name req (keep addr) = pure addr
  settle name req unknown = assign name req
  settle name req replace = attempt (outside (Allocator.release alc name)) (λ _. assign name req)

  unfoldable pub require_ip : String → String → Exec (State W) String
  unfolding settle known
  require_ip name req = do
    old ← outside (Allocator.get_exist alc name)
    settle name req (known old req)

module _ {W : Type 0} (alc : IpAllocator W) where
  unfoldable pub drop_cache : String → Exec (State W) (Unit {0})
  drop_cache name s = (ok tt, record s { cache = erase name s.cache })

  unfoldable pub release_ip : String → Exec (State W) (Unit {0})
  unfolding drop_cache
  release_ip name = do outside (Allocator.release alc name); drop_cache name

unfoldable pub get_keys : {W : Type 0} → State W → List String
unfolding keys
get_keys s = keys s.cache
