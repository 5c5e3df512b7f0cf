-- ===== src/Ipam/Etcd.antt =====
-- pkg/ipam/backend/etcd/backend.go
pub mod Table
pub mod Names
pub mod Recover
pub mod Race
pub mod Release
use lbmanager.Base.{
  String, ◌<>◌, Bool, true, false, Option, none, some, List, [], ◌∷◌, ◌==◌, string_eq,
  if◌then◌else◌, Exec,
}
use lbmanager.Base.Monad.Exec.{pure, ◌>>=◌, ◌>>◌}
use lbmanager.Base.Dict.{Dict, insert}
use lbmanager.Net.{Ip, ip_string, parse_ip}
use lbmanager.Kvstore
use lbmanager.Kvstore.{KvStore, KvPair}
use lbmanager.Ipam.Backend.{Store}

abbrev pub last_ip_file : String
last_ip_file = "last_reserved_ip"

-- The struct `Store`, whose field is the item.
pub record EtcdStore : Type 0 where
  pub item : String

module _ {W : Type 0} (kv : KvStore W) where
  unfoldable pub new : String → String → Exec W EtcdStore
  new network data_dir = do
    found ← Kvstore.is_exist kv data_dir network
    if found then pure tt else Kvstore.write_dir kv data_dir network
    pure (record { item = data_dir <> network <> "/" })

  unfoldable pub reserve : EtcdStore → String → Ip → Exec W Bool
  reserve s id ip = do
    found ← Kvstore.is_exist kv s.item (ip_string ip)
    if found then pure false else do
      Kvstore.write kv s.item (ip_string ip) id
      Kvstore.write kv s.item last_ip_file (ip_string ip)
      pure true

  unfoldable pub last_reserved_ip : EtcdStore → Exec W (Option Ip)
  last_reserved_ip s = do ip ← Kvstore.read kv s.item last_ip_file; pure (parse_ip ip)

  unfoldable pub release : EtcdStore → Ip → Exec W (Unit {0})
  release s ip = Kvstore.delete kv s.item (ip_string ip)

  unfoldable pub exist : EtcdStore → String → Exec W (Option Ip)
  exist s id = do key ← Kvstore.exist kv s.item id; pure (if key == "" then none else parse_ip key)

abbrev pub release_found : {W : Type 0} → KvStore W → EtcdStore → Option Ip → Exec W (Unit {0})
release_found kv s none = pure tt
release_found kv s (some ip) = release kv s ip

unfoldable pub release_by_id : {W : Type 0} → KvStore W → EtcdStore → String → Exec W (Unit {0})
release_by_id kv s id = do ip ← exist kv s id; release_found kv s ip

-- The map from values to keys, without the pair whose key is `lastIPFile`.
unfoldable pub recover_pairs : Dict String → List KvPair → Dict String
recover_pairs m [] = m
recover_pairs m (it ∷ l) =
    recover_pairs (if it.key == last_ip_file then m else insert it.value it.key m) l

unfoldable pub recover : {W : Type 0} → KvStore W → EtcdStore → Exec W (Dict String)
unfolding recover_pairs
recover kv s = do l ← Kvstore.list kv s.item; pure (recover_pairs [] l)

-- The store of the interface; its lock, unlock and close do nothing.
unfoldable pub etcd_store : {W : Type 0} → KvStore W → EtcdStore → Store W
unfolding reserve last_reserved_ip release release_by_id exist recover
etcd_store kv s = record {
  lock = pure tt;
  unlock = pure tt;
  close = pure tt;
  reserve = reserve kv s;
  last_reserved_ip = last_reserved_ip kv s;
  release = release kv s;
  release_by_id = release_by_id kv s;
  exist = exist kv s;
  recover = recover kv s;
}
