-- ===== src/Leader.antt =====
-- pkg/leader/etcdlock.go: the record of the leader in etcd, which client-go's election reads and
-- writes through this lock. encoding/json and apimachinery's NewNotFound are arguments.
pub mod Laws
pub mod Exclusion
pub mod Run
use lbmanager.Base.{
  String, ◌<>◌, Bool, Option, none, some, Error, key_not_found, message, Result, ok, err, Exec,
}
use lbmanager.Kvstore.{KvPair, KvStore, read_obj, write_atomic}

-- ETCDLock, and what it works with. `R` is resourcelock.LeaderElectionRecord.
pub record EtcdLock (W R : Type 0) : Type 0 where
  pub kv : KvStore W
  pub item : String
  pub key : String
  -- the field of LockConfig that is read; the recorder is not
  pub identity : String
  pub unmarshal : String → Result R
  pub marshal : R → Result String
  pub not_found : String → String → Error

-- The field `pair` of a lock, and the world.
pub record State (W : Type 0) : Type 0 where
  pub pair : Option KvPair
  pub world : W

-- libkv gives no pair beside an error.
abbrev pub pair_of : Result KvPair → Option KvPair
pair_of (ok p) = some p
pair_of (err _) = none

abbrev pub swapped : Result (Bool × KvPair) → Option KvPair
swapped (ok (_, p)) = some p
swapped (err _) = none

abbrev pub done : Result (Bool × KvPair) → Result (Unit {0})
done (ok _) = ok tt
done (err e) = err e

-- New, over what a given lock works with; the catalog is that of the configuration.
unfoldable pub new : {W R : Type 0} → EtcdLock W R → String → String → String → EtcdLock W R
new l catalog name id = record l {
  item = "election" <> "/" <> catalog <> "/";
  key = name;
  identity = id;
}

-- Identity
unfoldable pub identity : {W R : Type 0} → EtcdLock W R → String
identity l = l.identity

-- RecordEvent, which does nothing.
unfoldable pub record_event : {W R : Type 0} → EtcdLock W R → String → State W → State W
record_event l event s = s

unfoldable pub describe : {W R : Type 0} → EtcdLock W R → String
describe l = l.item <> l.key

module _ {W R : Type 0} (l : EtcdLock W R) where
  -- The error for a pair that could not be read.
  abbrev refused : Error → Error
  refused key_not_found = l.not_found l.item l.key
  refused e = e

  abbrev record_of : Result KvPair → Result R
  record_of (ok p) = l.unmarshal p.value
  record_of (err e) = err (refused e)

  unfoldable pub get : Exec (State W) R
  get s =
      let (r, w) = read_obj l.kv l.item l.key s.world in
      (record_of r, record { pair = pair_of r; world = w })

  -- The write that Create and Update share, over the pair that is expected in etcd, unless the
  -- record has no text.
  abbrev pub put : Result String → Option KvPair → Exec (State W) (Unit {0})
  put (err e) previous s = (err e, s)
  put (ok text) previous s =
      let (r, w) = write_atomic l.kv l.item l.key text previous none s.world in
      (done r, record { pair = swapped r; world = w })

  unfoldable pub create : R → Exec (State W) (Unit {0})
  create ler s = put (l.marshal ler) none s

  unfoldable pub update : R → Exec (State W) (Unit {0})
  update ler s = elim s.pair [
    | none ↦ (err (message "hb not initialized, call get or create first"), s)
    | some p ↦ put (l.marshal ler) (some p) s
  ]
