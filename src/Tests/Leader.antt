-- ===== src/Tests/Leader.antt =====
-- Witnesses for the leader's lock.
use lbmanager.Base.{◌≡◌, refl, String, false, Option, some, is_ok, message, ok}
use lbmanager.Kvstore.{KvPair, write_atomic}
use lbmanager.Leader.{EtcdLock, update}
use lbmanager.Leader.Laws.{cell_kv, cell_kv-IsAtomic}
use lbmanager.Leader.Exclusion.{update-fails}

abbrev lock : EtcdLock (Option KvPair) String
lock = record {
  kv = record { store = cell_kv; prefix = "/" };
  item = "election/lb/";
  key = "leader";
  identity = "node";
  unmarshal = λ text. ok text;
  marshal = λ ler. ok ler;
  not_found = λ item key. message key;
}

abbrev pair : KvPair
pair = record { key = "/election/lb/leader"; value = "node-1"; last_index = 7 }

update-fails_example :
    is_ok
      (update lock "node-3" (record {
        pair = some pair;
        world = (update lock "node-2" (record { pair = some pair; world = some pair })).1.world;
      })).0
    ≡ false
unfolding update write_atomic cell_kv
update-fails_example =
    update-fails lock cell_kv-IsAtomic "node-2" "node-3" pair pair (some pair) refl refl
