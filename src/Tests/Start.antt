-- ===== src/Tests/Start.antt =====
-- An etcd that answers from the third call of List on.
use lbmanager.Base.{ℕ, ◌+◌, false, [], ltb, if◌then◌else◌, message, key_not_found, ok, err}
use lbmanager.Kvstore.{KvStore}

abbrev pub slow : KvStore ℕ
slow = record {
  store = record {
    put = λ k v o w. (ok tt, w);
    get = λ k w. (err key_not_found, w);
    delete = λ k w. (ok tt, w);
    exists = λ k w. (ok false, w);
    list = λ d w. (if ltb w 2 then err (message "no endpoint") else ok [], w + 1);
    watch_tree = λ k w. (err key_not_found, w);
    atomic_put = λ k v p o w. (err key_not_found, w);
  };
  prefix = "/lb/";
}
