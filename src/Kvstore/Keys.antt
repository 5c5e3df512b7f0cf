-- ===== src/Kvstore/Keys.antt =====
-- The keys under which pkg/kvstore stores.
use text.Mathlib.TextLemmas.{append_cancel_left}
use lbmanager.Base.{◌≡◌, ap, String, ◌<>◌, ◌==◌, ==_iff, string_eq, arith}
use lbmanager.Kvstore.{KvStore, store_key}

-- Two keys of one item are the same text exactly if they are the same key.
pub store_key_inj :
    {W : Type 0} (kv : KvStore W) (item j k : String)
    → store_key kv item j ≡ store_key kv item k
    → j ≡ k
unfolding store_key
store_key_inj kv item j k h =
    append_cancel_left item j k (append_cancel_left kv.prefix (item <> j) (item <> k) h)

pub store_key-beq :
    {W : Type 0} (kv : KvStore W) (item j k : String)
    → (store_key kv item j == store_key kv item k) ≡ (j == k)
store_key-beq kv item j k = ground (
  arith,
  ==_iff j k,
  ==_iff (store_key kv item j) (store_key kv item k),
  store_key_inj kv item j k,
  λ (e : j ≡ k). ap (store_key kv item) e,
)
