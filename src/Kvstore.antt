-- ===== src/Kvstore.antt =====
-- pkg/kvstore/kvstore.go over libkv's `store.Store`. libkv is another project's code: its
-- operations are the fields of `LibKv`, actions on an unknown world, and what its documentation
-- says of them is the record of laws in Kvstore/Laws.antt.
pub mod Laws
pub mod Keys
pub mod Memory
pub mod Start
pub mod Search
use lbmanager.Base.{
  ℕ, zero, suc, String, ◌<>◌, Bool, true, false, ◌||◌, Option, none, some, List, [], ◌∷◌, ◌==◌,
  string_eq, if◌then◌else◌, split, last_part, Error, key_not_found, Result, ok, err, Exec,
}
use lbmanager.Base.Monad.Exec.{pure, raise, ◌>>=◌, ◌>>◌, attempt}

-- store.KVPair; a value is a text, as the program writes no other.
pub record KvPair : Type 0 where
  pub key : String
  pub value : String
  pub last_index : ℕ

-- store.WriteOptions, of which the program sets one field.
pub record WriteOptions : Type 0 where
  pub is_dir : Bool

-- store.Store, as far as the program calls it.
pub record LibKv (W : Type 0) : Type 0 where
  pub put : String → String → Option WriteOptions → Exec W (Unit {0})
  pub get : String → Exec W KvPair
  pub delete : String → Exec W (Unit {0})
  pub exists : String → Exec W Bool
  pub list : String → Exec W (List KvPair)
  -- the channel of listings, as a number, or nil; what comes through it is not the store's answer
  pub watch_tree : String → Exec W (Option ℕ)
  pub atomic_put : String → String → Option KvPair → Option WriteOptions → Exec W (Bool × KvPair)

-- The variable `kv`.
pub record KvStore (W : Type 0) : Type 0 where
  pub store : LibKv W
  pub prefix : String

-- Init, with libkv.NewStore as an argument; an error ends the program.
unfoldable pub init :
    {W : Type 0} → (List String → Result (LibKv W)) → String → String → Result (KvStore W)
init new_store prefix clients = elim (new_store (split b',' clients)) [
  | ok s ↦ ok (record { store = s; prefix = prefix })
  | err e ↦ err e
]

module _ {W : Type 0} (kv : KvStore W) where
  unfoldable pub store_key : String → String → String
  store_key item key = kv.prefix <> item <> key

  unfoldable pub write : String → String → String → Exec W (Unit {0})
  write item key val = kv.store.put (store_key item key) val none

  unfoldable pub write_dir : String → String → Exec W (Unit {0})
  write_dir item key = kv.store.put (store_key item key) "" (some (record { is_dir = true }))

  unfoldable pub read : String → String → Exec W String
  read item key = do pair ← kv.store.get (store_key item key); pure pair.value

  unfoldable pub read_obj : String → String → Exec W KvPair
  read_obj item key = kv.store.get (store_key item key)

  unfoldable pub delete : String → String → Exec W (Unit {0})
  delete item key = kv.store.delete (store_key item key)

  unfoldable pub is_exist : String → String → Exec W Bool
  is_exist item key = kv.store.exists (store_key item key)

  unfoldable pub watch_tree : String → String → Exec W (Option ℕ)
  watch_tree item key = kv.store.watch_tree (store_key item key)

  unfoldable pub write_bytes : String → String → String → Exec W (Unit {0})
  write_bytes item key val = kv.store.put (store_key item key) val none

  unfoldable pub list : String → Exec W (List KvPair)
  list key = kv.store.list (store_key "" key)

  unfoldable pub write_atomic :
      String → String → String → Option KvPair → Option WriteOptions → Exec W (Bool × KvPair)
  write_atomic item key val previous opts =
      kv.store.atomic_put (store_key item key) val previous opts

-- The loop of `Exist`: the last part of the first key that has the value, or "".
unfoldable pub find_value : String → List KvPair → String
find_value val [] = ""
find_value val (it ∷ pairs) =
    if val == it.value then last_part b'/' it.key else find_value val pairs

unfoldable pub exist : {W : Type 0} → KvStore W → String → String → Exec W String
unfolding find_value
exist kv item val = do pairs ← kv.store.list (store_key kv item ""); pure (find_value val pairs)

-- The test `err == nil || err == store.ErrKeyNotFound`.
abbrev pub answered : {A : Type 0} → Result A → Bool
answered (ok _) = true
answered (err key_not_found) = true
answered (err _) = false

-- WaitForStart, one round to a unit of fuel; the Boolean tells whether it has returned.
unfoldable pub wait_for_start : {W : Type 0} → KvStore W → ℕ → W → Bool × W
wait_for_start kv zero w = (false, w)
wait_for_start kv (suc rounds) w =
    let (r, w') = kv.store.list kv.prefix w in
    elim (answered r) [ true ↦ (true, w') | false ↦ wait_for_start kv rounds w' ]
