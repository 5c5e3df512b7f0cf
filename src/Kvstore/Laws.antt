-- ===== src/Kvstore/Laws.antt =====
-- What the code relies on of libkv's etcd store while etcd answers: it is a map from keys to values,
-- and a directory lists the pairs right below it, with their whole paths. The keys are those that the
-- client of etcd leaves as they are: no element of their path is empty, `.` or `..`.
use lbmanager.Base.{
  ◌≡◌, String, ◌<>◌, Bool, true, false, Option, none, some, List, All, Any, ◌==◌, string_eq,
  if◌then◌else◌, Error, key_not_found, Result, ok, err,
}
use lbmanager.Base.Split.{Lacks}
use lbmanager.Kvstore.{KvPair, LibKv}

abbrev pub is_some : Option String → Bool
is_some none = false
is_some (some _) = true

abbrev pub found_or : Option String → Error → Result (Unit {0})
found_or none e = err e
found_or (some _) e = ok tt

-- The store answers every call, and `view w k` is the value that the world `w` has at the key `k`.
pub record IsReliable {W : Type 0} (kv : LibKv W) : Type 0 where
  pub view : W → String → Option String
  pub exists_lem : (k : String) (w : W) → kv.exists k w ≡ (ok (is_some (view w k)), w)
  pub get_some :
      (k v : String) (w : W)
      → view w k ≡ some v
      → (p : KvPair) × (kv.get k w ≡ (ok p, w)) × (p.value ≡ v)
  pub get_none : (k : String) (w : W) → view w k ≡ none → kv.get k w ≡ (err key_not_found, w)
  pub put_ok : (k v : String) (w : W) → (kv.put k v none w).0 ≡ ok tt
  pub view-put :
      (k v j : String) (w : W)
      → view (kv.put k v none w).1 j ≡ (if k == j then some v else view w j)
  pub delete_lem : (k : String) (w : W) → (kv.delete k w).0 ≡ found_or (view w k) key_not_found
  pub view-delete :
      (k j : String) (w : W) → view (kv.delete k w).1 j ≡ (if k == j then none else view w j)

-- A pair listed for the directory `d`: its key is a whole path, which ends in a name that the
-- directory has. (47 is the code of '/'.)
abbrev pub IsListed : (String → Option String) → String → KvPair → Type 0
IsListed view d p =
    (c k : String) × (p.key ≡ c <> ("/" <> k)) × Lacks 47 k × (view (d <> k) ≡ some p.value)

-- The pair is that of the name `k`.
abbrev pub IsNamed : String → String → KvPair → Type 0
IsNamed k v p = (c : String) × (p.key ≡ c <> ("/" <> k)) × (p.value ≡ v)

-- Listing a directory that is there gives the values right below it and changes nothing.
pub record IsDirectory {W : Type 0} (kv : LibKv W) (l : IsReliable kv) (d : String) : Type 1 where
  pub IsThere : W → Type 0
  pub there-put : (k v : String) (w : W) → IsThere w → IsThere (kv.put k v none w).1
  pub there-delete : (k : String) (w : W) → IsThere w → IsThere (kv.delete k w).1
  pub listed : W → List KvPair
  pub list_lem : (w : W) → IsThere w → kv.list d w ≡ (ok (listed w), w)
  pub listed_sound : (w : W) → IsThere w → All (IsListed (l.view w) d) (listed w)
  pub listed_all :
      (k v : String) (w : W)
      → IsThere w
      → Lacks 47 k
      → l.view w (d <> k) ≡ some v
      → Any (IsNamed k v) (listed w)
