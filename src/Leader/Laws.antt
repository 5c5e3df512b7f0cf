-- ===== src/Leader/Laws.antt =====
-- What the lock relies on of libkv's AtomicPut, and a store of one pair that meets it.
use lbmanager.Base.{
  ◌≡◌, refl, ap, ℕ, suc, ◌<◌, String, Bool, true, Option, none, some, [], ◌==◌, ==_iff, nat_eq,
  if◌then◌else◌, arith, Bool-cases, inl, inr, key_not_found, key_exists, key_modified, Result, ok,
  err, Exec,
}
use lbmanager.Kvstore.{KvPair, LibKv}

abbrev index_of : Option KvPair → Option ℕ
index_of none = none
index_of (some p) = some p.last_index

-- What a write over the pair `p` tells: an answer without an error found the version of `p`, and
-- gives the pair with the version that it made, which is greater.
abbrev pub Swapped :
    {W : Type 0}
    → (W → String → Option ℕ)
    → String
    → KvPair
    → W
    → Result (Bool × KvPair) × W
    → Type 0
Swapped version k p w (ok (_, q), w1) =
    (version w k ≡ some p.last_index)
    × (version w1 k ≡ some q.last_index)
    × (p.last_index < q.last_index)
Swapped version k p w (err _, w1) = Unit

-- A pair that was read has the version of its key.
abbrev pub Got : {W : Type 0} → (W → String → Option ℕ) → String → Result KvPair × W → Type 0
Got version k (ok p, w1) = version w1 k ≡ some p.last_index
Got version k (err _, w1) = Unit

-- `version w k` is the index of the last change of the pair at the key `k`.
pub record IsAtomic {W : Type 0} (kv : LibKv W) : Type 0 where
  pub version : W → String → Option ℕ
  pub get_lem : (k : String) (w : W) → Got version k (kv.get k w)
  pub swap_lem :
      (k v : String) (p : KvPair) (w : W)
      → Swapped version k p w (kv.atomic_put k v (some p) none w)

-- A store of one key's pair.
abbrev got : Option KvPair → Result KvPair
got none = err key_not_found
got (some p) = ok p

cell_swap : String → String → Option KvPair → Exec (Option KvPair) (Bool × KvPair)
cell_swap k v none none =
    let q : KvPair = record { key = k; value = v; last_index = 1 } in (ok (true, q), some q)
cell_swap k v none (some p) = (err key_exists, some p)
cell_swap k v (some p) none = (err key_not_found, none)
cell_swap k v (some p) (some c) =
    let q : KvPair = record { key = k; value = v; last_index = suc p.last_index } in
    if c.last_index == p.last_index then (ok (true, q), some q) else (err key_modified, some c)

unfoldable pub cell_kv : LibKv (Option KvPair)
unfolding cell_swap
cell_kv = record {
  put = λ k v o c. (ok tt, some (record { key = k; value = v; last_index = 1 }));
  get = λ k c. (got c, c);
  delete = λ k c. (ok tt, none);
  exists = λ k c. (ok true, c);
  list = λ d c. (ok [], c);
  watch_tree = λ k c. (ok (some 0), c);
  atomic_put = λ k v previous o c. cell_swap k v previous c;
}

cell-get : (k : String) (c : Option KvPair) → Got (λ w j. index_of w) k (cell_kv.get k c)
unfolding cell_kv
cell-get k none = tt
cell-get k (some p) = refl

cell-swap :
    (k v : String) (p : KvPair) (c : Option KvPair)
    → Swapped (λ w j. index_of w) k p c (cell_kv.atomic_put k v (some p) none c)
unfolding cell_kv
cell-swap k v p none = tt
cell-swap k v p (some c) = elim (Bool-cases (c.last_index == p.last_index)) [
  | inl e ↦ rw e (ap some ((==_iff c.last_index p.last_index).0 e), refl, omega arith)
  | inr e ↦ rw e tt
]

unfoldable pub cell_kv-IsAtomic : IsAtomic cell_kv
unfolding cell-get cell-swap
cell_kv-IsAtomic = record { version = λ w j. index_of w; get_lem = cell-get; swap_lem = cell-swap }
