-- ===== src/Kvstore/Memory.antt =====
-- A store in memory that meets the laws: an association list of pairs, never failing.
pub mod Listing
use lbmanager.Base.{
  ◌≡◌, refl, ap, ℕ, ◌+◌, String, Bool, true, false, ◌&&◌, not, code, Option, none, some, List, [],
  ◌∷◌, ◌==◌, ==_iff, string_eq, nat_eq, if◌then◌else◌, arith, key_not_found, key_exists,
  key_modified, Result, ok, err, Exec,
}
use lbmanager.Kvstore.{KvPair, LibKv}
use lbmanager.Kvstore.Laws.{IsReliable, is_some, found_or}

-- The pairs, and the index of the next modification.
pub record Memory : Type 0 where
  pub pairs : List KvPair
  pub index : ℕ

unfoldable pub find : String → List KvPair → Option KvPair
find k [] = none
find k (p ∷ ps) = if p.key == k then some p else find k ps

unfoldable pub without : String → List KvPair → List KvPair
without k [] = []
without k (p ∷ ps) = let rest = without k ps in if p.key == k then rest else p ∷ rest

abbrev pub value_of : Option KvPair → Option String
value_of none = none
value_of (some p) = some p.value

-- What follows the directory in a key.
unfoldable pub rest_of : String → String → Option String
rest_of String.[] s = some s
rest_of (String.◌∷◌ c d) String.[] = none
rest_of (String.◌∷◌ c d) (String.◌∷◌ e s) = if code c == code e then rest_of d s else none

abbrev pub lacks_slash : String → Bool
lacks_slash String.[] = true
lacks_slash (String.◌∷◌ c s) = not (code c == 47) && lacks_slash s

-- The pair stands right below the directory, and is the one that its key has.
abbrev pub is_child : Option String → Option String → KvPair → Bool
is_child none o p = false
is_child (some k) none p = false
is_child (some k) (some v) p = lacks_slash k && v == p.value

unfoldable pub below : String → List KvPair → List KvPair → List KvPair
unfolding rest_of find
below d all [] = []
below d all (p ∷ ps) =
    let rest = below d all ps in
    if is_child (rest_of d p.key) (value_of (find p.key all)) p then p ∷ rest else rest

unfoldable pub set : String → String → Memory → Memory
unfolding without
set k v m = record {
  pairs = record { key = k; value = v; last_index = m.index } ∷ without k m.pairs;
  index = m.index + 1;
}

abbrev pub got : Option KvPair → Result KvPair
got none = err key_not_found
got (some p) = ok p

-- The compare-and-swap of libkv: with no previous pair the key has to be absent, else the pair has
-- to be the one that was read.
swap : String → String → Option KvPair → Option KvPair → Exec Memory (Bool × KvPair)
unfolding set
swap k v none none m = (ok (true, record { key = k; value = v; last_index = m.index }), set k v m)
swap k v none (some p) m = (err key_not_found, m)
swap k v (some q) none m = (err key_exists, m)
swap k v (some q) (some p) m =
    if p.last_index == q.last_index && p.value == q.value
    then (ok (true, record { key = k; value = v; last_index = m.index }), set k v m)
    else (err key_modified, m)

unfoldable pub memory_kv : LibKv Memory
unfolding find without below set swap
memory_kv = record {
  put = λ k v o m. (ok tt, set k v m);
  get = λ k m. (got (find k m.pairs), m);
  delete = λ k m.
      (found_or (value_of (find k m.pairs)) key_not_found, record m { pairs = without k m.pairs });
  exists = λ k m. (ok (is_some (value_of (find k m.pairs))), m);
  list = λ d m. (ok (below d m.pairs m.pairs), m);
  watch_tree = λ k m. (ok (some 0), m);
  atomic_put = λ k v previous o m. swap k v (find k m.pairs) previous m;
}

pub find-without :
    (k j : String) (ps : List KvPair) → find j (without k ps) ≡ (if k == j then none else find j ps)
unfolding find without
find-without k j [] = ground arith
find-without k j (p ∷ ps) =
    ground (arith, find-without k j ps, ==_iff p.key k, ==_iff p.key j, ==_iff k j)

unfoldable pub view_of : Memory → String → Option String
unfolding find
view_of m k = value_of (find k m.pairs)

pub get_view_some :
    (o : Option KvPair) (v : String)
    → value_of o ≡ some v
    → (p : KvPair) × (got o ≡ ok p) × (p.value ≡ v)
get_view_some none v h = ground arith
get_view_some (some p) v h = (p, refl, ground arith)

pub view_of-set :
    (k v j : String) (m : Memory) → view_of (set k v m) j ≡ (if k == j then some v else view_of m j)
unfolding view_of set find
view_of-set k v j m = ground (arith, find-without k j m.pairs)

pub view_of-without :
    (k j : String) (m : Memory)
    → view_of (record m { pairs = without k m.pairs }) j ≡ (if k == j then none else view_of m j)
unfolding view_of
view_of-without k j m = ground (arith, find-without k j m.pairs)

pub get_view_none : (o : Option KvPair) → value_of o ≡ none → got o ≡ err key_not_found
get_view_none none h = refl
get_view_none (some p) h = ground arith

unfoldable pub memory_kv-IsReliable : IsReliable memory_kv
unfolding memory_kv view_of
memory_kv-IsReliable = record {
  view = view_of;
  exists_lem = λ k m. refl;
  get_some =
      λ k v m h. let (p, e, v') = get_view_some (find k m.pairs) v h in (p, ap (λ r. (r, m)) e, v');
  get_none = λ k m h. ap (λ r. (r, m)) (get_view_none (find k m.pairs) h);
  put_ok = λ k v m. refl;
  view-put = view_of-set;
  delete_lem = λ k m. refl;
  view-delete = view_of-without;
}
