-- ===== src/Kvstore/Memory/Listing.antt =====
-- The store in memory lists its directories.
use text.Mathlib.TextLemmas.{cons-append, nil-append, append_assoc}
use text.Mathlib.TextEquality.{Char-path}
use lbmanager.Base.{
  ◌≡◌, refl, ap, sym, ◌∙◌, String, ◌<>◌, code, Bool, true, false, Option, none, some, List, [], ◌∷◌,
  All, Any, ◌==◌, ==_iff, ==_self, string_eq, nat_eq, if◌then◌else◌, arith, Bool-cases, inl, inr,
}
use lbmanager.Base.Split.{Lacks}
use lbmanager.Kvstore.{KvPair}
use lbmanager.Kvstore.Laws.{IsListed, IsNamed, IsDirectory}
use lbmanager.Kvstore.Memory.{
  Memory, memory_kv, memory_kv-IsReliable, below, find, value_of, view_of, rest_of, lacks_slash,
  is_child,
}

some_eq : {x y : String} → some x ≡ some y → x ≡ y
some_eq h = cc

absent : {x : String} → ◌≡◌ {A = Option String} none (some x) → ⊥
absent h = absurd cc

rest_of-append : (d k : String) → rest_of d (d <> k) ≡ some k
unfolding rest_of
rest_of-append String.[] k = rw nil-append refl
rest_of-append (String.◌∷◌ c d) k = rw (cons-append, ==_self (code c)) (rest_of-append d k)

rest_of-some : (d s k : String) → rest_of d s ≡ some k → s ≡ d <> k
unfolding rest_of
rest_of-some String.[] s k h = rw nil-append (some_eq h)
rest_of-some (String.◌∷◌ c d) String.[] k h = absurd cc
rest_of-some (String.◌∷◌ c d) (String.◌∷◌ e s) k h = elim (Bool-cases (code c == code e)) [
  | inl same ↦ rw cons-append (
      ap (λ x. String.◌∷◌ x s) (sym (Char-path c e (ground arith)))
      ∙ ap (λ t. String.◌∷◌ c t) (rest_of-some d s k (rw (rest_of, same) at h)))
  | inr other ↦ absurd (absent (rw (rest_of, other) at h))
]

lacks_slash-Lacks : (k : String) → lacks_slash k ≡ true → Lacks 47 k
lacks_slash-Lacks String.[] h = tt
lacks_slash-Lacks (String.◌∷◌ c k) h = (ground arith, lacks_slash-Lacks k (ground arith))

Lacks-lacks_slash : (k : String) → Lacks 47 k → lacks_slash k ≡ true
Lacks-lacks_slash String.[] h = refl
Lacks-lacks_slash (String.◌∷◌ c k) (h, r) = ground (arith, Lacks-lacks_slash k r)

is_child-true :
    (o v : Option String) (p : KvPair)
    → is_child o v p ≡ true
    → (k : String) × (o ≡ some k) × Lacks 47 k × (v ≡ some p.value)
is_child-true none v p h = absurd cc
is_child-true (some k) none p h = absurd cc
is_child-true (some k) (some x) p h =
    (k, refl, lacks_slash-Lacks k (ground arith), ground (arith, ==_iff x p.value))

later :
    (P : KvPair → Type 0) (b : Bool) (p : KvPair) (ps : List KvPair)
    → Any P ps
    → Any P (if b then p ∷ ps else ps)
later P true p ps a = inr a
later P false p ps a = a

module _ (c : String) (m : Memory) where
  pub sound :
      (ps : List KvPair) → All (IsListed (view_of m) (c <> "/")) (below (c <> "/") m.pairs ps)
  unfolding below view_of
  sound [] = tt
  sound (p ∷ ps) =
      elim (Bool-cases (is_child (rest_of (c <> "/") p.key) (value_of (find p.key m.pairs)) p)) [
        | inl e ↦
            let (k, rest, lacks, here) =
              is_child-true (rest_of (c <> "/") p.key) (value_of (find p.key m.pairs)) p e in
            let key : p.key ≡ (c <> "/") <> k = rest_of-some (c <> "/") p.key k rest in
            rw e ((c, k, rw key (append_assoc c "/" k), lacks, rw (sym key) here), sound ps)
        | inr e ↦ rw e (sound ps)
      ]

  pub complete :
      (k v : String) (ps : List KvPair)
      → Lacks 47 k
      → view_of m ((c <> "/") <> k) ≡ some v
      → value_of (find ((c <> "/") <> k) ps) ≡ some v
      → Any (IsNamed k v) (below (c <> "/") m.pairs ps)
  unfolding below view_of find
  complete k v [] lacks h i = absurd cc
  complete k v (p ∷ ps) lacks h i = elim (Bool-cases (p.key == ((c <> "/") <> k))) [
    | inl e ↦
        let key : p.key ≡ (c <> "/") <> k = (==_iff p.key ((c <> "/") <> k)).0 e in
        let val : p.value ≡ v = some_eq (rw e at i) in
        let listed : is_child (rest_of (c <> "/") p.key) (value_of (find p.key m.pairs)) p ≡ true =
          rw (key, rest_of-append, h)
            (ground (arith, Lacks-lacks_slash k lacks, ==_iff v p.value, val)) in
        rw listed (inl (c, rw key (append_assoc c "/" k), val))
    | inr e ↦
        later (IsNamed k v) (is_child (rest_of (c <> "/") p.key) (value_of (find p.key m.pairs)) p)
          p (below (c <> "/") m.pairs ps) (complete k v ps lacks h (rw e at i))
  ]

unfoldable pub memory_kv-IsDirectory :
    (c : String) → IsDirectory memory_kv memory_kv-IsReliable (c <> "/")
unfolding memory_kv memory_kv-IsReliable below
memory_kv-IsDirectory c = record {
  IsThere = λ m. Unit;
  there-put = λ k v m h. tt;
  there-delete = λ k m h. tt;
  listed = λ m. below (c <> "/") m.pairs m.pairs;
  list_lem = λ m h. refl;
  listed_sound = λ m h. sound c m m.pairs;
  listed_all = λ k v m h lacks e. complete c m k v m.pairs lacks e e;
}
