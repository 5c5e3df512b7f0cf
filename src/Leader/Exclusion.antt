-- ===== src/Leader/Exclusion.antt =====
-- Two candidates at one record.
use lbmanager.Base.{
  ◌≡◌, refl, sym, ◌∙◌, ℕ, ◌<◌, String, Bool, true, false, Option, none, some, arith, is_ok, Result,
  ok, err, Bool-cases, inl, inr,
}
use lbmanager.Kvstore.{KvPair, store_key, write_atomic, read_obj}
use lbmanager.Leader.{EtcdLock, State, get, put, update, done, swapped, pair_of}
use lbmanager.Leader.Laws.{IsAtomic, Swapped, Got}

-- The lock holds the version that etcd has now, and it is later than `n`.
abbrev pub IsAhead : (Option ℕ) → ℕ → Option KvPair → Type 0
IsAhead v n pair = (q : KvPair) × (pair ≡ some q) × (v ≡ some q.last_index) × (n < q.last_index)

swapped-IsAhead :
    {W : Type 0} (version : W → String → Option ℕ) (k : String) (p : KvPair) (w : W)
    (x : Result (Bool × KvPair) × W)
    → Swapped version k p w x
    → is_ok (done x.0) ≡ true
    → (version w k ≡ some p.last_index) × IsAhead (version x.1 k) p.last_index (swapped x.0)
swapped-IsAhead version k p w (ok (_, q), w1) (before, after, later) h =
    (before, (q, refl, after, later))
swapped-IsAhead version k p w (err _, w1) s h = absurd cc

clash : (a b c : ℕ) → a ≡ c → some a ≡ some b → c < b → ⊥
clash a b c h e l = ground arith

-- The lock holds the version that etcd has, or nothing.
abbrev pub IsCurrent : Option ℕ → Option KvPair → Type 0
IsCurrent v none = Unit
IsCurrent v (some p) = v ≡ some p.last_index

got-IsCurrent :
    {W : Type 0} (version : W → String → Option ℕ) (k : String) (x : Result KvPair × W)
    → Got version k x
    → IsCurrent (version x.1 k) (pair_of x.0)
got-IsCurrent version k (ok p, w) h = h
got-IsCurrent version k (err _, w) h = tt

module _ {W R : Type 0} (l : EtcdLock W R) (law : IsAtomic l.kv.store) where
  abbrev pub version_of : W → Option ℕ
  version_of w = law.version w (store_key l.kv l.item l.key)

  abbrev pub holding : KvPair → W → State W
  holding p w = record { pair = some p; world = w }

  -- After Get the lock holds the version that etcd has, or nothing.
  pub get-IsCurrent : (s : State W) → IsCurrent (version_of (get l s).1.world) (get l s).1.pair
  unfolding get read_obj
  get-IsCurrent s =
      got-IsCurrent law.version _ _ (law.get_lem (store_key l.kv l.item l.key) s.world)

  -- What an action that succeeds on a lock with the pair `p` has done.
  abbrev Advances : KvPair → W → Result (Unit {0}) × State W → Type 0
  Advances p w (r, s) =
      is_ok r ≡ true
      → (version_of w ≡ some p.last_index) × IsAhead (version_of s.world) p.last_index s.pair

  put-Advances :
      (m : Result String) (p : KvPair) (w : W) → Advances p w (put l m (some p) (holding p w))
  unfolding write_atomic
  put-Advances (ok text) p w h = swapped-IsAhead law.version _ p w _ (law.swap_lem _ text p w) h
  put-Advances (err e) p w h = absurd cc

  update-Advances : (ler : R) (p : KvPair) (w : W) → Advances p w (update l ler (holding p w))
  unfolding update
  update-Advances ler p w = put-Advances (l.marshal ler) p w

  -- An update that succeeds replaced the very version that the lock had read, and leaves the lock
  -- with the version that it made, which is later.
  update-IsAhead :
      (ler : R) (p : KvPair) (w : W)
      → is_ok (update l ler (holding p w)).0 ≡ true
      → (version_of w ≡ some p.last_index)
        × IsAhead
            (version_of (update l ler (holding p w)).1.world)
            p.last_index
            (update l ler (holding p w)).1.pair
  update-IsAhead ler p w first = update-Advances ler p w first

  -- Of two candidates who read the same version of the record, when one has updated it the other's
  -- update fails.
  pub update-fails :
      (ler other : R) (p q : KvPair) (w : W)
      → q.last_index ≡ p.last_index
      → is_ok (update l ler (holding p w)).0 ≡ true
      → is_ok (update l other (holding q (update l ler (holding p w)).1.world)).0 ≡ false
  update-fails ler other p q w same first =
      elim (Bool-cases
        (is_ok (update l other (holding q (update l ler (holding p w)).1.world)).0)) [
          | inr e ↦ e
          | inl e ↦
              let (_, (r, _, now, later)) = update-Advances ler p w first in
              let (found, _) = update-Advances other q (update l ler (holding p w)).1.world e in
              absurd (clash q.last_index r.last_index p.last_index same (sym found ∙ now) later)
        ]
