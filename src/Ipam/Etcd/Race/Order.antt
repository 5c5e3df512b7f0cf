-- ===== src/Ipam/Etcd/Race/Order.antt =====
-- Two calls of Reserve for one address, in any order of their moves.
use lbmanager.Base.{
  ◌≡◌, refl, ap, ◌∙◌, ℕ, suc, ◌≤◌, String, Bool, true, false, not, ◌||◌, Option, none, some, List,
  [], ◌∷◌, ◌==◌, ==_self, string_eq, if◌then◌else◌, ok, ◌⊎◌, inl, inr,
}
use lbmanager.Net.{Ip, ip_string}
use lbmanager.Kvstore.{KvStore, store_key, is_exist, write}
use lbmanager.Kvstore.Laws.{IsReliable, is_some}
use lbmanager.Ipam.Etcd.{EtcdStore}
use lbmanager.Ipam.Etcd.Race.{Call, looking, writing, recording, finished, step}
use lbmanager.Ipam.Etcd.Race.Calls.{
  same, set, both_looking, advance, IsPast, times, set-advance, IsPast-set, times-move, opened,
  opened-same, opened-other, outcome,
}

-- The calls of the two nodes, and etcd.
pub record Race (W : Type 0) : Type 0 where
  pub calls : Bool → Call
  pub world : W

-- How often a node moves in an order.
unfoldable pub moves : Bool → List Bool → ℕ
moves x [] = 0
moves x (y ∷ order) = let rest = moves x order in if same y x then suc rest else rest

some_or :
    (b : Bool) (v : String) (o : Option String)
    → is_some o ≡ true
    → is_some (if b then some v else o) ≡ true
some_or true v o h = refl
some_or false v o h = h

module _ {W : Type 0} (kv : KvStore W) (s : EtcdStore) (a : Ip) (ids : Bool → String) where
  unfoldable pub move : Bool → Race W → Race W
  unfolding step
  move x r =
      let (c, w) = step kv s a (ids x) (r.calls x) r.world in
      record { calls = set x c r.calls; world = w }

  unfoldable pub play : List Bool → Race W → Race W
  unfolding move
  play [] r = r
  play (x ∷ order) r = play order (move x r)

  module _ (l : IsReliable kv.store) where
    abbrev key : String
    key = store_key kv s.item (ip_string a)

    abbrev IsTaken : W → Type 0
    IsTaken w = is_some (l.view w key) ≡ true

    view_put : (k v : String) (w : W) → IsTaken w → IsTaken (kv.store.put k v none w).1
    view_put k v w h = ap is_some (l.view-put k v key w) ∙ some_or (k == key) v (l.view w key) h

    step-IsTaken :
        (id : String) (c : Call) (w : W)
        → IsTaken w
        → ((step kv s a id c w).0 ≡ advance c) × IsTaken (step kv s a id c w).1
    unfolding step is_exist write
    step-IsTaken id looking w h = (rw (l.exists_lem, h) refl, rw l.exists_lem h)
    step-IsTaken id writing w h = (rw l.put_ok refl, view_put _ _ w h)
    step-IsTaken id recording w h = (rw l.put_ok refl, view_put _ _ w h)
    step-IsTaken id (finished r) w h = (refl, h)

    step-IsPast :
        (id : String) (c : Call) (w : W)
        → IsPast c
        → ((step kv s a id c w).0 ≡ advance c) × IsPast (advance c)
    unfolding step write
    step-IsPast id looking w h = absurd h
    step-IsPast id writing w h = (rw l.put_ok refl, tt)
    step-IsPast id recording w h = (rw l.put_ok refl, tt)
    step-IsPast id (finished r) w h = (refl, tt)

    -- The address is taken, or neither call has still to look for it.
    abbrev IsDecided : Race W → Type 0
    IsDecided r = IsTaken r.world ⊎ ((x : Bool) → IsPast (r.calls x))

    move-IsDecided :
        (x : Bool) (r : Race W)
        → IsDecided r
        → ((y : Bool) → (move x r).calls y ≡ times (if same x y then 1 else 0) (r.calls y))
          × IsDecided (move x r)
    unfolding move
    move-IsDecided x r (inl taken) =
        let (e, still) = step-IsTaken (ids x) (r.calls x) r.world taken in
        (λ y. set-advance x y _ r.calls e, inl still)
    move-IsDecided x r (inr past) =
        let (e, p) = step-IsPast (ids x) (r.calls x) r.world (past x) in
        (λ y. set-advance x y _ r.calls e, inr (λ y. IsPast-set x y _ r.calls (rw e p) (past y)))

    play_decided :
        (order : List Bool) (r : Race W)
        → IsDecided r
        → (y : Bool) → (play order r).calls y ≡ times (moves y order) (r.calls y)
    unfolding play moves
    play_decided [] r h y = refl
    play_decided (x ∷ order) r h y =
        let (e, h') = move-IsDecided x r h in
        play_decided order (move x r) h' y
        ∙ (ap (times (moves y order)) (e y) ∙ times-move (same x y) (moves y order) (r.calls y))

    module _ (w : W) (free : l.view w key ≡ none) where
      abbrev started : Race W
      started = record { calls = both_looking; world = w }

      abbrev has_looked : Bool → Race W
      has_looked x = record { calls = set x writing both_looking; world = w }

      first_move : (x : Bool) → move x started ≡ has_looked x
      unfolding move step is_exist
      first_move x = rw (l.exists_lem, free) refl

      look_free : (id : String) → (step kv s a id looking w).0 ≡ writing
      unfolding step is_exist
      look_free id = rw (l.exists_lem, free) refl

      write_first :
          (id : String)
          → ((step kv s a id writing w).0 ≡ recording) × IsTaken (step kv s a id writing w).1
      unfolding step write
      write_first id =
          (rw l.put_ok refl, ap is_some (l.view-put key id key w) ∙ rw (==_self key) refl)

      same_again :
          (x : Bool)
          → IsDecided (move x (has_looked x))
            × ((z : Bool) → (move x (has_looked x)).calls z ≡ opened x x z)
      unfolding move
      same_again true =
          let (e, taken) = write_first (ids true) in (inl taken, λ z. opened-same true z _ e)
      same_again false =
          let (e, taken) = write_first (ids false) in (inl taken, λ z. opened-same false z _ e)

      other_too :
          (x : Bool)
          → IsDecided (move (not x) (has_looked x))
            × ((z : Bool) → (move (not x) (has_looked x)).calls z ≡ opened x (not x) z)
      unfolding move
      other_too true =
          let e = look_free (ids false) in
          (inr (λ z. rw (opened-other true z _ e) tt), λ z. opened-other true z _ e)
      other_too false =
          let e = look_free (ids true) in
          (inr (λ z. rw (opened-other false z _ e) tt), λ z. opened-other false z _ e)

      second_move :
          (x y : Bool)
          → IsDecided (move y (has_looked x))
            × ((z : Bool) → (move y (has_looked x)).calls z ≡ opened x y z)
      second_move true true = same_again true
      second_move true false = other_too true
      second_move false true = other_too false
      second_move false false = same_again false

      -- While etcd answers, two nodes call Reserve for a free address, with their requests in any
      -- order in which each makes its three: the node that asks first is granted the address, and
      -- the other is granted it too exactly if its first request is the next one of all.
      pub play-reserve :
          (x y : Bool) (order : List Bool) (enough : (z : Bool) → 3 ≤ moves z (x ∷ y ∷ order))
          (z : Bool)
          → (play (x ∷ y ∷ order) started).calls z ≡ finished (ok (same x z || not (same x y)))
      unfolding play moves
      play-reserve x y order enough z =
          let (h, e) = second_move x y in
          ap (λ r. (play (y ∷ order) r).calls z) (first_move x)
          ∙ (play_decided order (move y (has_looked x)) h z
              ∙ (ap (times (moves z order)) (e z) ∙ outcome x y z (moves z order) (enough z)))
