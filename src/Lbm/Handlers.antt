-- ===== src/Lbm/Handlers.antt =====
-- pkg/lbm/lbm.go: how a change of the listing in etcd is handled, over the two kinds of load
-- balancer. The map Elem holds pointers, and a service is configured through the same pointer:
-- the objects stand in a list that only grows, and a pointer is a place in it.
pub mod Keys
pub mod Quiet
use lbmanager.Base.{
  ℕ, zero, suc, String, Bool, true, false, not, ◌||◌, Option, none, some, List, [], ◌∷◌, ◌++◌, ◌==◌,
  string_eq, if◌then◌else◌, length, any, last_part, Result, ok, err,
}
use lbmanager.Base.Dict.{Dict, lookup, insert, erase}
use lbmanager.Kvstore.{KvPair}

-- LBBase: the fields that change.
pub record LbBase (W L : Type 0) : Type 0 where
  pub objects : List L
  pub elem : Dict ℕ
  pub world : W

-- The interfaces ILB and ILBCommon, and reflect.DeepEqual, at a type of load balancers. A
-- service may write to the load balancer that it configures, which comes back.
pub record Impl (W L : Type 0) : Type 0 where
  pub parse : String → String → Result L
  pub config_service : L → W → Bool × L × W
  pub delete_service : String → W → Bool × W
  pub reload : W → W
  pub recover : LbBase W L → LbBase W L
  pub name : L → String
  pub cluster_name : L → String
  pub equal : L → L → Bool

module _ {L : Type 0} where
  unfoldable pub deref : List L → ℕ → Option L
  deref [] p = none
  deref (o ∷ os) zero = some o
  deref (o ∷ os) (suc p) = deref os p

  unfoldable pub assign : List L → ℕ → L → List L
  assign [] p lb = []
  assign (o ∷ os) zero lb = lb ∷ os
  assign (o ∷ os) (suc p) lb = o ∷ assign os p lb

unfoldable pub is_listed : String → List KvPair → Bool
is_listed k li = any (λ it. k == it.key) li

module _ {W L : Type 0} (impl : Impl W L) (own_cluster : String) where
  unfoldable pub is_same_cluster : L → Bool
  is_same_cluster lb = impl.cluster_name lb == own_cluster

  -- The load balancer of a pair, unless the loop goes on to the next pair.
  unfoldable pub accepted : KvPair → Option L
  unfolding is_same_cluster
  accepted it = elim (impl.parse it.key it.value) [
    | err _ ↦ none
    | ok lb ↦
        if not (is_same_cluster lb)
        then none
        else if not (last_part b'/' it.key == impl.name lb)
        then none
        else some lb
  ]

  -- The test `ok && reflect.DeepEqual(lb, obj)`.
  unfoldable pub is_current : LbBase W L → String → L → Bool
  is_current b key lb = elim (lookup key b.elem) [
    | none ↦ false
    | some p ↦ elim (deref b.objects p) [ none ↦ false | some obj ↦ impl.equal lb obj ]
  ]

  -- One round of the first loop: the pointers that it appends to `lbs`.
  unfoldable pub enter : KvPair → LbBase W L → List ℕ × LbBase W L
  enter it b = elim (accepted it) [
    | none ↦ ([], b)
    | some lb ↦ if is_current b it.key lb then ([], b) else (
      length b.objects ∷ [],
      record b { objects = b.objects ++ lb ∷ []; elem = insert it.key (length b.objects) b.elem },
    )
  ]

  unfoldable pub collect : List KvPair → LbBase W L → List ℕ × LbBase W L
  unfolding enter
  collect [] b = ([], b)
  collect (it ∷ li) b =
      let (new, b1) = enter it b in let (lbs, b2) = collect li b1 in (new ++ lbs, b2)

  unfoldable pub configure_one : ℕ → LbBase W L → Bool × LbBase W L
  configure_one p b = elim (deref b.objects p) [
    | none ↦ (false, b)
    | some lb ↦
        let (changed, lb', w) = impl.config_service lb b.world in
        (changed, record b { objects = assign b.objects p lb'; world = w })
  ]

  unfoldable pub configure : List ℕ → LbBase W L → Bool × LbBase W L
  unfolding configure_one
  configure [] b = (false, b)
  configure (p ∷ lbs) b =
      let (changed, b1) = configure_one p b in
      let (others, b2) = configure lbs b1 in (changed || others, b2)

  unfoldable pub handler_add_or_update : List KvPair → LbBase W L → Bool × LbBase W L
  unfolding collect configure
  handler_add_or_update li b = let (lbs, b1) = collect li b in configure lbs b1

  abbrev pub name_at : List L → ℕ → String
  name_at os p = elim (deref os p) [ none ↦ "" | some lb ↦ impl.name lb ]

  -- The loop over the entries of Elem: the names that it collects, and what it leaves of Elem.
  unfoldable pub sweep : List KvPair → List L → Dict ℕ → Dict ℕ → List String × Dict ℕ
  sweep li os [] elem = ([], elem)
  sweep li os ((k, p) ∷ entries) elem =
      let (names, left) = sweep li os entries (if is_listed k li then elem else erase k elem) in
      (if is_listed k li then names else name_at os p ∷ names, left)

  unfoldable pub delete_all : List String → W → Bool × W
  delete_all [] w = (false, w)
  delete_all (name ∷ names) w =
      let (deleted, w1) = impl.delete_service name w in
      let (others, w2) = delete_all names w1 in (deleted || others, w2)

  unfoldable pub handler_delete : List KvPair → LbBase W L → Bool × LbBase W L
  unfolding sweep delete_all
  handler_delete li b =
      let (names, left) = sweep li b.objects b.elem b.elem in
      let (deleted, w) = delete_all names b.world in (deleted, record b { elem = left; world = w })

  unfoldable pub handler_event : List KvPair → LbBase W L → LbBase W L
  unfolding handler_add_or_update handler_delete
  handler_event li b =
      let (changed, b1) = handler_add_or_update li b in
      let (deleted, b2) = handler_delete li b1 in
      if changed || deleted then record b2 { world = impl.reload b2.world } else b2
