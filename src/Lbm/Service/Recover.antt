-- ===== src/Lbm/Service/Recover.antt =====
-- What Recover adds to Elem, and the deletions after the next listing.
use mathlib.Core.Path.{subst}
use lbmanager.Base.{
  ◌≡◌, ◌≢◌, refl, sym, ap, ◌∙◌, ℕ, zero, suc, ◌<◌, String, ◌<>◌, Bool, true, false, some, List, [],
  ◌∷◌, ◌++◌, length, ◌==◌, ==_iff, ==_self, string_eq, arith, Bool-cases, inl, inr, All, Any,
  has_prefix, contains,
}
use lbmanager.Base.Dict.{Dict, lookup, lookup-insert}
use lbmanager.Kvstore.{KvPair, store_key}
use lbmanager.Kvstore.Keys.{store_key-beq}
use lbmanager.Ipam.State.{get_keys}
use lbmanager.Ipam.Allocator.Laws.{IsTable}
use lbmanager.Ipam.Allocator.Registry.{IsRegistry, IsSingle}
use lbmanager.Lbm.Lvs.{Lvs}
use lbmanager.Lbm.Handlers.{Impl, LbBase, is_listed, deref, name_at, handler_delete}
use lbmanager.Lbm.Service.{
  stick, recovered, Lvsimpl, Site, lvs_service, recover, recover_key, recover_keys,
}
use lbmanager.Lbm.Service.Delete.{IsBeside}
use lbmanager.Lbm.Service.Names.{stick_text, recovered-stick}
use lbmanager.Lbm.Service.Sweep.{handler_delete-holder}

pub deref-length : {L : Type 0} (os : List L) (o : L) → deref (os ++ o ∷ []) (length os) ≡ some o
unfolding deref
deref-length [] o = refl
deref-length (x ∷ os) o = deref-length os o

pub deref-append :
    {L : Type 0} (os new : List L) (p : ℕ) (o : L)
    → deref os p ≡ some o
    → deref (os ++ new) p ≡ some o
unfolding deref
deref-append [] new p o h = absurd cc
deref-append (x ∷ os) new zero o h = h
deref-append (x ∷ os) new (suc p) o h = deref-append os new p o h

has_prefix-stick : (name : String) → has_prefix (stick <> name) stick ≡ true
unfolding has_prefix
has_prefix-stick name = rw (stick_text name) refl

value_eq : {V : Type 0} {v w : V} → some v ≡ some w → v ≡ w
value_eq h = cc

pair_eq : {V : Type 0} {j k : String} {v w : V} → j ≡ k → v ≡ w → ◌≡◌ {A = String × V} (j, v) (k, w)
pair_eq e f = cc

pub named_at :
    {W L : Type 0} (impl : Impl W L) (own : String) (os : List L) (p : ℕ) (o : L)
    → deref os p ≡ some o
    → name_at impl own os p ≡ impl.name o
named_at impl own os p o h = rw (name_at, h) refl

-- The entry that the map has for a key.
All-lookup :
    {V : Type 0} (P : String × V → Type 0) (k : String) (d : Dict V) (v : V)
    → lookup k d ≡ some v
    → All P d
    → P (k, v)
unfolding lookup
All-lookup P k [] v h a = absurd cc
All-lookup P k ((j, w) ∷ d) v h (here, a) = elim (Bool-cases (j == k)) [
  | inl e ↦ subst P (pair_eq ((==_iff j k).0 e) (value_eq (rw e at h))) here
  | inr e ↦ All-lookup P k d v (rw e at h) a
]

module _ {W : Type 0} (l : Lvsimpl W) where
  -- The key of the load balancer of this name leads to an object of this name.
  Serves : String → LbBase (Site W) Lvs → Type 0
  Serves name b =
      (p : ℕ) × (o : Lvs) × (lookup (store_key l.kv l.key name) b.elem ≡ some p)
      × (deref b.objects p ≡ some o)
      × (o.name ≡ name)

  recover_key-new :
      (v name : String) (b : LbBase (Site W) Lvs)
      → has_prefix v stick ≡ true
      → recovered v ≡ name
      → Serves name (recover_key l v b)
  unfolding recover_key Serves
  recover_key-new v name b h e =
      rw (h, e)
        (
          length b.objects,
          _,
          lookup-insert _ _ _ _ ∙ rw (==_self (store_key l.kv l.key name)) refl,
          deref-length b.objects _,
          refl,
        )

  -- A key stays served, by a newer object where it is recovered again.
  recover_key-kept :
      (v name : String) (b : LbBase (Site W) Lvs) → Serves name b → Serves name (recover_key l v b)
  unfolding recover_key Serves
  recover_key-kept v name b (p, o, at_k, at_p, same) = elim (Bool-cases (has_prefix v stick)) [
    | inr h ↦ rw h (p, o, at_k, at_p, same)
    | inl h ↦ elim (Bool-cases (recovered v == name)) [
      | inl e ↦ recover_key-new v name b h ((==_iff (recovered v) name).0 e)
      | inr e ↦ rw h (
        p,
        o,
        lookup-insert _ _ _ _ ∙ rw (store_key-beq, e) at_k,
        deref-append b.objects _ p o at_p,
        same,
      )
    ]
  ]

  recover_keys-kept :
      (ks : List String) (name : String) (b : LbBase (Site W) Lvs)
      → Serves name b
      → Serves name (recover_keys l ks b)
  unfolding recover_keys
  recover_keys-kept [] name b h = h
  recover_keys-kept (v ∷ ks) name b h =
      recover_keys-kept ks name (recover_key l v b) (recover_key-kept v name b h)

  recover_keys-new :
      (ks : List String) (name : String) (b : LbBase (Site W) Lvs)
      → contains name stick ≡ false
      → Any (λ v. v ≡ stick <> name) ks
      → Serves name (recover_keys l ks b)
  unfolding recover_keys
  recover_keys-new [] name b c a = absurd a
  recover_keys-new (v ∷ ks) name b c (inr a) = recover_keys-new ks name (recover_key l v b) c a
  recover_keys-new (v ∷ ks) name b c (inl e) = recover_keys-kept ks name (recover_key l v b) (
      recover_key-new v name b (ap (λ x. has_prefix x stick) e ∙ has_prefix-stick name)
        (ap recovered e ∙ recovered-stick name c))

  recover_key-world : (v : String) (b : LbBase (Site W) Lvs) → (recover_key l v b).world ≡ b.world
  unfolding recover_key
  recover_key-world v b = ground arith

  pub recover_keys-world :
      (ks : List String) (b : LbBase (Site W) Lvs) → (recover_keys l ks b).world ≡ b.world
  unfolding recover_keys
  recover_keys-world [] b = refl
  recover_keys-world (v ∷ ks) b = recover_keys-world ks (recover_key l v b) ∙ recover_key-world v b

module _ {W : Type 0} (l : Lvsimpl W) (t : IsTable l.alc.store) (g : IsRegistry l.alc.store t)
    (beside : IsBeside l t g) (leader : l.is_leader ≡ true) (equal : Lvs → Lvs → Bool)
    (own : String) (b : LbBase (Site W) Lvs) (kept : g.IsKept b.world.ipam.world)
    (single : IsSingle (t.holder b.world.ipam.world)) where
  -- On the leader, over a store that keeps its table of holders, gives no name two addresses, and is
  -- left alone by the writing of load balancers and by the files: when the cache has the address of a
  -- load balancer in whose name "l4-" stands nowhere, and the listing lacks that load balancer, it
  -- holds no address any more after Recover and the deletions for the listing.
  pub recover-handler_delete :
      (li : List KvPair) (name : String)
      → contains name stick ≡ false
      → Any (λ v. v ≡ stick <> name) (get_keys b.world.ipam)
      → is_listed (store_key l.kv l.key name) li ≡ false
      → (m : ℕ) → m < 4294967296
      → t.holder (handler_delete (lvs_service l equal) own li (recover l b)).1.world.ipam.world m
        ≢ some (stick <> name)
  unfolding recover Serves lvs_service
  recover-handler_delete li name c a gone m lm h =
      let b' = recover_keys l (get_keys b.world.ipam) b in
      let same = recover_keys-world l (get_keys b.world.ipam) b in
      let (p, o, at_k, at_p, named) = recover_keys-new l (get_keys b.world.ipam) name b c a in
      let (k', single', all) =
        handler_delete-holder l t g beside leader equal own li b'
          (subst (λ s. g.IsKept s.ipam.world) (sym same) kept)
          (subst (λ s. IsSingle (t.holder s.ipam.world)) (sym same) single) in
      elim (All-lookup _ (store_key l.kv l.key name) b'.elem p at_k
        ((all m (stick <> name) lm).0 h).1) [
          | inl e ↦ ground (arith, gone)
          | inr other ↦ other (
              ap (λ x. stick <> x) (named_at (lvs_service l equal) own b'.objects p o at_p ∙ named))
        ]
