-- ===== src/Lbm/Service/Stranded.antt =====
-- A load balancer that is deleted while no leader is at work: its address, on the node that leads next.
pub mod Follower
use text.Mathlib.TextLemmas.{append_cancel_left}
use lbmanager.Base.{
  ◌≡◌, ◌≢◌, ◌⊎◌, refl, sym, ap, ◌∙◌, ℕ, ◌<◌, String, ◌<>◌, Bool, true, false, some, List, [], ◌∷◌,
  ◌++◌, length, if◌then◌else◌, Bool-cases, inl, inr, All, has_prefix,
}
use mathlib.Core.Path.{subst}
use lbmanager.Base.Dict.{keys}
use lbmanager.Kvstore.{KvPair, store_key}
use lbmanager.Ipam.State.{State, get_keys}
use lbmanager.Ipam.Allocator.Laws.{IsTable}
use lbmanager.Ipam.Allocator.Registry.{IsRegistry, IsSingle}
use lbmanager.Lbm.Lvs.{Lvs}
use lbmanager.Lbm.Handlers.{LbBase, is_listed, deref, name_at, handler_delete}
use lbmanager.Lbm.Service.{
  stick, recovered, Lvsimpl, Site, lvs_service, recover, recover_key, recover_keys,
}
use lbmanager.Lbm.Service.Delete.{IsBeside}
use lbmanager.Lbm.Service.Recover.{deref-length, deref-append, named_at, recover_keys-world}
use lbmanager.Lbm.Service.Sweep.{handler_delete-holder}
use lbmanager.Lbm.Service.Stranded.Follower.{
  handler_delete-keeps, All-insert, All-map, sweep-listed,
}

module _ {W : Type 0} (l : Lvsimpl W) (li : List KvPair) (name : String) where
  -- The entry is listed, or that of a load balancer of another name.
  abbrev Other : List Lvs → String × ℕ → Type 0
  Other os (k, p) = (is_listed k li ≡ true) ⊎ ((o : Lvs) × (deref os p ≡ some o) × (o.name ≢ name))

  more_objects : (os new : List Lvs) (x : String × ℕ) → Other os x → Other (os ++ new) x
  more_objects os new (k, p) (inl e) = inl e
  more_objects os new (k, p) (inr (o, e, ne)) = inr (o, deref-append os new p o e, ne)

  abbrev AllOther : LbBase (Site W) Lvs → Type 0
  AllOther b = All (Other b.objects) b.elem

  recover_key-Other :
      (v : String) (b : LbBase (Site W) Lvs)
      → recovered v ≢ name
      → AllOther b
      → AllOther (recover_key l v b)
  unfolding recover_key
  recover_key-Other v b ne a = elim (Bool-cases (has_prefix v stick)) [
    | inr h ↦ rw h a
    | inl h ↦ rw h (
        All-insert _ (store_key l.kv l.key (recovered v)) (length b.objects) b.elem
          (inr (_, deref-length b.objects _, ne))
          (All-map _ (Other b.objects) b.elem (more_objects b.objects _) a))
  ]

  recover_keys-Other :
      (ks : List String) (b : LbBase (Site W) Lvs)
      → All (λ v. recovered v ≢ name) ks
      → AllOther b
      → AllOther (recover_keys l ks b)
  unfolding recover_keys
  recover_keys-Other [] b ns a = a
  recover_keys-Other (v ∷ ks) b (ne, ns) a =
      recover_keys-Other ks (recover_key l v b) ns (recover_key-Other v b ne a)

-- The same object, as a leader or not.
abbrev pub as_role : {W : Type 0} → Lvsimpl W → Bool → Lvsimpl W
as_role l leads = record l { is_leader = leads }

-- The deletions on a node that does not lead.
abbrev pub before_lead :
    {W : Type 0}
    → Lvsimpl W
    → (Lvs → Lvs → Bool)
    → String
    → List KvPair
    → LbBase (Site W) Lvs
    → LbBase (Site W) Lvs
before_lead l equal own li b = (handler_delete (lvs_service (as_role l false) equal) own li b).1

-- Recover, and the deletions for the same listing, on that node once it leads.
abbrev pub once_leader :
    {W : Type 0}
    → Lvsimpl W
    → (Lvs → Lvs → Bool)
    → String
    → List KvPair
    → LbBase (Site W) Lvs
    → LbBase (Site W) Lvs
once_leader l equal own li b =
    (handler_delete (lvs_service (as_role l true) equal) own li (recover (as_role l true) b)).1

module _ {W : Type 0} (l : Lvsimpl W) (t : IsTable l.alc.store) (g : IsRegistry l.alc.store t)
    (beside : IsBeside (as_role l true) t g) (equal : Lvs → Lvs → Bool) (own : String) where
  before_lead-Other :
      (li : List KvPair) (name : String) (b : LbBase (Site W) Lvs)
      → All
          (Other l li name (before_lead l equal own li b).objects)
          (before_lead l equal own li b).elem
  unfolding handler_delete
  before_lead-Other li name b =
      All-map _ (λ (k, p). is_listed k li ≡ true) (before_lead l equal own li b).elem (λ x h. inl h)
        (sweep-listed (lvs_service (as_role l false) equal) own li b.objects b.elem)

  module _ (li : List KvPair) (b : LbBase (Site W) Lvs) (kept : g.IsKept b.world.ipam.world)
      (single : IsSingle (t.holder b.world.ipam.world)) where
    -- What the deletions before it leads leave as it was.
    Still : State W → Type 0
    Still i =
        (i.cache ≡ b.world.ipam.cache)
        × g.IsKept i.world
        × ((n : ℕ) → t.holder i.world n ≡ t.holder b.world.ipam.world n)

    before_lead-Still : Still (before_lead l equal own li b).world.ipam
    unfolding Still
    before_lead-Still =
        handler_delete-keeps (as_role l false) refl Still
          (λ f i (c, k, h).
            (c, beside.stat-IsKept f i.world k, λ n. beside.holder-stat f i.world n ∙ h n))
          (λ f i (c, k, h).
            (c, beside.remove-IsKept f i.world k, λ n. beside.holder-remove f i.world n ∙ h n))
          equal own li b (refl, kept, λ n. refl)

    keys_lem : get_keys (before_lead l equal own li b).world.ipam ≡ get_keys b.world.ipam
    unfolding get_keys Still
    keys_lem = ap keys before_lead-Still.0

    spared :
        (name : String) (os : List Lvs) (x : String × ℕ)
        → Other l li name os x
        → (is_listed x.0 li ≡ true)
          ⊎ (stick <> name_at (lvs_service (as_role l true) equal) own os x.1 ≢ stick <> name)
    unfolding lvs_service
    spared name os (k, p) (inl e) = inl e
    spared name os (k, p) (inr (o, e, ne)) = inr (λ h. ne (
        sym (named_at (lvs_service (as_role l true) equal) own os p o e)
        ∙ append_cancel_left stick _ name h))

    -- On a node over a store that keeps its table of holders, gives no name two addresses, and is left
    -- alone by the writing of load balancers and by the files: when the node has handled the deletions
    -- of a listing before it leads, and its cache has no address of the name of a load balancer, then
    -- that name still holds its addresses after Recover and the deletions for the same listing once
    -- the node leads, whether the listing has the load balancer or not.
    pub handler_delete-stranded :
        (name : String)
        → All (λ v. recovered v ≢ name) (get_keys b.world.ipam)
        → (m : ℕ) → m < 4294967296
        → t.holder b.world.ipam.world m ≡ some (stick <> name)
        → t.holder (once_leader l equal own li (before_lead l equal own li b)).world.ipam.world m
          ≡ some (stick <> name)
    unfolding Still recover
    handler_delete-stranded name absent m lm held =
        let (cache, kept1, same) = before_lead-Still in
        let b1 = before_lead l equal own li b in
        let ks = get_keys b1.world.ipam in
        let b2 = recover_keys (as_role l true) ks b1 in
        let here = recover_keys-world (as_role l true) ks b1 in
        let others =
          recover_keys-Other (as_role l true) li name ks b1
            (subst (All (λ v. recovered v ≢ name)) (sym keys_lem) absent)
            (before_lead-Other li name b) in
        let at = λ (n : ℕ). ap (λ w. t.holder w.ipam.world n) here ∙ same n in
        let (k, one, all) =
          handler_delete-holder (as_role l true) t g beside refl equal own li b2
            (subst (λ w. g.IsKept w.ipam.world) (sym here) kept1)
            (λ n j id ln lj hn hj. single n j id ln lj (sym (at n) ∙ hn) (sym (at j) ∙ hj)) in
        (all m (stick <> name) lm).1
          (at m ∙ held, All-map _ _ b2.elem (spared name b2.objects) others)
