-- ===== src/Lbm/Service/Sweep.antt =====
-- The deletions after a listing, and the addresses of package ipam.
use lbmanager.Base.{
  ◌≡◌, ◌≢◌, ◌↔◌, ◌⊎◌, refl, sym, ap, ◌∙◌, ℕ, ◌<◌, String, ◌<>◌, Bool, true, false, Option, none,
  some, List, [], ◌∷◌, ==_iff, string_eq, if◌then◌else◌, arith, inl, inr, All,
}
use lbmanager.Base.Dict.{Dict, erase}
use lbmanager.Kvstore.{KvPair}
use lbmanager.Ipam.Allocator.Laws.{IsTable}
use lbmanager.Ipam.Allocator.Registry.{IsRegistry, IsSingle}
use lbmanager.Ipam.State.Release.{without}
use lbmanager.Lbm.Lvs.{Lvs}
use lbmanager.Lbm.Handlers.{Impl, LbBase, is_listed, name_at, sweep, delete_all, handler_delete}
use lbmanager.Lbm.Service.{stick, Lvsimpl, Site, lvs_service, delete_service}
use lbmanager.Lbm.Service.Delete.{IsBeside, delete_service_lem}

-- The holder of an address once the load balancers of these names hold none.
without_all : List String → Option String → Option String
without_all [] o = o
without_all (x ∷ xs) o = without_all xs (without (stick <> x) o)

without_iff :
    (name y : String) (o : Option String) → (without name o ≡ some y) ↔ ((o ≡ some y) × (name ≢ y))
without_iff name y none = ground arith
without_iff name y (some x) = ground (arith, ==_iff x name)

without_all_iff :
    (names : List String) (y : String) (o : Option String)
    → (without_all names o ≡ some y) ↔ ((o ≡ some y) × All (λ x. stick <> x ≢ y) names)
unfolding without_all
without_all_iff [] y o = (λ h. (h, tt), λ (h, u). h)
without_all_iff (x ∷ xs) y o =
    let (there, back) = without_all_iff xs y (without (stick <> x) o) in
    let (one, own) = without_iff (stick <> x) y o in
    (
      λ h. let (h1, others) = there h in let (h2, other) = one h1 in (h2, (other, others)),
      λ (h, (other, others)). back (own (h, other), others),
    )

module _ {W L : Type 0} (impl : Impl W L) (own : String) (P : String → Type 0) where
  -- What holds of all the names that the loop collects holds of those of the entries that are not
  -- listed.
  abbrev pub Stays : List KvPair → List L → String × ℕ → Type 0
  Stays li os (k, p) = (is_listed k li ≡ true) ⊎ P (name_at impl own os p)

  named :
      (b : Bool) (x : String) (names : List String) (R : Type 0)
      → All P names ↔ R
      → All P (if b then names else x ∷ names) ↔ (((b ≡ true) ⊎ P x) × R)
  named true x names R (there, back) = (λ h. (inl refl, there h), λ (s, h). back h)
  named false x names R (there, back) =
      (λ (h, hs). (inr h, there hs), λ (s, hs). (elim s [ inl y ↦ absurd cc | inr h ↦ h ], back hs))

  pub sweep-All :
      (li : List KvPair) (os : List L) (entries elem : Dict ℕ)
      → All P (sweep impl own li os entries elem).0 ↔ All (Stays li os) entries
  unfolding sweep
  sweep-All li os [] elem = (λ h. tt, λ h. tt)
  sweep-All li os ((k, p) ∷ entries) elem =
      named (is_listed k li) (name_at impl own os p) _ _
        (sweep-All li os entries (if is_listed k li then elem else erase k elem))

module _ {W : Type 0} (l : Lvsimpl W) (t : IsTable l.alc.store) (g : IsRegistry l.alc.store t)
    (beside : IsBeside l t g) (leader : l.is_leader ≡ true) (equal : Lvs → Lvs → Bool)
    (own : String) where
  -- The store keeps its table, and no name holds two addresses.
  abbrev Sound : Site W → Type 0
  Sound s = g.IsKept s.ipam.world × IsSingle (t.holder s.ipam.world)

  service : Impl (Site W) Lvs
  service = lvs_service l equal

  delete_all_lem :
      (names : List String) (s : Site W)
      → Sound s
      → Sound (delete_all service own names s).1
        × ((m : ℕ)
            → m < 4294967296
            → t.holder (delete_all service own names s).1.ipam.world m
              ≡ without_all names (t.holder s.ipam.world m))
  unfolding delete_all service lvs_service without_all
  delete_all_lem [] s sound = (sound, λ m lm. refl)
  delete_all_lem (x ∷ xs) s (kept, single) =
      let (k, one, all) = delete_service_lem l t g beside leader x s kept single in
      let (sound, rest) = delete_all_lem xs (delete_service l x s).1 (k, one) in
      (sound, λ m lm. rest m lm ∙ ap (without_all xs) (all m lm))

  -- On the leader, over a store that keeps its table of holders, gives no name two addresses, and is
  -- left alone by the writing of load balancers and by the files: the deletions after a listing leave
  -- the store so, and a name holds an address afterwards exactly if it did before and is not that of
  -- a load balancer that is served without being listed.
  pub handler_delete-holder :
      (li : List KvPair) (b : LbBase (Site W) Lvs)
      → g.IsKept b.world.ipam.world
      → IsSingle (t.holder b.world.ipam.world)
      → g.IsKept (handler_delete (lvs_service l equal) own li b).1.world.ipam.world
        × IsSingle (t.holder (handler_delete (lvs_service l equal) own li b).1.world.ipam.world)
        × ((m : ℕ) (y : String)
            → m < 4294967296
            → (t.holder (handler_delete (lvs_service l equal) own li b).1.world.ipam.world m
                ≡ some y)
              ↔ ((t.holder b.world.ipam.world m ≡ some y)
                  × All
                      (λ (k, p).
                        (is_listed k li ≡ true)
                        ⊎ (stick <> name_at (lvs_service l equal) own b.objects p ≢ y))
                      b.elem))
  unfolding handler_delete service
  handler_delete-holder li b kept single =
      let names = (sweep (lvs_service l equal) own li b.objects b.elem b.elem).0 in
      let (sound, all) = delete_all_lem names b.world (kept, single) in
      (
        sound.0,
        sound.1,
        λ m y lm.
            let (there, back) = without_all_iff names y (t.holder b.world.ipam.world m) in
            let (f, h) =
              sweep-All (lvs_service l equal) own (λ x. stick <> x ≢ y) li b.objects b.elem
                b.elem in
            (
              λ e. let (e1, a) = there (sym (all m lm) ∙ e) in (e1, f a),
              λ (e1, a). all m lm ∙ back (e1, h a),
            ),
      )
