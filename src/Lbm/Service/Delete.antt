-- ===== src/Lbm/Service/Delete.antt =====
-- DeleteService after allocVIP, and the addresses of package ipam.
use mathlib.Core.Path.{subst}
use lbmanager.Base.{
  ◌≡◌, ◌≢◌, ◌⊎◌, refl, ap, sym, ◌∙◌, ℕ, ◌-◌, ◌<◌, String, ◌<>◌, Bool, true, false, Option, none,
  some, ◌==◌, ==_self, nat_eq, string_eq, if◌then◌else◌, arith, Bool-cases, inl, inr, Result, ok,
  err, is_ok,
}
use lbmanager.Base.Monad.Inversion.{is_ok-ok}
use lbmanager.Base.Monad.Exec.{continue, pure}
use lbmanager.Utils.{Host, is_file_exist}
use lbmanager.Ipam.Allocator.Laws.{IsTable}
use lbmanager.Ipam.Allocator.Search.{IsRange}
use lbmanager.Ipam.Allocator.Registry.{IsRegistry, IsSingle}
use lbmanager.Ipam.State.{release_ip}
use lbmanager.Ipam.State.Again.{require_ip-IsSingle}
use lbmanager.Ipam.State.Release.{
  release_ip-holder, without, without-other, IsSingle-without, num_eq,
}
use lbmanager.Lbm.Lvs.{Lvs}
use lbmanager.Lbm.Service.{
  stick, Lvsimpl, Site, alloc_vip, update, delete_service, get_config_file_path, outside,
}
use lbmanager.Lbm.Service.Names.{parse_ip-stick}
use lbmanager.Lbm.Service.Vip.{placed, behind, required, granted_run, alloc_vip-err}

-- What else the service does leaves the table of holders alone: writing a load balancer, and looking
-- for a file, writing and removing it.
pub record IsBeside {W : Type 0} (l : Lvsimpl W) (t : IsTable l.alc.store)
    (g : IsRegistry l.alc.store t) : Type 0 where
  pub update-IsKept :
      (lb : Lvs) (s : Site W) → g.IsKept s.ipam.world → g.IsKept (update l lb s).1.ipam.world
  pub holder-update :
      (lb : Lvs) (s : Site W) (n : ℕ)
      → t.holder (update l lb s).1.ipam.world n ≡ t.holder s.ipam.world n
  pub stat-IsKept : (f : String) (w : W) → g.IsKept w → g.IsKept (l.host.stat f w).1
  pub remove-IsKept : (f : String) (w : W) → g.IsKept w → g.IsKept (l.host.remove f w).1
  pub write-IsKept : (f c : String) (w : W) → g.IsKept w → g.IsKept (l.host.write_file f c w).1
  pub holder-write :
      (f c : String) (w : W) (n : ℕ) → t.holder (l.host.write_file f c w).1 n ≡ t.holder w n
  pub holder-stat : (f : String) (w : W) (n : ℕ) → t.holder (l.host.stat f w).1 n ≡ t.holder w n
  pub holder-remove : (f : String) (w : W) (n : ℕ) → t.holder (l.host.remove f w).1 n ≡ t.holder w n

IsSingle-along :
    (before after : ℕ → Option String)
    → IsSingle before
    → ((n : ℕ) → after n ≡ before n)
    → IsSingle after
IsSingle-along before after single e n m id ln lm hn hm =
    single n m id ln lm (sym (e n) ∙ hn) (sym (e m) ∙ hm)

-- A name that is given an address and gives it back.
without-given :
    (name : String) (n m : ℕ) (before : ℕ → Option String)
    → before n ≡ none
    → before m ≢ some name
    → without name (if n == m then some name else before m) ≡ before m
without-given name n m before free other = elim (Bool-cases (n == m)) [
  | inl e ↦
      let at_m : before m ≡ none = ap before (sym (num_eq n m e)) ∙ free in
      rw (e, at_m) (ground (arith, ==_self name))
  | inr e ↦ rw e (sym (without-other name (before m) other))
]

free :
    {P : Type 0} {o : Option String} {name : String}
    → (o ≡ some name) ⊎ ((o ≡ none) × P)
    → o ≢ some name
    → o ≡ none
free (inl h) other = absurd (other h)
free (inr (h, p)) other = h

distinct : ◌≡◌ {A = Bool} true false → ⊥
distinct h = absurd cc

-- What is left of DeleteService once it has asked for the file and for its removal.
unfoldable pub after_delete :
    {W : Type 0} → Result Bool → Result (Unit {0}) → Site W → Site W → Bool × Site W
after_delete found removed s1 s2 = elim found [
  | err _ ↦ (false, s1)
  | ok _ ↦ elim removed [ ok _ ↦ (true, s2) | err _ ↦ (false, s2) ]
]

pub after_delete-either :
    {W : Type 0} (P : Site W → Type 0) (found : Result Bool) (removed : Result (Unit {0}))
    (s1 s2 : Site W)
    → P s1
    → P s2
    → P (after_delete found removed s1 s2).1
unfolding after_delete
after_delete-either P (err e) removed s1 s2 h1 h2 = h1
after_delete-either P (ok b) (ok x) s1 s2 h1 h2 = h2
after_delete-either P (ok b) (err e) s1 s2 h1 h2 = h2

rest : {W : Type 0} (r : Result (Unit {0})) (w : W) → (continue r (λ x. pure {W = W} true) w).1 ≡ w
rest (ok x) w = refl
rest (err e) w = refl

pub file_world :
    {W : Type 0} (h : Host W) (f : String) (w : W) → (is_file_exist h f w).1 ≡ (h.stat f w).1
unfolding is_file_exist
file_world h f w = rest (h.stat f w).0 (h.stat f w).1

module _ {W : Type 0} (l : Lvsimpl W) (t : IsTable l.alc.store) (g : IsRegistry l.alc.store t)
    (beside : IsBeside l t g) (leader : l.is_leader ≡ true) where
  delete_service-IsKept :
      (name : String) (s : Site W)
      → g.IsKept (release_ip l.alc (stick <> name) s.ipam).1.world
      → g.IsKept (delete_service l name s).1.ipam.world
  unfolding delete_service after_delete
  delete_service-IsKept name s kept =
      let f = get_config_file_path l name in
      let s0 : Site W = record s { ipam = (release_ip l.alc (stick <> name) s.ipam).1 } in
      let (found, s1) = outside (is_file_exist l.host f) s0 in
      let (removed, s2) = outside (l.host.remove f) s1 in
      let looked : g.IsKept s1.ipam.world =
        subst g.IsKept (sym (file_world l.host f s0.ipam.world))
          (beside.stat-IsKept f s0.ipam.world kept) in
      rw leader (
        after_delete-either (λ x. g.IsKept x.ipam.world) found removed s1 s2 looked
          (beside.remove-IsKept f s1.ipam.world looked))

  -- DeleteService leaves the holders that its ReleaseIP leaves.
  holder-delete_service :
      (name : String) (s : Site W) (n : ℕ)
      → t.holder (delete_service l name s).1.ipam.world n
        ≡ t.holder (release_ip l.alc (stick <> name) s.ipam).1.world n
  unfolding delete_service after_delete
  holder-delete_service name s n =
      let f = get_config_file_path l name in
      let s0 : Site W = record s { ipam = (release_ip l.alc (stick <> name) s.ipam).1 } in
      let (found, s1) = outside (is_file_exist l.host f) s0 in
      let (removed, s2) = outside (l.host.remove f) s1 in
      let looked : t.holder s1.ipam.world n ≡ t.holder s0.ipam.world n =
        ap (λ w. t.holder w n) (file_world l.host f s0.ipam.world)
        ∙ beside.holder-stat f s0.ipam.world n in
      rw leader (
        after_delete-either (λ x. t.holder x.ipam.world n ≡ t.holder s0.ipam.world n) found removed
          s1 s2 looked (beside.holder-remove f s1.ipam.world n ∙ looked))

  -- The leader's DeleteService, from a store that keeps its table of holders and gives no name two
  -- addresses, leaves it so, and the load balancer with no address.
  pub delete_service_lem :
      (name : String) (s : Site W)
      → g.IsKept s.ipam.world
      → IsSingle (t.holder s.ipam.world)
      → g.IsKept (delete_service l name s).1.ipam.world
        × IsSingle (t.holder (delete_service l name s).1.ipam.world)
        × ((m : ℕ)
            → m < 4294967296
            → t.holder (delete_service l name s).1.ipam.world m
              ≡ without (stick <> name) (t.holder s.ipam.world m))
  delete_service_lem name s kept single =
      let (done, k, all) =
        release_ip-holder l.alc t g (stick <> name) (parse_ip-stick name) s.ipam kept single in
      let now = λ (m : ℕ) (lm : m < 4294967296). holder-delete_service name s m ∙ all m lm in
      (
        delete_service-IsKept name s k,
        IsSingle-without (stick <> name) (t.holder s.ipam.world)
            (t.holder (delete_service l name s).1.ipam.world) single now,
        now,
      )

module _ {W : Type 0} (l : Lvsimpl W) (lo hi : ℕ) (r : IsRange l.alc lo hi)
    (t : IsTable l.alc.store) (g : IsRegistry l.alc.store t) (beside : IsBeside l t g)
    (leader : l.is_leader ≡ true) (no_gateway : l.alc.conf.gateway ≡ none)
    (enough : hi - lo < l.fuel) (lvs : Lvs) (empty : lvs.vip ≡ "") (s : Site W)
    (kept : g.IsKept s.ipam.world) (single : IsSingle (t.holder s.ipam.world)) where
  name : String
  name = stick <> lvs.name

  -- On the leader, with no gateway and fuel for each address of the range, over a store that keeps
  -- its table of holders, gives no name two addresses, and is left alone by the writing of load
  -- balancers and by the files: when allocVIP has succeeded for a load balancer that had no virtual
  -- address and held none, DeleteService leaves every address with the holder that it had before.
  pub delete_service-alloc_vip :
      ((m : ℕ) → m < 4294967296 → t.holder s.ipam.world m ≢ some (stick <> lvs.name))
      → (alloc_vip l lvs s).0 ≡ ok tt
      → (m : ℕ) → m < 4294967296
      → t.holder (delete_service l lvs.name (alloc_vip l lvs s).2).1.ipam.world m
        ≡ t.holder s.ipam.world m
  unfolding name
  delete_service-alloc_vip fresh done m lt = elim (Bool-cases (is_ok (required l lvs s).0)) [
    | inr e ↦ absurd (distinct (sym (ap is_ok done) ∙ alloc_vip-err l lvs s empty e))
    | inl e ↦
        let (addr, given) = is_ok-ok (required l lvs s).0 e in
        let (n, ln, text, old, k, run, all) =
          granted_run l lo hi r t g no_gateway enough lvs empty s kept addr given in
        let between = behind l lvs s in
        let s1 = (update l (placed l lvs n) between).1 in
        let once : IsSingle (t.holder between.ipam.world) =
          require_ip-IsSingle l.alc lo hi r t g no_gateway l.fuel enough name
            (parse_ip-stick lvs.name) s.ipam kept single in
        let still =
          IsSingle-along (t.holder between.ipam.world) (t.holder s1.ipam.world) once
            (beside.holder-update (placed l lvs n) between) in
        let (ok_, k', released) =
          release_ip-holder l.alc t g name (parse_ip-stick lvs.name) s1.ipam
            (beside.update-IsKept (placed l lvs n) between k) still in
        let here : (alloc_vip l lvs s).2 ≡ s1 = ap (λ x. x.2) run in
        ap (λ x. t.holder (delete_service l lvs.name x).1.ipam.world m) here
        ∙ (holder-delete_service l t g beside leader lvs.name s1 m
            ∙ (released m lt
                ∙ (ap (without name) (beside.holder-update (placed l lvs n) between m ∙ all m lt)
                    ∙ without-given name n m (t.holder s.ipam.world) (free old (fresh n ln))
                        (fresh m lt))))
  ]
