-- ===== src/Lbm/Service/Config.antt =====
-- ConfigService of the leader: the address, the load balancer in etcd, and the file.
use lbmanager.Base.{
  ◌≡◌, refl, ap, sym, ◌∙◌, ℕ, ◌-◌, ◌<◌, String, ◌<>◌, Bool, true, false, some, none, ◌==◌, nat_eq,
  if◌then◌else◌, arith, Bool-cases, inl, inr, Result, ok, err, is_ok,
}
use mathlib.Core.Path.{subst}
use lbmanager.Ipam.Allocator.Laws.{IsTable}
use lbmanager.Ipam.Allocator.Search.{IsRange}
use lbmanager.Ipam.Allocator.Registry.{IsRegistry}
use lbmanager.Lbm.Lvs.{Lvs}
use lbmanager.Lbm.Render.{render}
use lbmanager.Lbm.Render.Again.{IsFileSystem, IsRendered, render-IsRendered}
use lbmanager.Lbm.Render.Keeps.{render-keeps}
use lbmanager.Lbm.Service.{
  stick, Lvsimpl, Site, alloc_vip, update, prepare, render_template, config_service, inner_of,
  result_or, get_config_file_path,
}
use lbmanager.Lbm.Service.Vip.{placed, behind, alloc_vip-placed}
use lbmanager.Lbm.Service.Delete.{IsBeside}

is_ok-unit : (r : Result (Unit {0})) → is_ok r ≡ true → r ≡ ok tt
is_ok-unit (ok tt) h = refl
is_ok-unit (err e) h = absurd cc

module _ {W : Type 0} (l : Lvsimpl W) (lvs : Lvs) (s : Site W) where
  -- The file of the load balancer.
  abbrev pub file : String
  file = get_config_file_path l lvs.name

  done_ok : (r : Result Bool) → result_or false r ≡ true → is_ok r ≡ true
  done_ok (ok b) h = refl
  done_ok (err e) h = absurd cc

  render_template-IsRendered :
      (law : IsFileSystem l.host)
      → (render_template l lvs s).0 ≡ true
      → IsRendered l.host law l.execute file (inner_of l lvs) (render_template l lvs s).1.ipam.world
  unfolding render_template
  render_template-IsRendered law h =
      render-IsRendered l.host law l.execute file (inner_of l lvs) s.ipam.world
        (done_ok (render l.host l.execute file (inner_of l lvs) s.ipam.world).0 h)

  render_template-keeps :
      (law : IsFileSystem l.host) (P : W → Type 0)
      → ((f c : String) (w : W) → P w → P (l.host.write_file f c w).1)
      → P s.ipam.world
      → P (render_template l lvs s).1.ipam.world
  unfolding render_template
  render_template-keeps law P written p =
      render-keeps l.host law l.execute P file (written file) (inner_of l lvs) s.ipam.world p

  -- On the leader, what has been configured has an address, and was rendered behind it.
  configured :
      l.is_leader ≡ true
      → (config_service l lvs s).0 ≡ true
      → ((alloc_vip l lvs s).0 ≡ ok tt)
        × (config_service l lvs s ≡ (
          true,
          (alloc_vip l lvs s).1,
          (render_template l (alloc_vip l lvs s).1 (alloc_vip l lvs s).2).1,
        ))
        × ((render_template l (alloc_vip l lvs s).1 (alloc_vip l lvs s).2).0 ≡ true)
  unfolding config_service prepare
  configured leader h = elim (Bool-cases (is_ok (alloc_vip l lvs s).0)) [
    | inl e ↦
        let changed = (rw (leader, e) at h) in
        (is_ok-unit (alloc_vip l lvs s).0 e, rw (leader, e, changed) refl, changed)
    | inr e ↦ absurd (ground (arith, (rw (leader, e) at h)))
  ]

module _ {W : Type 0} (l : Lvsimpl W) (lo hi : ℕ) (r : IsRange l.alc lo hi)
    (t : IsTable l.alc.store) (g : IsRegistry l.alc.store t) (beside : IsBeside l t g)
    (law : IsFileSystem l.host) (leader : l.is_leader ≡ true)
    (no_gateway : l.alc.conf.gateway ≡ none) (enough : hi - lo < l.fuel) (lvs : Lvs)
    (empty : lvs.vip ≡ "") (s : Site W) (kept : g.IsKept s.ipam.world) where
  -- On the leader, with no gateway and fuel for each address of the range, over a store that keeps its
  -- table of holders and is left alone by the writing of load balancers and by the files, and a
  -- file system that reads back what it has written: when ConfigService of a load balancer without a
  -- virtual address asks for a reload, the name of the load balancer holds an address, every other
  -- address keeps its holder, the load balancer with this address has been written to the store, and
  -- its file has the text that it renders to with this address.
  pub config_service-IsRendered :
      (config_service l lvs s).0 ≡ true
      → (n : ℕ) × (n < 4294967296)
        × ((config_service l lvs s).1 ≡ placed l lvs n)
        × ((update l (placed l lvs n) (behind l lvs s)).0 ≡ ok tt)
        × IsRendered l.host law l.execute
            (get_config_file_path l lvs.name)
            (inner_of l (placed l lvs n))
            (config_service l lvs s).2.ipam.world
        × ((m : ℕ)
            → m < 4294967296
            → t.holder (config_service l lvs s).2.ipam.world m
              ≡ (if n == m then some (stick <> lvs.name) else t.holder s.ipam.world m))
  config_service-IsRendered done =
      let (given, run, rendered) = configured l lvs s leader done in
      let (n, lt, vip, written, all) =
        alloc_vip-placed l lo hi r t g no_gateway enough lvs empty s kept given in
      let s1 = (update l (placed l lvs n) (behind l lvs s)).1 in
      let here : alloc_vip l lvs s ≡ (ok tt, placed l lvs n, s1) = vip in
      let now : config_service l lvs s
          ≡ (true, placed l lvs n, (render_template l (placed l lvs n) s1).1) =
        run ∙ ap (λ x. (true, x.1, (render_template l x.1 x.2).1)) here in
      (
        n,
        lt,
        ap (λ x. x.1) now,
        written,
        subst
            (λ x.
              IsRendered l.host law l.execute (get_config_file_path l lvs.name)
                (inner_of l (placed l lvs n)) x.ipam.world)
            (sym (ap (λ x. x.2) now))
            (render_template-IsRendered l (placed l lvs n) s1 law
              (sym (ap (λ x. (render_template l x.1 x.2).0) here) ∙ rendered)),
        λ m lm.
            ap (λ x. t.holder x.2.ipam.world m) now
            ∙ render_template-keeps l (placed l lvs n) s1 law
                (λ w.
                  t.holder w m
                  ≡ (if n == m then some (stick <> lvs.name) else t.holder s.ipam.world m))
                (λ f c w h. beside.holder-write f c w m ∙ h)
                (beside.holder-update (placed l lvs n) (behind l lvs s) m ∙ all m lm),
      )
