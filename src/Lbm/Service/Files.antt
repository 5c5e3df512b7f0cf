-- ===== src/Lbm/Service/Files.antt =====
-- The deletions after a listing, and the files of the layer 4 load balancers.
use mathlib.Core.Path.{ap₂}
use lbmanager.Base.{
  ◌≡◌, refl, ap, sym, ◌∙◌, ℕ, String, ◌<>◌, Bool, true, false, not, ◌&&◌, ◌||◌, List, [], ◌∷◌, any,
  ◌==◌, ==_iff, string_eq, if◌then◌else◌, arith, Bool-cases, inl, inr, Result, ok, err, is_ok,
}
use lbmanager.Base.Dict.{Dict, erase}
use lbmanager.Utils.{is_file_exist}
use lbmanager.Kvstore.{KvPair}
use lbmanager.Ipam.Allocator.{release}
use lbmanager.Ipam.Allocator.Laws.{IsTable}
use lbmanager.Ipam.State.{State, release_ip, drop_cache}
use lbmanager.Base.Monad.Exec.{continue}
use lbmanager.Lbm.Lvs.{Lvs}
use lbmanager.Lbm.Handlers.{Impl, LbBase, is_listed, name_at, sweep, delete_all, handler_delete}
use lbmanager.Lbm.Nginx.Service.Files.{IsDisk, exist_lem}
use lbmanager.Lbm.Service.Delete.{after_delete}
use lbmanager.Lbm.Service.{
  stick, Lvsimpl, Site, lvs_service, delete_service, get_config_file_path, outside,
}

any-ext : {A : Type 0} (p q : A → Bool) (xs : List A) → ((x : A) → p x ≡ q x) → any p xs ≡ any q xs
any-ext p q [] e = refl
any-ext p q (x ∷ xs) e = rw (e x, any-ext p q xs e) refl

-- A file counts once: one that has been removed is not there when the next is looked for.
absorb :
    (file : String → String) (has : String → Bool) (f : String) (xs : List String)
    → (has f || any (λ x. if f == file x then false else has (file x)) xs)
      ≡ (has f || any (λ x. has (file x)) xs)
absorb file has f [] = refl
absorb file has f (x ∷ xs) = elim (Bool-cases (f == file x)) [
  | inl e ↦
      let same : has f ≡ has (file x) = ap has ((==_iff f (file x)).0 e) in
      rw e (ground (arith, absorb file has f xs))
  | inr e ↦ rw e (ground (arith, absorb file has f xs))
]

both : (e h a : Bool) → ((if e then false else h) && not a) ≡ (h && not (e || a))
both e h a = ground arith

-- What the loop collects, tested by a Boolean.
module _ {W L : Type 0} (impl : Impl W L) (own : String) (test : String → Bool) where
  named :
      (b : Bool) (x : String) (names : List String)
      → any test (if b then names else x ∷ names) ≡ (not b && test x || any test names)
  named true x names = refl
  named false x names = refl

  pub any-sweep :
      (li : List KvPair) (os : List L) (entries elem : Dict ℕ)
      → any test (sweep impl own li os entries elem).0
        ≡ any (λ (k, p). not (is_listed k li) && test (name_at impl own os p)) entries
  unfolding sweep
  any-sweep li os [] elem = refl
  any-sweep li os ((k, p) ∷ entries) elem =
      let rest = if is_listed k li then elem else erase k elem in
      named (is_listed k li) (name_at impl own os p) (sweep impl own li os entries rest).0
      ∙ ap (λ b. not (is_listed k li) && test (name_at impl own os p) || b)
          (any-sweep li os entries rest)

module _ {W : Type 0} (l : Lvsimpl W) (t : IsTable l.alc.store) (d : IsDisk l.host)
    (apart : (id g : String) (w : W) → d.has (l.alc.store.release_by_id id w).1 g ≡ d.has w g) where
  abbrev file : String → String
  file name = get_config_file_path l name

  dropped :
      (id g : String) (r : Result (Unit {0})) (s : State W)
      → d.has (continue r (λ _. drop_cache l.alc id) s).1.world g ≡ d.has s.world g
  unfolding drop_cache
  dropped id g (ok u) s = refl
  dropped id g (err e) s = refl

  has-release_ip :
      (id g : String) (s : State W) → d.has (release_ip l.alc id s).1.world g ≡ d.has s.world g
  unfolding release_ip release
  has-release_ip id g s =
      let (r, w) = l.alc.store.release_by_id id s.world in
      rw (t.lock_lem s.world) (
        dropped id g r (record s { world = (l.alc.store.unlock w).1 })
        ∙ (ap (λ x. d.has x.1 g) (t.unlock_lem w) ∙ apart id g s.world))

  -- The state in which DeleteService turns to the file.
  abbrev turned : String → Site W → Site W
  turned name s =
      if l.is_leader then record s { ipam = (release_ip l.alc (stick <> name) s.ipam).1 } else s

  has-turned :
      (name g : String) (s : Site W) → d.has (turned name s).ipam.world g ≡ d.has s.ipam.world g
  has-turned name g s = elim (Bool-cases l.is_leader) [
    | inl e ↦ rw e (has-release_ip (stick <> name) g s.ipam)
    | inr e ↦ rw e refl
  ]

  -- What DeleteService gives and leaves of the files.
  abbrev Removes : String → Site W → Bool × Site W → Type 0
  Removes name s (b, s') =
      (b ≡ d.has s.ipam.world (file name))
      × ((g : String)
          → d.has s'.ipam.world g ≡ (if file name == g then false else d.has s.ipam.world g))

  missing :
      (name g : String) (s : Site W)
      → d.has s.ipam.world (file name) ≡ false
      → d.has s.ipam.world g ≡ (if file name == g then false else d.has s.ipam.world g)
  missing name g s h = elim (Bool-cases (file name == g)) [
    | inl e ↦ rw e (ap (d.has s.ipam.world) (sym ((==_iff (file name) g).0 e)) ∙ h)
    | inr e ↦ rw e refl
  ]

  by_files :
      (name : String) (s s1 s2 : Site W) (found : Result Bool) (removed : Result (Unit {0}))
      → is_ok found ≡ d.has s.ipam.world (file name)
      → is_ok removed ≡ d.has s.ipam.world (file name)
      → ((g : String) → d.has s1.ipam.world g ≡ d.has s.ipam.world g)
      → ((g : String)
          → d.has s2.ipam.world g ≡ (if file name == g then false else d.has s.ipam.world g))
      → Removes name s (after_delete found removed s1 s2)
  unfolding after_delete
  by_files name s s1 s2 (err e) removed f r same gone = (f, λ g. same g ∙ missing name g s (sym f))
  by_files name s s1 s2 (ok b) (ok u) f r same gone = (f, gone)
  by_files name s s1 s2 (ok b) (err e) f r same gone = absurd (ground (arith, f, r))

  delete_service-Removes : (name : String) (s : Site W) → Removes name s (delete_service l name s)
  unfolding delete_service after_delete
  delete_service-Removes name s =
      let s0 = turned name s in
      let (found, s1) = outside (is_file_exist l.host (file name)) s0 in
      let (removed, s2) = outside (l.host.remove (file name)) s1 in
      let (f, here) = exist_lem l.host (file name) s0.ipam.world in
      let same = λ (g : String).
        ap (λ w. d.has w g) here ∙ (d.has-stat (file name) g s0.ipam.world ∙ has-turned name g s) in
      by_files name s s1 s2 found removed
        (f ∙ (d.stat_lem (file name) s0.ipam.world ∙ has-turned name (file name) s))
        (d.remove_lem (file name) s1.ipam.world ∙ same (file name)) same
        (λ g.
          d.has-remove (file name) g s1.ipam.world
          ∙ ap (λ b. if file name == g then false else b) (same g))

module _ {W : Type 0} (l : Lvsimpl W) (t : IsTable l.alc.store) (d : IsDisk l.host)
    (apart : (id g : String) (w : W) → d.has (l.alc.store.release_by_id id w).1 g ≡ d.has w g)
    (equal : Lvs → Lvs → Bool) (own : String) where
  delete_all-files :
      (names : List String) (s : Site W)
      → ((delete_all (lvs_service l equal) own names s).0
          ≡ any (λ x. d.has s.ipam.world (get_config_file_path l x)) names)
        × ((g : String)
            → d.has (delete_all (lvs_service l equal) own names s).1.ipam.world g
              ≡ (d.has s.ipam.world g && not (any (λ x. get_config_file_path l x == g) names)))
  unfolding delete_all lvs_service
  delete_all-files [] s = (refl, λ g. ground arith)
  delete_all-files (x ∷ xs) s =
      let (deleted, left) = delete_service-Removes l t d apart x s in
      let (others, rest) = delete_all-files xs (delete_service l x s).1 in
      let has = d.has s.ipam.world in
      let path = get_config_file_path l in
      (
        ap₂ ◌||◌ deleted (
              others
              ∙ any-ext (λ y. d.has (delete_service l x s).1.ipam.world (path y))
                  (λ y. if path x == path y then false else has (path y)) xs (λ y. left (path y)))
            ∙ absorb path has (path x) xs,
        λ g.
            rest g
            ∙ (ap (λ b. b && not (any (λ y. path y == g) xs)) (left g)
                ∙ both (path x == g) (has g) (any (λ y. path y == g) xs)),
      )

  -- Where files are as os.Stat and os.Remove see them, and the store of addresses is no file: the
  -- deletions after a listing ask for a reload exactly if the file of a load balancer that is served
  -- without being listed was there, and they leave the files of those load balancers out and no
  -- other, on the leader and on any other node.
  pub handler_delete-has :
      (li : List KvPair) (b : LbBase (Site W) Lvs)
      → ((handler_delete (lvs_service l equal) own li b).0
          ≡ any
              (λ (k, p).
                not (is_listed k li)
                && d.has b.world.ipam.world
                    (get_config_file_path l (name_at (lvs_service l equal) own b.objects p)))
              b.elem)
        × ((g : String)
            → d.has (handler_delete (lvs_service l equal) own li b).1.world.ipam.world g ≡ (
                d.has b.world.ipam.world g
                && not (
                    any
                      (λ (k, p).
                        not (is_listed k li)
                        && get_config_file_path l (name_at (lvs_service l equal) own b.objects p)
                          == g)
                      b.elem)))
  unfolding handler_delete
  handler_delete-has li b =
      let service = lvs_service l equal in
      let path = get_config_file_path l in
      let has = d.has b.world.ipam.world in
      let (flag, left) =
        delete_all-files (sweep service own li b.objects b.elem b.elem).0 b.world in
      (
        flag ∙ any-sweep service own (λ x. has (path x)) li b.objects b.elem b.elem,
        λ g.
            left g
            ∙ ap (λ a. has g && not a)
                (any-sweep service own (λ x. path x == g) li b.objects b.elem b.elem),
      )
