-- ===== src/Main/Entry.antt =====
-- When main comes to the election.
use lbmanager.Base.{
  ◌≡◌, ◌↔◌, refl, sym, ◌∙◌, ℕ, ◌<◌, String, Bool, true, false, ◌&&◌, [], ◌==◌, string_eq, Result,
  ok, err, is_ok, Exec, message, if◌then◌else◌,
}
use mathlib.Core.Path.{subst}
use lbmanager.Base.Monad.Inversion.{ok_inj}
use lbmanager.Conf
use lbmanager.Conf.{LbConf}
use lbmanager.Kvstore
use lbmanager.Kvstore.{KvStore, wait_for_start}
use lbmanager.Kvstore.Start.{IsUp, wait_for_start_iff}
use lbmanager.Leader.{EtcdLock}
use lbmanager.Leader.Run
use lbmanager.Leader.Run.{ElectionConfig, with_object, with_hostname}
use lbmanager.Lbm.Start.{init}
use lbmanager.Main.{
  Program, Progress, fatal, main, has_entered, progress, object, enter, once_up, with_store,
  with_conf,
}

and_iff : (a b : Bool) → ((a && b) ≡ true) ↔ ((a ≡ true) × (b ≡ true))
and_iff true b = (λ h. (refl, h), λ (e, h). h)
and_iff false b = (λ h. absurd cc, λ (e, h). absurd cc)

module _ {W R : Type 0} (p : Program W R) (rounds : ℕ) where
  -- os.Hostname gives a name, and Init of the object that lbm.New gives does not end the process.
  abbrev pub IsStarting : LbConf → KvStore W → Conf.State W → W → Type 0
  IsStarting c kv s w =
      (is_ok (p.hostname w).0 ≡ true)
      × (is_ok (init (object p rounds c kv s) (p.hostname w).1).0 ≡ true)

  -- The store that has been opened answers within the rounds, and Run comes to the election then.
  abbrev pub Answers : LbConf → Conf.State W → Result (KvStore W) → Type 0
  Answers c s opened =
      (kv : KvStore W) × (opened ≡ ok kv)
      × ((k : ℕ) × (k < rounds) × IsUp kv s.world k)
      × IsStarting c kv s (wait_for_start kv rounds s.world).1

  -- The configuration has been accepted, and all goes well with the store that it speaks of.
  abbrev pub IsReady : String → Result LbConf × Conf.State W → Type 0
  IsReady endpoints read =
      (c : LbConf) × (read.0 ≡ ok c)
      × Answers c read.1 (Kvstore.init p.new_store c.store_prefix endpoints)

  entered-with_object :
      {A : Type 0} (run_or_die : ElectionConfig W R → A → Exec W (Unit {0})) (l : EtcdLock W R)
      (catalog id : String) (x : Result A × W)
      → has_entered (progress (with_object run_or_die l catalog id x).0) ≡ is_ok x.0
  entered-with_object run_or_die l catalog id (ok a, w) = refl
  entered-with_object run_or_die l catalog id (err e, w) = refl

  entered-with_hostname :
      {A : Type 0} (run_or_die : ElectionConfig W R → A → Exec W (Unit {0})) (l : EtcdLock W R)
      (catalog : String) (start : Exec W A) (x : Result String × W)
      → has_entered (progress (with_hostname run_or_die l catalog start x).0)
        ≡ (is_ok x.0 && is_ok (start x.1).0)
  entered-with_hostname run_or_die l catalog start (ok id, w) =
      entered-with_object run_or_die l catalog id (start w)
  entered-with_hostname run_or_die l catalog start (err e, w) = refl

  entered-once_up :
      (c : LbConf) (kv : KvStore W) (s : Conf.State W) (x : Bool × W)
      → (has_entered (once_up p rounds c kv s x).0 ≡ true) ↔ ((x.0 ≡ true) × IsStarting c kv s x.1)
  unfolding enter Run.run
  entered-once_up c kv s (true, w) =
      let start = init (object p rounds c kv s) in
      let e =
        entered-with_hostname p.run_or_die (record p.lock { kv = kv }) c.catalog start
          (p.hostname w) in
      let both = and_iff (is_ok (p.hostname w).0) (is_ok (start (p.hostname w).1).0) in
      (λ h. (refl, both.0 (sym e ∙ h)), λ (same, both_ok). e ∙ both.1 both_ok)
  entered-once_up c kv s (false, w) = (λ h. absurd cc, λ (e, r). absurd cc)

  with_store_iff :
      (c : LbConf) (s : Conf.State W) (opened : Result (KvStore W))
      → (has_entered (with_store p rounds c s opened).0 ≡ true) ↔ Answers c s opened
  with_store_iff c s (err e) = (λ h. absurd cc, λ (kv, e, up, start). absurd cc)
  with_store_iff c s (ok kv) =
      let entry = entered-once_up c kv s (wait_for_start kv rounds s.world) in
      let up = wait_for_start_iff kv rounds s.world in
      (
        λ h. let (waited, start) = entry.0 h in (kv, refl, up.0 waited, start),
        λ (kv', e, at, start). entry.1 (
          (wait_for_start_iff kv rounds s.world).1
              (subst (λ x. (k : ℕ) × (k < rounds) × IsUp x s.world k) (sym (ok_inj e)) at),
          subst (λ x. IsStarting c x s (wait_for_start x rounds s.world).1) (sym (ok_inj e)) start,
        ),
      )

  with_conf_iff :
      (endpoints : String) (read : Result LbConf × Conf.State W)
      → (has_entered (with_conf p rounds endpoints read).0 ≡ true) ↔ IsReady endpoints read
  with_conf_iff endpoints (err e, s) = (λ h. absurd cc, λ (c, e, r). absurd cc)
  with_conf_iff endpoints (ok c, s) =
      let (there, back) = with_store_iff c s (Kvstore.init p.new_store c.store_prefix endpoints) in
      (
        λ h. (c, refl, there h),
        λ (c', same, answers). back (
            subst (λ x. Answers x s (Kvstore.init p.new_store x.store_prefix endpoints))
              (sym (ok_inj same)) answers),
      )

  given_iff :
      (missing : Bool) (w : W) (x : Progress × W) (P : Type 0)
      → (has_entered x.0 ≡ true) ↔ P
      → (has_entered (if missing then (fatal (message "Etcd endpoints is required"), w) else x).0
          ≡ true)
        ↔ ((missing ≡ false) × P)
  given_iff true w x P h = (λ e. absurd cc, λ (e, r). absurd cc)
  given_iff false w x P h = (λ e. (refl, h.0 e), λ (e, r). h.1 r)

  -- While it waits for etcd for so many rounds, main comes to the election of client-go exactly if
  -- it is given endpoints, the configuration is read and accepted, libkv opens the store, etcd
  -- answers in one of the rounds, and then os.Hostname gives a name and Init of the object that
  -- lbm.New gives does not end the process.
  pub main_iff :
      (endpoints : String) (w : W)
      → (has_entered (main p rounds endpoints w).0 ≡ true) ↔ (
          ((endpoints == "") ≡ false)
          × IsReady endpoints (Conf.init p.host p.decode (record { laddr = []; world = w })))
  unfolding main
  main_iff endpoints w =
      let read = Conf.init p.host p.decode (record { laddr = []; world = w }) in
      given_iff (endpoints == "") w _ (IsReady endpoints read) (with_conf_iff endpoints read)
