-- ===== src/Main.antt =====
-- main.go: the start of the program. flag and what the packages take from outside are arguments.
pub mod Entry
use lbmanager.Base.{
  ◌≡◌, ◌↔◌, refl, ℕ, ◌<◌, String, Bool, true, false, [], List, ◌==◌, string_eq, if◌then◌else◌, ◌⊎◌,
  Error, message, Result, ok, err, Exec, Bool-cases, inl, inr, Option,
}
use lbmanager.Base.Dict.{Dict}
use lbmanager.Utils.{Host}
use lbmanager.Conf
use lbmanager.Conf.{LbConf, get_store_prefix}
use lbmanager.Kvstore
use lbmanager.Kvstore.{LibKv, KvStore, wait_for_start}
use lbmanager.Leader.{EtcdLock}
use lbmanager.Leader.Run
use lbmanager.Leader.Run.{ElectionConfig, Ending, init_failed, elected}
use lbmanager.Lbm.Service.{Lvsimpl}
use lbmanager.Lbm.Nginx.Service.{NginxImpl}
use lbmanager.Lbm.Start.{new, init}

-- What the program works with.
pub record Program (W R : Type 0) : Type 0 where
  pub host : Host W
  -- json.Unmarshal into a configuration
  pub decode : String → LbConf → Result LbConf
  -- libkv.NewStore
  pub new_store : List String → Result (LibKv W)
  pub hostname : Exec W String
  pub lvs : Lvsimpl W
  pub nginx : NginxImpl W
  pub lock : EtcdLock W R
  pub run_or_die : ElectionConfig W R → (Lvsimpl W × Dict String) ⊎ NginxImpl W → Exec W (Unit {0})

-- How far main has come: an error ended the process, it waits for etcd, Run of package leader has
-- returned an error, or main has come to the election of client-go.
pub data Progress : Type 0 where
  fatal : Error → Progress
  waiting : Progress
  returned : Error → Progress
  entered : Result (Unit {0}) → Progress

abbrev pub has_entered : Progress → Bool
has_entered (entered _) = true
has_entered _ = false

-- What a call of Run leaves main at.
abbrev pub progress : Ending → Progress
progress (Run.returned e) = returned e
progress (init_failed e) = fatal e
progress (elected r) = entered r

module _ {W R : Type 0} (p : Program W R) (rounds : ℕ) where
  -- lbm.New, over the stores that the packages have been given.
  abbrev pub object : LbConf → KvStore W → Conf.State W → Lvsimpl W ⊎ NginxImpl W
  object c kv s = new (record p.lvs { kv = kv; groups = s.laddr }) p.nginx c c.type

  -- From lbm.New on.
  unfoldable pub enter : LbConf → KvStore W → Conf.State W → W → Ending × W
  unfolding Run.run new init
  enter c kv s w =
      Run.run p.run_or_die (record p.lock { kv = kv }) c.catalog p.hostname (init (object c kv s)) w

  -- Once WaitForStart has returned.
  abbrev pub once_up : LbConf → KvStore W → Conf.State W → Bool × W → Progress × W
  once_up c kv s (false, w) = (waiting, w)
  once_up c kv s (true, w) = let (r, w') = enter c kv s w in (progress r, w')

  abbrev pub with_store : LbConf → Conf.State W → Result (KvStore W) → Progress × W
  with_store c s (err e) = (fatal e, s.world)
  with_store c s (ok kv) = once_up c kv s (wait_for_start kv rounds s.world)

  abbrev pub with_conf : String → Result LbConf × Conf.State W → Progress × W
  with_conf endpoints (err e, s) = (fatal e, s.world)
  with_conf endpoints (ok c, s) =
      with_store c s (Kvstore.init p.new_store (get_store_prefix c) endpoints)

  -- main, which waits for etcd for so many rounds.
  unfoldable pub main : String → W → Progress × W
  unfolding enter Conf.init Kvstore.init wait_for_start
  main endpoints w =
      if endpoints == ""
      then (fatal (message "Etcd endpoints is required"), w)
      else with_conf endpoints (Conf.init p.host p.decode (record { laddr = []; world = w }))
