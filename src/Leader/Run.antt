-- ===== src/Leader/Run.antt =====
-- pkg/leader/leader.go: Run. os.Hostname and the election of client-go are arguments; the recorder of
-- events is left out, since the lock records none.
use lbmanager.Base.{ℕ, String, Option, Error, Result, ok, err, errorf, cause, Args, Exec}
use lbmanager.Leader.{EtcdLock, new, identity}
use lbmanager.Lbm.Roles.{Node, Callback, handle}

-- LeaderElectionConfig; a callback changes the node, unless it panics. Durations are in seconds.
pub record ElectionConfig (W R : Type 0) : Type 0 where
  pub lock : EtcdLock W R
  pub lease_duration : ℕ
  pub renew_deadline : ℕ
  pub retry_period : ℕ
  pub callbacks : Callback → Node → Option Node

abbrev pub hb : String
hb = "leader"

unfoldable pub election_config :
    {W R : Type 0} → EtcdLock W R → String → String → ElectionConfig W R
unfolding new handle identity
election_config l catalog id =
    let rl = new l catalog hb id in
    record {
      lock = rl;
      lease_duration = 10;
      renew_deadline = 5;
      retry_period = 2;
      callbacks = handle (identity rl);
    }

-- How far a call of Run has come: it has returned the error of os.Hostname, Init of the object has
-- ended the process, or it has come to the election, with what that has given.
pub data Ending : Type 0 where
  returned : Error → Ending
  init_failed : Error → Ending
  elected : Result (Unit {0}) → Ending

module _ {W R A : Type 0} (run_or_die : ElectionConfig W R → A → Exec W (Unit {0}))
    (l : EtcdLock W R) (catalog : String) where
  -- Behind Init.
  abbrev pub with_object : String → Result A × W → Ending × W
  with_object id (err e, w) = (init_failed e, w)
  with_object id (ok obj, w) =
      let (r, w') = run_or_die (election_config l catalog id) obj w in (elected r, w')

  -- Behind os.Hostname.
  abbrev pub with_hostname : Exec W A → Result String × W → Ending × W
  with_hostname init (err e, w) =
      (returned (errorf "unable to get hostname: %v" (cause e Args.end)), w)
  with_hostname init (ok id, w) = with_object id (init w)

  -- Run over Init of the object, which gives what the election starts with.
  unfoldable pub run : Exec W String → Exec W A → W → Ending × W
  unfolding election_config
  run hostname init w = with_hostname init (hostname w)
