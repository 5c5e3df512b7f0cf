-- ===== src/Lbm/Watch.antt =====
-- LBBase.watch of pkg/lbm/lbm.go: the goroutine that follows the listing in etcd, as a step relation.
-- libkv's WatchTree gives a channel of listings, which it closes on an error of etcd and after the
-- stop; what comes through the channel, and when, is the choice of the steps. Waiting and sleeping
-- are steps that change nothing, and are left out.
pub mod Keys
pub mod Ends
use lbmanager.Base.{
  ◌≡◌, ◌≢◌, ℕ, String, ◌<>◌, Bool, true, false, Option, none, some, List, [], ◌∷◌, ◌++◌,
  if◌then◌else◌, is_ok, Result, ok, err, Exec,
}
use lbmanager.Base.Monad.Exec.{pure, ◌>>=◌, ◌>>◌}
use lbmanager.Kvstore.{KvPair, KvStore, is_exist, write_dir, watch_tree}
use lbmanager.Lbm.Handlers.{Impl, LbBase, handler_event}

abbrev pub item : String
item = "lb/"

-- Where the goroutine stands: before the subscription, in the loop of `handler`, behind that loop at
-- `<-stopCh`, or returned.
pub data Place : Type 0 where
  subscribing handling waiting returned : Place

pub record Watch (W L : Type 0) : Type 0 where
  pub place : Place
  pub base : LbBase W L
  -- whether Run has closed `stopCh`
  pub stopped : Bool

-- What comes before WatchTree: the directory is made if it is missing. An error starts the round
-- again.
unfoldable pub ensure_dir : {W : Type 0} → KvStore W → String → Exec W (Unit {0})
ensure_dir kv dir = do
  found ← is_exist kv item dir
  if found then pure tt else write_dir kv item dir

-- The test of what WatchTree gives: an error or a nil channel starts the round again, too.
abbrev pub is_channel : Result (Option ℕ) → Bool
is_channel (ok (some c)) = true
is_channel (ok none) = false
is_channel (err e) = false

-- A round up to the loop of `handler`.
unfoldable pub subscribe : {W : Type 0} → KvStore W → String → Exec W (Option ℕ)
unfolding ensure_dir
subscribe kv dir = do ensure_dir kv dir; watch_tree kv item dir

module _ {W L : Type 0} (kv : KvStore W) (dir : String) (impl : Impl W L) (own : String) where
  abbrev pub in_world : Watch W L → W → Watch W L
  in_world s w = record s { base = record s.base { world = w } }

  pub data Step : Watch W L → Watch W L → Type 0 where
    -- the round fails, at the directory or at WatchTree
    retried :
        (s : Watch W L)
        → s.place ≡ subscribing
        → is_channel (subscribe kv dir s.base.world).0 ≡ false
        → Step s (in_world s (subscribe kv dir s.base.world).1)
    subscribed :
        (s : Watch W L)
        → s.place ≡ subscribing
        → is_channel (subscribe kv dir s.base.world).0 ≡ true
        → Step s (record (in_world s (subscribe kv dir s.base.world).1) { place = handling })
    -- a listing comes through the channel
    notified :
        (s : Watch W L) (li : List KvPair)
        → s.place ≡ handling
        → Step s (record s { base = handler_event impl own li s.base })
    -- the channel has been closed, so that a receive gives nil
    closed : (s : Watch W L) → s.place ≡ handling → Step s (record s { place = waiting })
    -- `<-stopCh` gives something only when the channel is closed: nothing is sent on it
    ended :
        (s : Watch W L)
        → s.place ≡ waiting
        → s.stopped ≡ true
        → Step s (record s { place = returned })
    -- Run closes `stopCh`
    halted : (s : Watch W L) → Step s (record s { stopped = true })
    -- what others do to etcd, to the files and to the addresses
    changed : (s : Watch W L) (w : W) → Step s (in_world s w)

  pub data Run (s : Watch W L) : Watch W L → Type 0 where
    here : Run s s
    then_step : {t u : Watch W L} → Run s t → Step t u → Run s u

  abbrev pub event_of : {t u : Watch W L} → Step t u → List (List KvPair)
  event_of (notified s li at) = li ∷ []
  event_of (retried s at failed) = []
  event_of (subscribed s at ready) = []
  event_of (closed s at) = []
  event_of (ended s at stop) = []
  event_of (halted s) = []
  event_of (changed s w) = []

  -- The listings that a run handles, in order.
  abbrev pub events : {s t : Watch W L} → Run s t → List (List KvPair)
  events here = []
  events (then_step run step) = events run ++ event_of step
