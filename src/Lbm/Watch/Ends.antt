-- ===== src/Lbm/Watch/Ends.antt =====
-- How the watch ends.
use mathlib.Core.Path.{ap₂}
use lbmanager.Base.{◌≡◌, refl, String, Bool, true, false, [], ◌++◌}
use lbmanager.Kvstore.{KvStore}
use lbmanager.Lbm.Handlers.{Impl}
use lbmanager.Lbm.Watch.{
  Watch, Place, subscribing, handling, waiting, returned, Step, Run, notified, retried, subscribed,
  closed, ended, halted, changed, here, then_step, events, event_of,
}

not_stopped : {b : Bool} → b ≡ true → b ≡ false → ⊥
not_stopped h k = absurd cc

not_subscribing : {p : Place} → p ≡ subscribing → p ≡ waiting → ⊥
not_subscribing h k = absurd cc

not_returned : {p : Place} → p ≡ subscribing → p ≡ returned → ⊥
not_returned h k = absurd cc

not_waiting : {p : Place} → p ≡ handling → p ≡ waiting → ⊥
not_waiting h k = absurd cc

module _ {W L : Type 0} (kv : KvStore W) (dir : String) (impl : Impl W L) (own : String) where
  Step-unstopped :
      {t u : Watch W L} → Step kv dir impl own t u → u.stopped ≡ false → t.stopped ≡ false
  Step-unstopped (notified s li at) h = h
  Step-unstopped (retried s at failed) h = h
  Step-unstopped (subscribed s at ready) h = h
  Step-unstopped (closed s at) h = h
  Step-unstopped (ended s at stop) h = h
  Step-unstopped (halted s) h = absurd (cc)
  Step-unstopped (changed s v) h = h

  -- Until the watch is stopped, a step from behind the closed channel handles nothing.
  Step-deaf :
      {t u : Watch W L} (step : Step kv dir impl own t u)
      → t.place ≡ waiting
      → u.stopped ≡ false
      → (t.stopped ≡ false) × (u.place ≡ waiting) × (event_of kv dir impl own step ≡ [])
  Step-deaf (notified s li at) w unstopped = absurd (not_waiting at w)
  Step-deaf (retried s at failed) w unstopped = absurd (not_subscribing at w)
  Step-deaf (subscribed s at ready) w unstopped = absurd (not_subscribing at w)
  Step-deaf (closed s at) w unstopped = absurd (not_waiting at w)
  Step-deaf (ended s at stop) w unstopped = absurd (not_stopped stop unstopped)
  Step-deaf (halted s) w unstopped = absurd (cc)
  Step-deaf (changed s v) w unstopped = (unstopped, w, refl)

  -- Once its channel of events has been closed, a watch that is not stopped handles no listing ever
  -- again: it subscribes no more, and what is in etcd does not reach it.
  pub Run-deaf :
      {s t : Watch W L} (run : Run kv dir impl own s t)
      → s.place ≡ waiting
      → t.stopped ≡ false
      → (t.place ≡ waiting) × (events kv dir impl own run ≡ [])
  Run-deaf here w unstopped = (w, refl)
  Run-deaf (then_step run step) w unstopped =
      let (at, none_yet) = Run-deaf run w (Step-unstopped step unstopped) in
      let (_, still, none_now) = Step-deaf step at unstopped in (still, ap₂ ◌++◌ none_yet none_now)

  -- A watch that has returned was stopped.
  abbrev IsHonest : Watch W L → Type 0
  IsHonest s = s.place ≡ returned → s.stopped ≡ true

  Step-IsHonest : {t u : Watch W L} → Step kv dir impl own t u → IsHonest t → IsHonest u
  Step-IsHonest (notified s li at) h = h
  Step-IsHonest (retried s at failed) h = h
  Step-IsHonest (subscribed s at ready) h = λ done. cc
  Step-IsHonest (closed s at) h = λ done. cc
  Step-IsHonest (ended s at stop) h = λ _. stop
  Step-IsHonest (halted s) h = λ _. refl
  Step-IsHonest (changed s v) h = h

  Run-IsHonest : {s t : Watch W L} → Run kv dir impl own s t → IsHonest s → IsHonest t
  Run-IsHonest here h = h
  Run-IsHonest (then_step run step) h = Step-IsHonest step (Run-IsHonest run h)

  -- The watch returns only when it has been stopped.
  Run-stopped :
      {s t : Watch W L} (run : Run kv dir impl own s t)
      → s.place ≡ subscribing
      → t.place ≡ returned
      → t.stopped ≡ true
  Run-stopped run at = Run-IsHonest run (λ done. absurd (not_returned at done))
