-- ===== src/Lbm/Watch/Keys.antt =====
-- The keys that are served along a run of the watch.
use lbmanager.Base.{◌≡◌, refl, ap, sym, ◌∙◌, String, Bool, ◌&&◌, ◌||◌, List, [], ◌∷◌, ◌++◌}
use lbmanager.Kvstore.{KvPair, KvStore}
use lbmanager.Lbm.Handlers.{Impl, is_listed}
use lbmanager.Lbm.Handlers.Keys.{has, is_offered, handler_event-elem}
use lbmanager.Lbm.Watch.{
  Watch, Step, Run, notified, retried, subscribed, closed, ended, halted, changed, here, then_step,
  events, event_of,
}

module _ {W L : Type 0} (kv : KvStore W) (dir : String) (impl : Impl W L) (own : String) where
  -- Whether a key is served after the listings, in order, when it was or was not at first: it has to
  -- stay listed, and to be offered once if it was not served.
  unfoldable pub served : String → Bool → List (List KvPair) → Bool
  served k before [] = before
  served k before (li ∷ lis) = served k (is_listed k li && (before || is_offered impl own k li)) lis

  served-append :
      (k : String) (b : Bool) (xs ys : List (List KvPair))
      → served k b (xs ++ ys) ≡ served k (served k b xs) ys
  unfolding served
  served-append k b [] ys = refl
  served-append k b (li ∷ xs) ys =
      served-append k (is_listed k li && (b || is_offered impl own k li)) xs ys

  Step-served :
      (k : String) {t u : Watch W L} (step : Step kv dir impl own t u)
      → has k u.base.elem ≡ served k (has k t.base.elem) (event_of kv dir impl own step)
  unfolding served
  Step-served k (notified s li at) = handler_event-elem impl own li s.base k
  Step-served k (retried s at failed) = refl
  Step-served k (subscribed s at ready) = refl
  Step-served k (closed s at) = refl
  Step-served k (ended s at stop) = refl
  Step-served k (halted s) = refl
  Step-served k (changed s w) = refl

  -- Whatever the failures, the retries and the changes of the world in between, the keys that the
  -- watch serves are those that the listings that it was sent say.
  pub Run-served :
      {s t : Watch W L} (run : Run kv dir impl own s t) (k : String)
      → has k t.base.elem ≡ served k (has k s.base.elem) (events kv dir impl own run)
  unfolding served
  Run-served here k = refl
  Run-served {s} (then_step run step) k =
      Step-served k step
      ∙ ap (λ b. served k b (event_of kv dir impl own step)) (Run-served run k)
      ∙ sym (
          served-append k (has k s.base.elem) (events kv dir impl own run)
            (event_of kv dir impl own step))
