-- ===== src/Keepalived/Steps.antt =====
-- Requests and rounds in any order.
use lbmanager.Base.{◌≡◌, refl, ◌⊎◌, inl, inr, true, is_ok, Bool-cases}
use lbmanager.Utils.{Host}
use lbmanager.Keepalived.{State, request, round, reload}

module _ {W : Type 0} (h : Host W) where
  -- One step: a handler asks for a reload, the loop runs a round, or the world changes by itself.
  pub data Step : State W → State W → Type 0 where
    asked : (s : State W) → Step s (request s)
    ran : (s : State W) → Step s (round h s)
    changed : (s : State W) (w : W) → Step s (record s { world = w })

  pub data Steps : State W → State W → Type 0 where
    here : (s : State W) → Steps s s
    then_step : (s t u : State W) → Steps s t → Step t u → Steps s u

  -- Some round of the run has reloaded keepalived.
  abbrev IsReloading : {s t : State W} → Step s t → Type 0
  IsReloading (asked s) = ⊥
  IsReloading (changed s w) = ⊥
  IsReloading (ran s) = (s.to_reload ≡ true) × (is_ok (reload h s.world).0 ≡ true)

  abbrev pub HasReloaded : {s t : State W} → Steps s t → Type 0
  HasReloaded (here s) = ⊥
  HasReloaded (then_step s t u run step) = HasReloaded run ⊎ IsReloading step

  Step-keeps :
      {s t : State W} (step : Step s t)
      → s.to_reload ≡ true
      → (t.to_reload ≡ true) ⊎ IsReloading step
  unfolding request round
  Step-keeps (asked s) e = inl refl
  Step-keeps (changed s w) e = inl e
  Step-keeps (ran s) e = elim (Bool-cases (is_ok (reload h s.world).0)) [
    | inl served ↦ inr (e, served)
    | inr failed ↦ inl (rw (e, failed) refl)
  ]

  -- A reload that was asked for is still to be done after any run of requests, rounds and changes of
  -- the world, unless a round of the run has reloaded keepalived.
  request-kept :
      {s t : State W} (run : Steps s t)
      → s.to_reload ≡ true
      → (t.to_reload ≡ true) ⊎ HasReloaded run
  request-kept (here s) e = inl e
  request-kept (then_step s t u run step) e = elim (request-kept run e) [
    | inl still ↦ elim (Step-keeps step still) [ inl k ↦ inl k | inr r ↦ inr (inr r) ]
    | inr r ↦ inr (inl r)
  ]
