-- ===== src/Stats/Server.antt =====
-- pkg/stats/lvs.go: the loop that serves the statistics. net/http and strconv.Itoa are the interface
-- `Http`; the sleep after a failed ListenAndServe is not modelled.
use lbmanager.Base.{
  ◌≡◌, refl, sym, ℕ, zero, suc, ℤ, String, ◌<>◌, Bool, true, false, Option, none, some, leb, arith,
  Exec,
}

pub record Http (W : Type 0) : Type 0 where
  pub itoa : ℤ → String
  -- http.HandleFunc of a pattern; `none` is a panic
  pub handle_func : String → W → Option W
  pub listen_and_serve : String → Exec W (Unit {0})

-- What net/http says of its patterns: a second registration of one panics, and none is taken back.
pub record IsMux {W : Type 0} (h : Http W) : Type 0 where
  pub has : W → String → Bool
  pub handle_free :
      (p : String) (w : W)
      → has w p ≡ false
      → (w' : W) × (h.handle_func p w ≡ some w') × (has w' p ≡ true)
  pub handle_taken : (p : String) (w : W) → has w p ≡ true → h.handle_func p w ≡ none
  pub has-listen : (p a : String) (w : W) → has w p ≡ true → has (h.listen_and_serve a w).1 p ≡ true

module _ {W : Type 0} (h : Http W) (port : ℤ) where
  abbrev serve : Option W → Option W
  serve none = none
  serve (some w) = some (h.listen_and_serve (":" <> h.itoa port) w).1

  -- A round of the loop, which goes on whatever ListenAndServe gives.
  unfoldable pub round : W → Option W
  round w = serve (h.handle_func "/stats" w)

  abbrev and_then : Option W → (W → Option W) → Option W
  and_then none f = none
  and_then (some w) f = f w

  -- So many rounds of getCps.
  unfoldable pub get_cps : ℕ → W → Option W
  unfolding round
  get_cps zero w = some w
  get_cps (suc n) w = and_then (round w) (get_cps n)

abbrev pub is_running : {W : Type 0} → Option W → Bool
is_running none = false
is_running (some _) = true

module _ {W : Type 0} (h : Http W) (port : ℤ) (mux : IsMux h) where
  round_taken : (w : W) → mux.has w "/stats" ≡ true → round h port w ≡ none
  unfolding round
  round_taken w taken = rw (mux.handle_taken "/stats" w taken) refl

  second_round : (n : ℕ) → leb (suc (suc n)) 1 ≡ false
  second_round n = ground arith

  -- Unless /stats has been registered before, the loop that serves the statistics gets through its
  -- first round, and panics in its second.
  pub get_cps-running :
      (rounds : ℕ) (w : W)
      → mux.has w "/stats" ≡ false
      → is_running (get_cps h port rounds w) ≡ leb rounds 1
  unfolding get_cps round
  get_cps-running zero w free = refl
  get_cps-running (suc zero) w free =
      let (w', e, has) = mux.handle_free "/stats" w free in rw e refl
  get_cps-running (suc (suc n)) w free =
      let (w', e, has) = mux.handle_free "/stats" w free in
      let kept = mux.has-listen "/stats" (":" <> h.itoa port) w' has in
      rw (get_cps, e, round_taken (h.listen_and_serve (":" <> h.itoa port) w').1 kept)
        (sym (second_round n))
