-- ===== src/Kvstore/Start.antt =====
-- WaitForStart.
use lbmanager.Base.{
  ◌≡◌, ◌↔◌, ap, sym, ◌∙◌, ℕ, zero, suc, ◌<◌, true, false, arith, Bool-cases, inl, inr,
}
use lbmanager.Kvstore.{KvStore, wait_for_start, answered}

module _ {W : Type 0} (kv : KvStore W) where
  -- The world behind so many calls of List.
  unfoldable pub listed : ℕ → W → W
  listed zero w = w
  listed (suc k) w = listed k (kv.store.list kv.prefix w).1

  -- The call number k, from 0, of List gets an answer from etcd.
  abbrev pub IsUp : W → ℕ → Type 0
  IsUp w k = answered (kv.store.list kv.prefix (listed k w)).0 ≡ true

  abbrev next_world : W → W
  next_world w = (kv.store.list kv.prefix w).1

  round_up : (n : ℕ) (w : W) → IsUp w 0 → wait_for_start kv (suc n) w ≡ (true, next_world w)
  unfolding wait_for_start listed
  round_up n w up = rw (wait_for_start, up)

  round_down :
      (n : ℕ) (w : W)
      → answered (kv.store.list kv.prefix w).0 ≡ false
      → wait_for_start kv (suc n) w ≡ wait_for_start kv n (next_world w)
  unfolding wait_for_start
  round_down n w down = rw (wait_for_start, down)

  -- The first answer within the rounds ends the waiting.
  started : (n k : ℕ) (w : W) → k < n → IsUp w k → (wait_for_start kv n w).0 ≡ true
  unfolding listed
  started zero k w lt up = absurd (omega arith)
  started (suc n) zero w lt up = ap (λ r. r.0) (round_up n w up)
  started (suc n) (suc k) w lt up = elim (Bool-cases (answered (kv.store.list kv.prefix w).0)) [
    | inl now ↦ ap (λ r. r.0) (round_up n w now)
    | inr down ↦ rw (round_down n w down) (started n k (next_world w) (omega arith) up)
  ]

  has_answer : (n : ℕ) (w : W) → (wait_for_start kv n w).0 ≡ true → (k : ℕ) × (k < n) × IsUp w k
  unfolding wait_for_start listed
  has_answer zero w h = absurd (cc)
  has_answer (suc n) w h = elim (Bool-cases (answered (kv.store.list kv.prefix w).0)) [
    | inl now ↦ (0, omega arith, now)
    | inr down ↦
        let (k, lt, up) =
          has_answer n (next_world w) (ap (λ r. r.0) (sym (round_down n w down)) ∙ h) in
        (suc k, omega arith, up)
  ]

  -- WaitForStart has returned after so many rounds exactly when etcd answers List in one of them.
  pub wait_for_start_iff :
      (rounds : ℕ) (w : W)
      → ((wait_for_start kv rounds w).0 ≡ true) ↔ ((k : ℕ) × (k < rounds) × IsUp w k)
  wait_for_start_iff rounds w = (has_answer rounds w, λ (k, lt, up). started rounds k w lt up)
