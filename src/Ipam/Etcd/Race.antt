-- ===== src/Ipam/Etcd/Race.antt =====
-- Reserve of backend.go on two nodes at once. etcd answers one request after the other, and the lock of
-- the store does nothing, so a move is one request: the look for the address, the write of its name,
-- and the write of the last reserved address.
pub mod Calls
pub mod Order
use lbmanager.Base.{
  ◌≡◌, ◌≢◌, refl, ap, sym, ◌∙◌, ℕ, zero, suc, ◌+◌, ◌≤◌, String, Bool, true, false, not, ◌||◌,
  Option, none, some, List, [], ◌∷◌, ◌==◌, ==_self, string_eq, if◌then◌else◌, arith, Exec, Result,
  ok, err, ◌⊎◌, inl, inr, Bool-cases, Option-cases,
}
use lbmanager.Base.Monad.Exec.{pure, continue, ◌>>=◌}
use lbmanager.Net.{Ip, ip_string}
use lbmanager.Kvstore.{KvStore, store_key, is_exist, write}
use lbmanager.Kvstore.Laws.{IsReliable, is_some}
use lbmanager.Ipam.Etcd.{EtcdStore, reserve, last_ip_file}

-- How far a call of Reserve has come.
pub data Call : Type 0 where
  looking writing recording : Call
  finished : Result Bool → Call

abbrev looked : Result Bool → Call
looked (ok true) = finished (ok false)
looked (ok false) = writing
looked (err e) = finished (err e)

abbrev wrote : Result (Unit {0}) → Call
wrote (ok _) = recording
wrote (err e) = finished (err e)

abbrev recorded : Result (Unit {0}) → Call
recorded (ok _) = finished (ok true)
recorded (err e) = finished (err e)

module _ {W : Type 0} (kv : KvStore W) (s : EtcdStore) (a : Ip) where
  -- The next request of a call.
  unfoldable pub step : String → Call → W → Call × W
  step id looking w = let (r, w1) = is_exist kv s.item (ip_string a) w in (looked r, w1)
  step id writing w = let (r, w1) = write kv s.item (ip_string a) id w in (wrote r, w1)
  step id recording w =
      let (r, w1) = write kv s.item last_ip_file (ip_string a) w in (recorded r, w1)
  step id (finished r) w = (finished r, w)

  -- The requests of a call that are left, one after the other.
  abbrev step_on : String → Call × W → Call × W
  step_on id (c, w) = step id c w

  abbrev pub alone : String → W → Call × W
  alone id w = step_on id (step_on id (step id looking w))

  -- What is left of Reserve behind its write of the last address, and its call as it ends.
  abbrev done : Result (Unit {0}) → Exec W Bool
  done r = continue r (λ x. pure true)

  abbrev write_last : Result (Unit {0}) → Exec W Bool
  write_last r = continue r (λ x. write kv s.item last_ip_file (ip_string a) >>= λ y. pure true)

  abbrev write_both : String → Result Bool → Exec W Bool
  write_both id r = continue r λ found.
      if found
      then pure false
      else (write kv s.item (ip_string a) id >>= λ x.
          write kv s.item last_ip_file (ip_string a) >>= λ y. pure true)

  abbrev ended : Result Bool × W → Call × W
  ended (r, w) = (finished r, w)

  recorded_lem : (r : Result (Unit {0})) (w : W) → (recorded r, w) ≡ ended (done r w)
  recorded_lem (ok x) w = refl
  recorded_lem (err e) w = refl

  wrote_lem :
      (id : String) (r : Result (Unit {0})) (w : W)
      → step_on id (wrote r, w) ≡ ended (write_last r w)
  unfolding step
  wrote_lem id (err e) w = refl
  wrote_lem id (ok x) w =
      let (r, w1) = write kv s.item last_ip_file (ip_string a) w in recorded_lem r w1

  looked_lem :
      (id : String) (r : Result Bool) (w : W)
      → step_on id (step_on id (looked r, w)) ≡ ended (write_both id r w)
  unfolding step
  looked_lem id (err e) w = refl
  looked_lem id (ok true) w = refl
  looked_lem id (ok false) w = let (r, w1) = write kv s.item (ip_string a) id w in wrote_lem id r w1

  -- The three requests of a call, with no other in between, do what Reserve does, errors included.
  step-reserve :
      (id : String) (w : W)
      → alone id w ≡ (finished (reserve kv s id a w).0, (reserve kv s id a w).1)
  unfolding step reserve
  step-reserve id w = let (r, w1) = is_exist kv s.item (ip_string a) w in looked_lem id r w1
