-- ===== src/Ipam/Etcd/Race/Calls.antt =====
-- The calls of two nodes, by the requests that they have made.
use lbmanager.Base.{
  ◌≡◌, refl, ℕ, zero, suc, ◌≤◌, Bool, true, false, not, ◌||◌, string_eq, if◌then◌else◌, arith,
  Result, ok,
}
use lbmanager.Ipam.Etcd.Race.{Call, looking, writing, recording, finished}

-- The nodes are true and false.
abbrev pub same : Bool → Bool → Bool
same true y = y
same false y = not y

abbrev pub set : Bool → Call → (Bool → Call) → Bool → Call
set x c calls y = if same x y then c else calls y

abbrev pub both_looking : Bool → Call
both_looking x = looking

-- What a request makes of a call, once the address is taken.
abbrev pub advance : Call → Call
advance looking = finished (ok false)
advance writing = recording
advance recording = finished (ok true)
advance (finished r) = finished r

abbrev pub IsPast : Call → Type 0
IsPast looking = ⊥
IsPast writing = Unit
IsPast recording = Unit
IsPast (finished r) = Unit

abbrev pub times : ℕ → Call → Call
times zero c = c
times (suc n) c = times n (advance c)

-- A call that has ended stays so.
times-finished : (n : ℕ) (r : Result Bool) → times n (finished r) ≡ finished r
times-finished zero r = refl
times-finished (suc n) r = times-finished n r

from_writing : (n : ℕ) → 2 ≤ n → times n writing ≡ finished (ok true)
from_writing (suc (suc n)) h = times-finished n (ok true)
from_writing (suc zero) h = absurd (omega arith)
from_writing zero h = absurd (omega arith)

from_recording : (n : ℕ) → 1 ≤ n → times n recording ≡ finished (ok true)
from_recording (suc n) h = times-finished n (ok true)
from_recording zero h = absurd (omega arith)

from_looking : (n : ℕ) → 1 ≤ n → times n looking ≡ finished (ok false)
from_looking (suc n) h = times-finished n (ok false)
from_looking zero h = absurd (omega arith)

pub set-advance :
    (x y : Bool) (c : Call) (calls : Bool → Call)
    → c ≡ advance (calls x)
    → set x c calls y ≡ times (if same x y then 1 else 0) (calls y)
set-advance true true c calls e = e
set-advance true false c calls e = refl
set-advance false true c calls e = refl
set-advance false false c calls e = e

pub IsPast-set :
    (x y : Bool) (c : Call) (calls : Bool → Call)
    → IsPast c
    → IsPast (calls y)
    → IsPast (set x c calls y)
IsPast-set true true c calls h old = h
IsPast-set true false c calls h old = old
IsPast-set false true c calls h old = old
IsPast-set false false c calls h old = h

pub times-move :
    (b : Bool) (n : ℕ) (c : Call)
    → times n (times (if b then 1 else 0) c) ≡ times (if b then suc n else n) c
times-move true n c = refl
times-move false n c = refl

-- The calls after the first two moves.
abbrev pub opened : Bool → Bool → Bool → Call
opened x y z = if same x y then (if same x z then recording else looking) else writing

pub opened-same :
    (x z : Bool) (c : Call) → c ≡ recording → set x c (set x writing both_looking) z ≡ opened x x z
opened-same true true c e = e
opened-same true false c e = refl
opened-same false true c e = refl
opened-same false false c e = e

pub opened-other :
    (x z : Bool) (c : Call)
    → c ≡ writing
    → set (not x) c (set x writing both_looking) z ≡ opened x (not x) z
opened-other true true c e = refl
opened-other true false c e = e
opened-other false true c e = e
opened-other false false c e = refl

-- What the calls come to.
pub outcome :
    (x y z : Bool) (n : ℕ)
    → 3 ≤ (if same x z then suc (if same y z then suc n else n) else if same y z then suc n else n)
    → times n (opened x y z) ≡ finished (ok (same x z || not (same x y)))
outcome true true true n h = from_recording n (omega arith)
outcome true true false n h = from_looking n (omega arith)
outcome false false true n h = from_looking n (omega arith)
outcome false false false n h = from_recording n (omega arith)
outcome true false true n h = from_writing n (omega arith)
outcome true false false n h = from_writing n (omega arith)
outcome false true true n h = from_writing n (omega arith)
outcome false true false n h = from_writing n (omega arith)
