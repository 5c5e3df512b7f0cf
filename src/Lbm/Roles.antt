-- ===== src/Lbm/Roles.antt =====
-- The callbacks of the election in pkg/leader/leader.go, with LBBase.Run and LBBase.Change of
-- pkg/lbm/lbm.go, as far as the channels and the goroutines go. A channel is a number, in the order
-- of making; those that Run makes for its watch are left out. A call of Run up to its wait for `stopCh` is one step here, and so is its end: the
-- calls go on at once when the channel that they wait for is closed.
pub mod Overlap
use lbmanager.Base.{
  ℕ, zero, suc, String, Bool, true, false, not, ◌||◌, Option, none, some, List, [], ◌∷◌, ◌==◌,
  nat_eq, string_eq, if◌then◌else◌, any,
}

pub record Node : Type 0 where
  -- the field Stop of LBBase
  pub stop : Option ℕ
  pub is_leader : Bool
  -- the channel that client-go gave to OnStartedLeading
  pub term : Option ℕ
  -- how many channels have been made, and which of them have been closed
  pub next : ℕ
  pub closed : List ℕ
  -- the calls of Run that wait, each by its `stopCh`
  pub runs : List ℕ
  -- how many watches have been started: a watch outlasts its call of Run until libkv closes the
  -- channel of its events (Lbm/Watch), so none is taken away here
  pub watches : ℕ

unfoldable pub boot : Node
boot = record {
  stop = none;
  is_leader = false;
  term = none;
  next = 0;
  closed = [];
  runs = [];
  watches = 0;
}

unfoldable pub without : ℕ → List ℕ → List ℕ
without c [] = []
without c (r ∷ rs) = let rest = without c rs in if r == c then rest else r ∷ rest

abbrev is_closed : ℕ → List ℕ → Bool
is_closed c = any (λ d. d == c)

-- close(c): the call of Run that waits for c goes on to its end, in which it asks its watch to stop;
-- a second close panics, which is `none`.
unfoldable pub close : ℕ → Node → Option Node
unfolding without
close c n =
    if is_closed c n.closed
    then none
    else some (record n { closed = c ∷ n.closed; runs = without c n.runs })

abbrev pub close_if : Option ℕ → Node → Option Node
close_if none n = some n
close_if (some c) n = close c n

abbrev pub and_then : Option Node → (Node → Option Node) → Option Node
and_then none f = none
and_then (some n) f = f n

-- LBBase.Run(isLeader, stopCh), which starts a watch before it waits.
unfoldable pub run : Bool → ℕ → Node → Option Node
unfolding close
run is_leader stop_ch n = and_then (if is_leader then close_if n.stop n else some n) λ n1.
    some (record n1 { is_leader = is_leader; runs = stop_ch ∷ n1.runs; watches = suc n1.watches })

-- LBBase.Change
unfoldable pub change : Node → Option Node
unfolding run
change n = run false n.next (record n { stop = some n.next; next = suc n.next })

-- What client-go calls: it makes a channel and starts OnStartedLeading with it; it closes that
-- channel before OnStoppedLeading; it calls OnNewLeader at each leader that it observes anew.
pub data Callback : Type 0 where
  started_leading stopped_leading : Callback
  new_leader : String → Callback

-- The callbacks that Run of leader.go sets, on a node of the name `own`.
unfoldable pub handle : String → Callback → Node → Option Node
unfolding run change
handle own started_leading n = run true n.next (record n { term = some n.next; next = suc n.next })
handle own stopped_leading n = and_then (close_if n.term n) change
handle own (new_leader identity) n = if not (own == identity) then change n else some n

unfoldable pub play : String → List Callback → Node → Option Node
unfolding handle
play own [] n = some n
play own (c ∷ cs) n = and_then (handle own c n) (play own cs)
