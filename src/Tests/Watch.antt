-- ===== src/Tests/Watch.antt =====
-- Witnesses for the watch and for the roles of a node.
use lbmanager.Base.{
  ◌≡◌, refl, suc, String, true, false, some, List, [], ◌∷◌, ◌++◌, map, ◌==◌, string_eq, nat_eq,
  if◌then◌else◌, length, ok,
}
use lbmanager.Kvstore.{KvPair, KvStore, is_exist, watch_tree, write_dir, store_key}
use lbmanager.Kvstore.Memory.{Memory, memory_kv}
use lbmanager.Lbm.Handlers.{Impl, LbBase, handler_event}
use lbmanager.Lbm.Handlers.Keys.{has}
use lbmanager.Lbm.Watch.{
  ensure_dir, subscribe, subscribed, Watch, subscribing, handling, waiting, returned, Run, here,
  then_step, notified, closed, ended, halted, changed, events, in_world,
}
use lbmanager.Lbm.Watch.Keys.{served, Run-served}
use lbmanager.Lbm.Watch.Ends.{Run-deaf}
use lbmanager.Lbm.Roles.{Node, boot, play, handle, new_leader, started_leading, stopped_leading}
use lbmanager.Lbm.Roles.Overlap.{others, play-runs}

abbrev kv : KvStore Memory
kv = record { store = memory_kv; prefix = "/lb/" }

-- Load balancers that are their own names.
abbrev named : Impl Memory String
named = record {
  parse = λ key value. ok value;
  recover = λ b. b;
  config_service = λ lb w. (true, lb, w);
  delete_service = λ name w. (true, w);
  reload = λ w. w;
  name = λ lb. lb;
  cluster_name = λ lb. "c1";
  equal = λ a b. a == b;
}

abbrev empty : LbBase Memory String
empty = record { objects = []; elem = []; world = record { pairs = []; index = 1 } }

abbrev listing : List KvPair
listing = record { key = "/lb/l4/web"; value = "web"; last_index = 1 } ∷ []

abbrev at_work : Watch Memory String
at_work = record { place = handling; base = empty; stopped = false }

-- One listing comes, and then the channel is closed.
abbrev two_steps :
    Run kv "lb/l4/" named "c1" at_work
      (record at_work { place = waiting; base = handler_event named "c1" listing empty })
two_steps =
    then_step (then_step here (notified at_work listing refl))
      (closed (record at_work { base = handler_event named "c1" listing empty }) refl)

Run-served_example :
    has "/lb/l4/web" (handler_event named "c1" listing empty).elem
    ≡ served kv "lb/l4/" named "c1" "/lb/l4/web" (has "/lb/l4/web" empty.elem) (listing ∷ [])
Run-served_example = Run-served kv "lb/l4/" named "c1" two_steps "/lb/l4/web"

abbrev cut_off : Watch Memory String
cut_off = record { place = waiting; base = empty; stopped = false }

-- Another node writes to etcd.
abbrev written : Memory
written = record { pairs = listing; index = 2 }

abbrev one_change :
    Run kv "lb/l4/" named "c1" cut_off (record cut_off { base = record empty { world = written } })
one_change = then_step here (changed cut_off written)

Run-deaf_example : (waiting ≡ waiting) × (events kv "lb/l4/" named "c1" one_change ≡ [])
Run-deaf_example = Run-deaf kv "lb/l4/" named "c1" one_change refl refl

abbrev fresh : Watch Memory String
fresh = record { place = subscribing; base = empty; stopped = false }

abbrev followed : Watch Memory String
followed =
    in_world kv "lb/l4/" named "c1" (record fresh { place = handling })
      (subscribe kv "lb/l4/" empty.world).1

abbrev whole :
    Run kv "lb/l4/" named "c1" fresh (record followed { place = returned; stopped = true })
unfolding subscribe ensure_dir watch_tree memory_kv is_exist write_dir store_key
whole =
    then_step
      (then_step (then_step (then_step here (subscribed fresh refl refl)) (closed followed refl))
        (halted (record followed { place = waiting })))
      (ended (record followed { place = waiting; stopped = true }) refl refl)

play-runs_example :
    let k = others "node-1" ("node-2" ∷ "node-1" ∷ "node-3" ∷ []) in
    (leading idle : Node) × (play "node-1"
        (map new_leader ("node-2" ∷ "node-1" ∷ "node-3" ∷ []) ++ started_leading ∷ [])
        boot
      ≡ some leading)
    × (leading.is_leader ≡ true)
    × (length leading.runs ≡ (if k == 0 then 1 else k))
    × (leading.watches ≡ suc k)
    × (handle "node-1" stopped_leading leading ≡ some idle)
    × (idle.is_leader ≡ false)
    × (length idle.runs ≡ (if k == 0 then 1 else k))
    × (idle.watches ≡ suc (suc k))
play-runs_example = play-runs "node-1" ("node-2" ∷ "node-1" ∷ "node-3" ∷ [])
