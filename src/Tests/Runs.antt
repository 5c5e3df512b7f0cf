-- ===== src/Tests/Runs.antt =====
-- The witnesses for sequences of calls.
use lbmanager.Base.{◌≡◌, refl, String, none, some, List, [], ◌∷◌, arith, All}
use lbmanager.Net.{parse_ip, by_mark, ip_string, dotted, decimal}
use lbmanager.Kvstore.{store_key}
use lbmanager.Kvstore.Memory.{memory_kv-IsReliable, view_of, find}
use lbmanager.Ipam.Allocator.Registry.{IsSingle}
use lbmanager.Ipam.Etcd.Table.{table}
use lbmanager.Ipam.State.Runs.{
  Call, required, released, name_of, Spares, play, play-IsSound, play-holder,
}
use lbmanager.Tests.Ipam.{alc, alc-IsRange}
use lbmanager.Tests.Registry.{table_here, registry_here, start, kept, single}

abbrev calls : List Call
calls = required "l4-db" ∷ released "l4-db" ∷ required "l4-mail" ∷ []

names : All (λ c. parse_ip (name_of c) ≡ none) calls
unfolding parse_ip by_mark
names = (refl, (refl, (refl, tt)))

db_web : ◌≡◌ {A = String} "l4-db" "l4-web" → ⊥
db_web h = absurd cc

spared : All (Spares "l4-web") calls
spared = (tt, (db_web, (tt, tt)))

play-IsSound_example :
    registry_here.IsKept (play alc 6 calls start).world
    × IsSingle (table_here.holder (play alc 6 calls start).world)
play-IsSound_example =
    play-IsSound alc 2886402049 2886402054 alc-IsRange table_here registry_here refl 6 (omega arith)
      calls start names (kept, single)

play-holder_example : table_here.holder (play alc 6 calls start).world 2886402049 ≡ some "l4-web"
unfolding table_here table memory_kv-IsReliable view_of find ip_string dotted decimal store_key
play-holder_example =
    play-holder alc 2886402049 2886402054 alc-IsRange table_here registry_here refl 6 (omega arith)
      calls start names (kept, single) "l4-web" spared 2886402049 (omega arith) refl
