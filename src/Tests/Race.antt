-- ===== src/Tests/Race.antt =====
-- The witnesses for two calls of Reserve.
use lbmanager.Base.{
  ◌≡◌, refl, ◌≤◌, String, Bool, true, false, List, [], ◌∷◌, ok, if◌then◌else◌, arith,
}
use lbmanager.Net.{ip_string, dotted, decimal}
use lbmanager.Ipv4.{v4}
use lbmanager.Kvstore.{store_key}
use lbmanager.Kvstore.Memory.{memory_kv-IsReliable, view_of, find}
use lbmanager.Ipam.Etcd.Race.{finished}
use lbmanager.Ipam.Etcd.Race.Calls.{both_looking}
use lbmanager.Ipam.Etcd.Race.Order.{moves, play, play-reserve}
use lbmanager.Tests.Ipam.{kv, vips, world}

abbrev ids : Bool → String
ids first = if first then "l4-db" else "l4-web"

abbrev order : List Bool
order = true ∷ false ∷ true ∷ false ∷ []

enough : (z : Bool) → 3 ≤ moves z (true ∷ false ∷ order)
unfolding moves
enough true = omega arith
enough false = omega arith

-- Both nodes are granted the address; this is the one that asked second.
play-reserve_example :
    (play kv vips
        (v4 2886402050)
        ids
        (true ∷ false ∷ order)
        (record { calls = both_looking; world = world })).calls
      false
    ≡ finished (ok true)
unfolding memory_kv-IsReliable view_of find store_key ip_string dotted decimal
play-reserve_example =
    play-reserve kv vips (v4 2886402050) ids memory_kv-IsReliable world refl true false order enough
      false
