-- ===== src/Tests/Network.antt =====
-- Witnesses for the range of a network and the start of package ipam.
use text.Mathlib.TextLemmas.{append_cancel_left, append_assoc, cons-append}
use lbmanager.Base.{
  ◌≡◌, ◌≢◌, ◌↔◌, refl, ap, sym, ◌∙◌, ℕ, ◌<◌, ◌≤◌, String, ◌<>◌, false, Option, none, some, [], ◌∷◌,
  arith, ok, is_ok, ◌==◌, ==_iff, string_eq, nat_eq, Bool-cases, inl, inr,
}
use lbmanager.Net.{ip_string, dotted, decimal, ipnet_string, parse_ip, by_mark}
use lbmanager.Ipv4.{v4}
use lbmanager.Ipv4.Cidr.{host_net}
use lbmanager.Kvstore.{store_key}
use lbmanager.Kvstore.Laws.{IsDirectory}
use lbmanager.Kvstore.Keys.{store_key_inj}
use lbmanager.Kvstore.Memory.{Memory, memory_kv, memory_kv-IsReliable, view_of, find}
use lbmanager.Kvstore.Memory.Listing.{memory_kv-IsDirectory}
use lbmanager.Ipam.Etcd.{etcd_store}
use lbmanager.Ipam.Etcd.Names.{IsOwn}
use lbmanager.Ipam.Etcd.Recover.{by_value}
use lbmanager.Ipam.Etcd.Table.{held}
use lbmanager.Ipam.Allocator.Config.{new_ip_allocator, new_ipam_conf}
use lbmanager.Ipam.Allocator.Search.{IsRange}
use lbmanager.Ipam.Allocator.Network.Start.{allocator_of, new_ip_allocator-IsRange}
use lbmanager.Ipam.State.{data_dir, init, require_ip}
use lbmanager.Ipam.State.Start.{init-require_ip}
use lbmanager.Tests.Ipam.{kv, vips}

new_ip_allocator-IsRange_example :
    (new_ip_allocator (new_ipam_conf "vips" (host_net 2886402048 29)) (etcd_store kv vips)
      ≡ ok (allocator_of "vips" 2886402048 29 (etcd_store kv vips)))
    × IsRange (allocator_of "vips" 2886402048 29 (etcd_store kv vips)) 2886402049 2886402054
new_ip_allocator-IsRange_example =
    new_ip_allocator-IsRange "vips" 2886402048 29 (etcd_store kv vips) (omega arith) (omega arith)
      (omega arith) (omega arith)

-- The network's directory, and one address in it.
abbrev world : Memory
world = record {
  pairs =
      record { key = "/lb/ipam/vips/172.11.0.1"; value = "l4-web"; last_index = 2 }
      ∷ record { key = "/lb/ipam/vips"; value = ""; last_index = 1 }
      ∷ [];
  index = 3;
}

directory : IsDirectory memory_kv memory_kv-IsReliable (store_key kv vips.item "")
unfolding store_key
directory = memory_kv-IsDirectory "/lb/ipam/vips"

made : view_of world (store_key kv data_dir "vips") ≢ none
unfolding view_of find store_key
made h = absurd cc

name_lem : parse_ip "l4-db" ≡ none
unfolding parse_ip by_mark
name_lem = refl

absent : {x : String} → ◌≡◌ {A = Option String} none (some x) → ⊥
absent h = absurd cc

one : ◌≡◌ {A = ℕ} 0 1 → ⊥
one h = omega arith

abbrev is_empty : String → ℕ
is_empty String.[] = 0
is_empty (String.◌∷◌ c s) = 1

not_directory : (k : String) → "/lb/ipam/vips" ≢ store_key kv vips.item k
unfolding store_key
not_directory k e =
    let item : "ipam/vips" ≡ "ipam/vips/" <> k =
      append_cancel_left "/lb/" "ipam/vips" ("ipam/vips/" <> k) e in
    let rest : "" ≡ "/" <> k =
      append_cancel_left "ipam/vips" "" ("/" <> k) (item ∙ append_assoc "ipam/vips" "/" k) in
    absurd (one (ap is_empty (rest ∙ cons-append "/" "" k)))

found_key :
    (k v : String)
    → view_of world (store_key kv vips.item k) ≡ some v
    → k ≡ ip_string (v4 2886402049)
unfolding view_of find ip_string dotted decimal store_key
found_key k v h = elim (Bool-cases ("/lb/ipam/vips/172.11.0.1" == store_key kv vips.item k)) [
  | inl e ↦
      sym (store_key_inj kv vips.item "172.11.0.1" k ((==_iff _ (store_key kv vips.item k)).0 e))
  | inr e ↦ elim (Bool-cases ("/lb/ipam/vips" == store_key kv vips.item k)) [
    | inl e' ↦ absurd (not_directory k ((==_iff _ (store_key kv vips.item k)).0 e'))
    | inr e' ↦ absurd (absent (rw (e, e') at h))
  ]
]

own : IsOwn kv memory_kv-IsReliable vips directory world
unfolding directory memory_kv-IsDirectory memory_kv-IsReliable
own = (tt, λ k v lacks h. inr (2886402049, omega arith, found_key k v h))

init-require_ip_example :
    (init kv "vips" (ipnet_string (host_net 2886402048 29)) world ≡ (
      ok (
        allocator_of "vips" 2886402048 29 (etcd_store kv vips),
        by_value [] (directory.listed world),
      ),
      world,
    ))
    × ((is_ok
            (require_ip
              (allocator_of "vips" 2886402048 29 (etcd_store kv vips))
              9
              "l4-db"
              ""
              (record { cache = by_value [] (directory.listed world); world = world })).0
          ≡ false)
        ↔ (((m : ℕ) → m < 4294967296 → held kv memory_kv-IsReliable vips world m ≢ some "l4-db")
            × ((m : ℕ)
                → 2886402049 ≤ m
                → m ≤ 2886402054
                → held kv memory_kv-IsReliable vips world m ≢ none)))
unfolding directory memory_kv-IsDirectory
init-require_ip_example =
    init-require_ip kv memory_kv-IsReliable "vips" directory world tt made 2886402048 29
      (omega arith) (omega arith) (omega arith) (omega arith) own "l4-db" name_lem 9 (omega arith)
