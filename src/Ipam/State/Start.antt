-- ===== src/Ipam/State/Start.antt =====
-- Init of ipam.go on a configured network, and RequireIP on what it has set up.
use lbmanager.Base.{
  ◌≡◌, ◌≢◌, ◌↔◌, refl, ℕ, ◌+◌, ◌-◌, ◌*◌, ◌/◌, ◌%◌, ◌^◌, ◌<◌, ◌≤◌, String, true, false, Option, none,
  some, [], ok, is_ok, nat_eq, arith,
}
use lbmanager.Net.{ipnet_string, parse_ip}
use lbmanager.Ipv4.Cidr.{host_net, parse_host_cidr-ipnet_string}
use lbmanager.Kvstore.{KvStore, store_key, is_exist}
use lbmanager.Kvstore.Laws.{IsReliable, IsDirectory, is_some}
use lbmanager.Ipam.Etcd
use lbmanager.Ipam.Etcd.{EtcdStore, etcd_store}
use lbmanager.Ipam.Etcd.Table.{table, held}
use lbmanager.Ipam.Etcd.Names.{registry, IsOwn}
use lbmanager.Ipam.Etcd.Recover.{recover-by_value, by_value}
use lbmanager.Ipam.Allocator
use lbmanager.Ipam.Allocator.Config.{IpAllocator, new_ipam_conf, new_ip_allocator}
use lbmanager.Ipam.Allocator.Network.Start.{allocator_of, new_ip_allocator-IsRange}
use lbmanager.Ipam.State.{data_dir, init, require_ip}
use lbmanager.Lbm.Start.Apart.{store_of}
use lbmanager.Ipam.State.Again.{require_ip-fails_iff}

present : (o : Option String) → o ≢ none → is_some o ≡ true
present none h = absurd (h refl)
present (some x) h = refl

rounds : (n p fuel : ℕ) → p < fuel → n / p * p + (p - 2) - (n + 1) < fuel
rounds n p fuel h = grind arith

-- etcd answers, and has the directory of the network.
module _ {W : Type 0} (kv : KvStore W) (l : IsReliable kv.store) (name : String)
    (d : IsDirectory kv.store l (store_key kv (store_of name).item "")) (w : W)
    (there : d.IsThere w) (made : l.view w (store_key kv data_dir name) ≢ none) where
  new_lem : Etcd.new kv name data_dir w ≡ (ok (store_of name), w)
  unfolding Etcd.new is_exist
  new_lem = rw (l.exists_lem, present (l.view w (store_key kv data_dir name)) made) refl

  -- The network of the configuration.
  module _ (n k : ℕ) (lo : 16777215 ≤ n) (hi : n < 4294967295) (le : k ≤ 30)
      (fits : n % 2 ^ (32 - k) + 3 ≤ 2 ^ (32 - k)) where
    abbrev pub ready : IpAllocator W
    ready = allocator_of name n k (etcd_store kv (store_of name))

    recover_lem : Allocator.recover ready w ≡ (ok (by_value [] (d.listed w)), w)
    unfolding Allocator.recover etcd_store
    recover_lem = rw (recover-by_value kv l (store_of name) d w there) refl

    pub init_lem :
        init kv name (ipnet_string (host_net n k)) w ≡ (ok (ready, by_value [] (d.listed w)), w)
    unfolding init
    init_lem =
        let s = etcd_store kv (store_of name) in
        let built : new_ip_allocator (new_ipam_conf name (host_net n k)) s ≡ ok ready =
          (new_ip_allocator-IsRange name n k s lo hi le fits).0 in
        rw
          (
            init,
            parse_host_cidr-ipnet_string n k (omega arith) (omega arith),
            new_lem,
            built,
            recover_lem,
          )
          refl

    -- While etcd answers, has the network's key, and has in the network's directory nothing but
    -- what the store writes, on a network that ParseCIDR reads with an IPv4 host of
    -- 0.255.255.255 or more, a mask of 30 bits at most and at least two addresses behind the
    -- host: Init succeeds. With what it has set up, and more fuel than the network has
    -- addresses, RequireIP for a name that asks for no address in particular, and is not the
    -- text of one, fails exactly if the name holds none and every address behind the host, but
    -- for the network's last, has a holder.
    pub init-require_ip :
        (own : IsOwn kv l (store_of name) d w) (id : String) (not_address : parse_ip id ≡ none)
        (fuel : ℕ) (enough : 2 ^ (32 - k) < fuel)
        → (init kv name (ipnet_string (host_net n k)) w ≡ (ok (ready, by_value [] (d.listed w)), w))
          × ((is_ok
                  (require_ip ready fuel id ""
                    (record { cache = by_value [] (d.listed w); world = w })).0
                ≡ false)
              ↔ (((m : ℕ) → m < 4294967296 → held kv l (store_of name) w m ≢ some id)
                  × ((m : ℕ)
                      → n + 1 ≤ m
                      → m ≤ n / 2 ^ (32 - k) * 2 ^ (32 - k) + (2 ^ (32 - k) - 2)
                      → held kv l (store_of name) w m ≢ none)))
    unfolding table registry new_ipam_conf
    init-require_ip own id not_address fuel enough =
        let s = etcd_store kv (store_of name) in
        let (_, range) = new_ip_allocator-IsRange name n k s lo hi le fits in
        (
          init_lem,
          (require_ip-fails_iff ready (n + 1) (n / 2 ^ (32 - k) * 2 ^ (32 - k) + (2 ^ (32 - k) - 2))
              range (table kv l (store_of name)) (registry kv l (store_of name) d) refl fuel
              (rounds n (2 ^ (32 - k)) fuel enough) id not_address
              (record { cache = by_value [] (d.listed w); world = w }) own).0,
        )
