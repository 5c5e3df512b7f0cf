-- ===== src/Ipam/Etcd/Table.antt =====
-- The store in etcd is a table of holders, if etcd answers: it fills the allocator's interface.
use lbmanager.Base.{
  ◌≡◌, ◌≢◌, refl, ap, ℕ, ◌<◌, String, true, false, Option, none, some, ◌==◌, ==_iff, ==_self,
  string_eq, nat_eq, if◌then◌else◌, arith, ok,
}
use lbmanager.Net.{ip_string, parse_ip, by_mark}
use lbmanager.Ipv4.{v4, v4_mapped}
use lbmanager.Ipv4.Text.{parse_ip-ip_string, ip_string-v4_inj, ip_string-v4_ne, ip_string-v4_in_v6}
use lbmanager.Kvstore.{KvStore, store_key, is_exist, write, read}
use lbmanager.Kvstore.Laws.{IsReliable, is_some}
use lbmanager.Kvstore.Keys.{store_key-beq}
use lbmanager.Ipam.Etcd.{EtcdStore, etcd_store, reserve, last_ip_file, last_reserved_ip}
use lbmanager.Ipam.Allocator.Laws.{IsTable}

pub ip_string-beq :
    (n m : ℕ) → n < 4294967296 → m < 4294967296 → (ip_string (v4 n) == ip_string (v4 m)) ≡ (n == m)
ip_string-beq n m hn hm =
    ground (arith, ==_iff (ip_string (v4 n)) (ip_string (v4 m)), ip_string-v4_inj n m hn hm)

last_ip_file_ne : (n : ℕ) → n < 4294967296 → (last_ip_file == ip_string (v4 n)) ≡ false
unfolding parse_ip by_mark
last_ip_file_ne n h =
    ground (arith, ==_iff last_ip_file (ip_string (v4 n)), ip_string-v4_ne n last_ip_file h refl)

present : (o : Option String) → o ≢ none → is_some o ≡ true
present none h = absurd (h refl)
present (some x) h = refl

module _ {W : Type 0} (kv : KvStore W) (l : IsReliable kv.store) (s : EtcdStore) where
  -- The key of an address.
  abbrev pub key_of : ℕ → String
  key_of n = store_key kv s.item (ip_string (v4 n))

  abbrev pub held : W → ℕ → Option String
  held w n = l.view w (key_of n)

  pub reserve-taken :
      (id : String) (n : ℕ) (w : W) → held w n ≢ none → reserve kv s id (v4 n) w ≡ (ok false, w)
  unfolding reserve is_exist
  reserve-taken id n w h = rw (l.exists_lem, present (held w n) h)

  -- The two writes, and the world behind them.
  abbrev pub after : String → ℕ → W → W
  after id n w =
      (kv.store.put (store_key kv s.item last_ip_file) (ip_string (v4 n)) none
        (kv.store.put (key_of n) id none w).1).1

  -- Reserve goes by the text of the address.
  pub reserve-v4_mapped :
      (id : String) (n : ℕ) (w : W) → reserve kv s id (v4_mapped n) w ≡ reserve kv s id (v4 n) w
  unfolding reserve
  reserve-v4_mapped id n w = rw (reserve, ip_string-v4_in_v6) refl

  pub reserve-free :
      (id : String) (n : ℕ) (w : W)
      → held w n ≡ none
      → reserve kv s id (v4 n) w ≡ (ok true, after id n w)
  unfolding reserve is_exist write
  reserve-free id n w h = rw (l.exists_lem, h, l.put_ok, l.put_ok)

  pub held-after :
      (id : String) (n m : ℕ) (w : W)
      → n < 4294967296
      → m < 4294967296
      → held (after id n w) m ≡ (if n == m then some id else held w m)
  held-after id n m w hn hm = rw (
    l.view-put,
    store_key-beq,
    last_ip_file_ne m hm,
    l.view-put,
    store_key-beq,
    ip_string-beq n m hn hm,
  )

  unfoldable pub table : IsTable (etcd_store kv s)
  unfolding etcd_store
  table = record {
    holder = held;
    lock_lem = λ w. refl;
    unlock_lem = λ w. refl;
    reserve-v4_mapped = λ id n w. reserve-v4_mapped id n w;
    reserve_taken = λ id n w b h. reserve-taken id n w h;
    reserve_free = λ id n w b h. ap (λ x. x.0) (reserve-free id n w h);
    holder-reserve = λ id n m w hn hm h. rw (reserve-free id n w h) (held-after id n m w hn hm);
  }

  -- While etcd answers, the store in etcd is the table of holders that the allocator relies on.
  pub etcd_store-IsTable : IsTable (etcd_store kv s)
  etcd_store-IsTable = table

  -- While etcd answers, LastReservedIP reads the address back that Reserve has just reserved.
  last_reserved-reserve :
      (id : String) (n : ℕ) (w : W)
      → n < 4294967296
      → held w n ≡ none
      → (let w' = (reserve kv s id (v4 n) w).1 in
          last_reserved_ip kv s w' ≡ (ok (some (v4_mapped n)), w'))
  unfolding last_reserved_ip read
  last_reserved-reserve id n w hn h =
      let key = store_key kv s.item last_ip_file in
      let (p, e, v) =
        l.get_some key (ip_string (v4 n)) (after id n w) (rw (l.view-put, ==_self key)) in
      rw (reserve-free id n w h) (rw (e, v, parse_ip-ip_string n hn))
