-- ===== src/Ipam/Allocator/Laws.antt =====
-- What the allocator relies on of its store, for IPv4 addresses: a table of holders. The store in
-- etcd fills this interface (Ipam/Etcd/Table.antt).
use lbmanager.Base.{
  ◌≡◌, ◌≢◌, ℕ, ◌<◌, String, true, false, Option, none, some, ◌==◌, nat_eq, if◌then◌else◌, ok,
}
use lbmanager.Ipv4.{v4, v4_mapped}
use lbmanager.Ipam.Backend.{Store}

pub record IsTable {W : Type 0} (st : Store W) : Type 0 where
  -- who holds the address
  pub holder : W → ℕ → Option String
  pub lock_lem : (w : W) → st.lock w ≡ (ok tt, w)
  pub unlock_lem : (w : W) → st.unlock w ≡ (ok tt, w)
  -- the two forms of an address are one address
  pub reserve-v4_mapped :
      (id : String) (n : ℕ) (w : W) → st.reserve id (v4_mapped n) w ≡ st.reserve id (v4 n) w
  pub reserve_taken :
      (id : String) (n : ℕ) (w : W)
      → n < 4294967296
      → holder w n ≢ none
      → st.reserve id (v4 n) w ≡ (ok false, w)
  pub reserve_free :
      (id : String) (n : ℕ) (w : W)
      → n < 4294967296
      → holder w n ≡ none
      → (st.reserve id (v4 n) w).0 ≡ ok true
  pub holder-reserve :
      (id : String) (n m : ℕ) (w : W)
      → n < 4294967296
      → m < 4294967296
      → holder w n ≡ none
      → holder (st.reserve id (v4 n) w).1 m ≡ (if n == m then some id else holder w m)
