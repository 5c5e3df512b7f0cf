-- ===== src/Ipam/Allocator/Registry.antt =====
-- What ipam.go relies on of the allocator's store: beside the table of holders, the search for a
-- name's address and its release. The store in etcd fills this interface (Ipam/Etcd/Names.antt).
use mathlib.Core.Option
use lbmanager.Base.{◌≡◌, ◌≢◌, ℕ, ◌<◌, String, Option, none, some, ◌==◌, nat_eq, if◌then◌else◌, ok}
use lbmanager.Net.{parse_ip}
use lbmanager.Ipv4.{v4, v4_mapped}
use lbmanager.Ipam.Backend.{Store}
use lbmanager.Ipam.Allocator.Laws.{IsTable}
use lbmanager.Ipam.Allocator.Get.{address_read}

-- The name holds this address, or none at all.
abbrev pub Holds : (ℕ → Option String) → String → Option ℕ → Type 0
Holds holder id none = (m : ℕ) → m < 4294967296 → holder m ≢ some id
Holds holder id (some n) = (n < 4294967296) × (holder n ≡ some id)

-- No name holds two addresses.
abbrev pub IsSingle : (ℕ → Option String) → Type 0
IsSingle holder =
    (n m : ℕ) (id : String)
    → n < 4294967296
    → m < 4294967296
    → holder n ≡ some id
    → holder m ≡ some id
    → n ≡ m

-- Names are told from the recorded address by not being the text of an address.
pub record IsRegistry {W : Type 0} (st : Store W) (t : IsTable st) : Type 1 where
  -- the world has nothing in this store but what the store itself has written
  pub IsKept : W → Type 0
  pub exist_lem :
      (id : String) (w : W)
      → parse_ip id ≡ none
      → IsKept w
      → (o : Option ℕ) × (st.exist id w ≡ (ok (Option.map v4_mapped o), w))
        × Holds (t.holder w) id o
  pub release_none :
      (id : String) (w : W) → st.exist id w ≡ (ok none, w) → st.release_by_id id w ≡ (ok tt, w)
  pub release_some :
      (id : String) (n : ℕ) (w : W)
      → IsKept w
      → n < 4294967296
      → t.holder w n ≡ some id
      → st.exist id w ≡ (ok (some (v4_mapped n)), w)
      → (w' : W) × (st.release_by_id id w ≡ (ok tt, w'))
        × IsKept w'
        × ((m : ℕ) → m < 4294967296 → t.holder w' m ≡ (if n == m then none else t.holder w m))
  pub kept-reserve :
      (id : String) (n : ℕ) (w : W)
      → n < 4294967296
      → t.holder w n ≡ none
      → IsKept w
      → IsKept (st.reserve id (v4 n) w).1
  pub recorded_lem :
      (w : W)
      → IsKept w
      → (l : Option ℕ) × (address_read (st.last_reserved_ip w).0 ≡ Option.map v4_mapped l)
        × ((st.last_reserved_ip w).1 ≡ w)
