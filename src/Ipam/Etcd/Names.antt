-- ===== src/Ipam/Etcd/Names.antt =====
-- The store in etcd finds and releases the address of a name: it fills the registry's interface.
use mathlib.Core.Option
use text.Mathlib.TextLemmas.{append_assoc, append-nil}
use lbmanager.Base.{
  ◌≡◌, refl, ap, sym, ◌∙◌, ℕ, ◌<◌, String, ◌<>◌, Bool, Option, none, some, ◌==◌, ==_iff, string_eq,
  nat_eq, if◌then◌else◌, arith, ok, ◌⊎◌, inl, inr, Option-cases, Bool-cases,
}
use lbmanager.Base.Split.{Lacks}
use lbmanager.Net.{ip_string, parse_ip, by_mark}
use lbmanager.Ipv4.{v4, v4_mapped}
use lbmanager.Ipv4.Text.{parse_ip-ip_string, ip_string-v4_ne, ip_string-v4_in_v6}
use lbmanager.Ipv4.Plain.{ip_string-Lacks, ip_string_nonempty}
use lbmanager.Kvstore
use lbmanager.Kvstore.{KvStore, store_key, read, delete}
use lbmanager.Kvstore.Laws.{IsReliable, IsDirectory}
use lbmanager.Kvstore.Keys.{store_key-beq}
use lbmanager.Kvstore.Search.{find_value-cases}
use lbmanager.Ipam.Etcd.{
  EtcdStore, etcd_store, reserve, last_ip_file, last_reserved_ip, exist, release, release_by_id,
}
use lbmanager.Ipam.Etcd.Table.{table, held, key_of, reserve-free, after, ip_string-beq}
use lbmanager.Ipam.Allocator.Get.{address_read}
use lbmanager.Ipam.Allocator.Registry.{IsRegistry, Holds}

-- What the store writes below its directory: the last reserved address, or an address's holder.
abbrev pub IsEntry : String → String → Type 0
IsEntry k v =
    ((k ≡ last_ip_file) × (n : ℕ) × (n < 4294967296) × (v ≡ ip_string (v4 n)))
    ⊎ ((n : ℕ) × (n < 4294967296) × (k ≡ ip_string (v4 n)))

not_none :
    (b : Bool) (o : Option String) (v : String) → (if b then none else o) ≡ some v → o ≡ some v
not_none b o v h = ground arith

some_eq : {x y : String} → some x ≡ some y → y ≡ x
some_eq h = cc

pub last_ip_file-Lacks : Lacks 47 last_ip_file
last_ip_file-Lacks = (
  refl,
  (
    refl,
    (
      refl,
      (
        refl,
        (
          refl,
          (
            refl,
            (refl, (refl, (refl, (refl, (refl, (refl, (refl, (refl, (refl, (refl, tt)))))))))),
          ),
        ),
      ),
    ),
  ),
)

not_parsed : parse_ip last_ip_file ≡ none
unfolding parse_ip by_mark
not_parsed = refl

module _ {W : Type 0} (kv : KvStore W) (l : IsReliable kv.store) (s : EtcdStore)
    (d : IsDirectory kv.store l (store_key kv s.item "")) where
  -- The directory is there, and has nothing but what the store writes.
  abbrev pub IsOwn : W → Type 0
  IsOwn w =
      d.IsThere w
      × ((k v : String) → Lacks 47 k → l.view w (store_key kv s.item k) ≡ some v → IsEntry k v)

  in_directory : (k : String) → store_key kv s.item "" <> k ≡ store_key kv s.item k
  unfolding store_key
  in_directory k = simp (append_assoc, append-nil)

  -- What `exist` makes of the name that it has found.
  pub exist_lem :
      (id : String) (w : W)
      → parse_ip id ≡ none
      → IsOwn w
      → (o : Option ℕ) × (exist kv s id w ≡ (ok (Option.map v4_mapped o), w))
        × Holds (held kv l s w) id o
  unfolding exist Kvstore.exist
  exist_lem id w p (there, own) =
      elim (find_value-cases (l.view w) (store_key kv s.item "") id (d.listed w)
        (d.listed_sound w there)) [
          | inl (empty, no_one) ↦ (
            none,
            rw (d.list_lem w there, empty),
            λ m lt h. no_one (ip_string (v4 m)) (
                d.listed_all (ip_string (v4 m)) id w there (ip_string-Lacks m)
                  (rw (in_directory (ip_string (v4 m))) h)),
          )
          | inr (k, found, lacks, here) ↦ elim (own k id lacks (rw (in_directory k) at here)) [
            | inl (last, n, lt, e) ↦ absurd (ip_string-v4_ne n id lt p (sym e))
            | inr (n, lt, e) ↦ (
              some n,
              rw (d.list_lem w there, found, e, ip_string_nonempty n lt, parse_ip-ip_string n lt)
                  refl,
              (lt, rw e at (rw (in_directory k) at here)),
            )
          ]
        ]

  delete_held :
      (id : String) (n : ℕ) (w : W)
      → held kv l s w n ≡ some id
      → kv.store.delete (key_of kv l s n) w ≡ (ok tt, (kv.store.delete (key_of kv l s n) w).1)
  delete_held id n w h =
      ap (λ r. (r, (kv.store.delete (key_of kv l s n) w).1))
        (l.delete_lem (key_of kv l s n) w ∙ rw h refl)

  pub release_lem :
      (id : String) (n : ℕ) (w : W)
      → IsOwn w
      → n < 4294967296
      → held kv l s w n ≡ some id
      → exist kv s id w ≡ (ok (some (v4_mapped n)), w)
      → (w' : W) × (release_by_id kv s id w ≡ (ok tt, w'))
        × IsOwn w'
        × ((m : ℕ) → m < 4294967296 → held kv l s w' m ≡ (if n == m then none else held kv l s w m))
  unfolding release_by_id release delete
  release_lem id n w (there, own) lt h e = (
    (kv.store.delete (key_of kv l s n) w).1,
    rw (e, ip_string-v4_in_v6) (delete_held id n w h),
    (
      d.there-delete (key_of kv l s n) w there,
      λ k v lacks at_k.
          own k v lacks
            (not_none _ (l.view w (store_key kv s.item k)) v (rw l.view-delete at at_k)),
    ),
    λ m lm. rw (l.view-delete, store_key-beq, ip_string-beq n m lt lm) refl,
  )

  new-IsEntry :
      (id : String) (n : ℕ) (k v : String) (w : W)
      → n < 4294967296
      → (l.view w (store_key kv s.item k) ≡ some v → IsEntry k v)
      → l.view (after kv l s id n w) (store_key kv s.item k) ≡ some v
      → IsEntry k v
  new-IsEntry id n k v w lt old h = elim (Bool-cases (last_ip_file == k)) [
    | inl e ↦
        inl (
          sym ((==_iff last_ip_file k).0 e),
          n,
          lt,
          some_eq (rw (l.view-put, store_key-beq, e) at h),
        )
    | inr e ↦ elim (Bool-cases (ip_string (v4 n) == k)) [
      | inl e' ↦ inr (n, lt, sym ((==_iff (ip_string (v4 n)) k).0 e'))
      | inr e' ↦ old (rw (l.view-put, store_key-beq, e, l.view-put, store_key-beq, e') at h)
    ]
  ]

  pub kept-reserve :
      (id : String) (n : ℕ) (w : W)
      → n < 4294967296
      → held kv l s w n ≡ none
      → IsOwn w
      → IsOwn (reserve kv s id (v4 n) w).1
  kept-reserve id n w lt h (there, own) = rw (reserve-free kv l s id n w h) (
    d.there-put _ _ _ (d.there-put _ _ _ there),
    λ k v lacks at_k. new-IsEntry id n k v w lt (own k v lacks) at_k,
  )

  pub recorded_lem :
      (w : W)
      → IsOwn w
      → (o : Option ℕ) × (address_read (last_reserved_ip kv s w).0 ≡ Option.map v4_mapped o)
        × ((last_reserved_ip kv s w).1 ≡ w)
  unfolding last_reserved_ip read
  recorded_lem w (there, own) = elim (Option-cases (l.view w (store_key kv s.item last_ip_file))) [
    | inl e ↦ (none, rw (l.get_none _ w e) refl, rw (l.get_none _ w e) refl)
    | inr (v, e) ↦ elim (own last_ip_file v last_ip_file-Lacks e) [
      | inl (same, n, lt, text) ↦
          let (p, g, val) = l.get_some (store_key kv s.item last_ip_file) v w e in
          (some n, rw (g, val, text) (rw (parse_ip-ip_string n lt) refl), rw g refl)
      | inr (n, lt, text) ↦ absurd (ip_string-v4_ne n last_ip_file lt not_parsed (sym text))
    ]
  ]

  unfoldable pub registry : IsRegistry (etcd_store kv s) (table kv l s)
  unfolding etcd_store table
  registry = record {
    IsKept = IsOwn;
    exist_lem = exist_lem;
    release_none = λ id w e. rw (release_by_id, e) refl;
    release_some = release_lem;
    kept-reserve = kept-reserve;
    recorded_lem = recorded_lem;
  }
