-- ===== src/Ipam/Etcd/Recover.antt =====
-- What Recover makes of the pairs of the directory.
use text.Mathlib.TextLemmas.{append-nil, nil-append, cons-append}
use lbmanager.Base.{
  ◌≡◌, refl, ap, sym, ◌∙◌, String, ◌<>◌, false, Option, List, [], ◌∷◌, All, ◌==◌, ==_iff, string_eq,
  arith, ok, Bool-cases, inl, inr,
}
use lbmanager.Base.Dict.{Dict, insert}
use lbmanager.Base.Split.{Lacks}
use lbmanager.Kvstore
use lbmanager.Kvstore.{KvStore, KvPair, store_key}
use lbmanager.Kvstore.Laws.{IsReliable, IsDirectory, IsListed}
use lbmanager.Ipam.Etcd.{EtcdStore, recover, recover_pairs, last_ip_file}
use lbmanager.Ipam.Etcd.Names.{last_ip_file-Lacks}

slash_first : (k : String) → Lacks 47 ("/" <> k) → ⊥
slash_first k h = let (x, _) = rw (cons-append, nil-append) at h in absurd (ground (arith, x))

slash-Lacks : (c k : String) → Lacks 47 (c <> ("/" <> k)) → ⊥
slash-Lacks String.[] k h = slash_first k (rw nil-append at h)
slash-Lacks (String.◌∷◌ x c) k h = slash-Lacks c k (rw cons-append at h).1

not_last : (c k : String) → (c <> ("/" <> k) == last_ip_file) ≡ false
not_last c k = elim (Bool-cases (c <> ("/" <> k) == last_ip_file)) [
  | inl e ↦
      absurd (slash-Lacks c k (rw ((==_iff (c <> ("/" <> k)) last_ip_file).0 e) last_ip_file-Lacks))
  | inr e ↦ e
]

-- Every pair with its value for the key, a later one over an earlier one.
abbrev pub by_value : Dict String → List KvPair → Dict String
by_value m [] = m
by_value m (p ∷ ps) = by_value (insert p.value p.key m) ps

recover_pairs-by_value :
    (view : String → Option String) (d : String) (m : Dict String) (ps : List KvPair)
    → All (IsListed view d) ps
    → recover_pairs m ps ≡ by_value m ps
unfolding recover_pairs
recover_pairs-by_value view d m [] h = refl
recover_pairs-by_value view d m (p ∷ ps) ((c, k, key, lacks, here), rest) =
    let other : (p.key == last_ip_file) ≡ false = rw key (not_last c k) in
    rw (recover_pairs, other) (recover_pairs-by_value view d (insert p.value p.key m) ps rest)

-- While etcd answers, Recover leaves out no pair of the directory: not the one that has the last
-- reserved address either.
pub recover-by_value :
    {W : Type 0} (kv : KvStore W) (l : IsReliable kv.store) (s : EtcdStore)
    (d : IsDirectory kv.store l (store_key kv s.item "")) (w : W) (there : d.IsThere w)
    → recover kv s w ≡ (ok (by_value [] (d.listed w)), w)
unfolding recover Kvstore.list store_key
recover-by_value kv l s d w there =
    let same : kv.prefix <> ("" <> s.item) ≡ kv.prefix <> (s.item <> "") =
      ap (λ t. kv.prefix <> t) (nil-append s.item ∙ sym (append-nil s.item)) in
    let listed : kv.store.list (kv.prefix <> ("" <> s.item)) w ≡ (ok (d.listed w), w) =
      ap (λ k. kv.store.list k w) same ∙ d.list_lem w there in
    rw listed (
      ap (λ m. (ok m, w))
        (recover_pairs-by_value (l.view w) (store_key kv s.item "") [] (d.listed w)
          (d.listed_sound w there)))
