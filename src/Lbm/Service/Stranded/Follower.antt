-- ===== src/Lbm/Service/Stranded/Follower.antt =====
-- The deletions after a listing on a node that does not lead.
use lbmanager.Base.{
  ◌≡◌, ==_self, refl, sym, ap, ◌∙◌, ℕ, String, Bool, true, false, List, [], ◌∷◌, ◌==◌, ==_iff,
  string_eq, any, arith, Bool-cases, inl, inr, ◌⊎◌, All,
}
use mathlib.Core.Path.{subst}
use lbmanager.Base.Dict.{Dict, erase, insert}
use lbmanager.Utils.{is_file_exist}
use lbmanager.Kvstore.{KvPair}
use lbmanager.Ipam.State.{State}
use lbmanager.Lbm.Lvs.{Lvs}
use lbmanager.Lbm.Handlers.{Impl, LbBase, is_listed, sweep, delete_all, handler_delete}
use lbmanager.Lbm.Service.{
  Lvsimpl, Site, lvs_service, delete_service, get_config_file_path, outside,
}
use lbmanager.Lbm.Service.Delete.{after_delete, after_delete-either, file_world}

module _ {W : Type 0} (l : Lvsimpl W) (follower : l.is_leader ≡ false) (P : State W → Type 0)
    (stat_lem : (f : String) (i : State W)
      → P i
      → P (record i { world = (l.host.stat f i.world).1 }))
    (remove_lem : (f : String) (i : State W)
      → P i
      → P (record i { world = (l.host.remove f i.world).1 })) where
  delete_service-keeps :
      (name : String) (s : Site W) → P s.ipam → P (delete_service l name s).1.ipam
  unfolding delete_service after_delete
  delete_service-keeps name s p =
      let f = get_config_file_path l name in
      let (found, s1) = outside (is_file_exist l.host f) s in
      let (removed, s2) = outside (l.host.remove f) s1 in
      let looked : P s1.ipam =
        subst (λ w. P (record s.ipam { world = w })) (sym (file_world l.host f s.ipam.world))
          (stat_lem f s.ipam p) in
      rw follower (
        after_delete-either (λ x. P x.ipam) found removed s1 s2 looked
          (remove_lem f s1.ipam looked))

  delete_all-keeps :
      (equal : Lvs → Lvs → Bool) (own : String) (names : List String) (s : Site W)
      → P s.ipam
      → P (delete_all (lvs_service l equal) own names s).1.ipam
  unfolding delete_all lvs_service
  delete_all-keeps equal own [] s p = p
  delete_all-keeps equal own (x ∷ xs) s p =
      delete_all-keeps equal own xs (delete_service l x s).1 (delete_service-keeps x s p)

  -- The deletions keep what looking for files and removing them keeps.
  pub handler_delete-keeps :
      (equal : Lvs → Lvs → Bool) (own : String) (li : List KvPair) (b : LbBase (Site W) Lvs)
      → P b.world.ipam
      → P (handler_delete (lvs_service l equal) own li b).1.world.ipam
  unfolding handler_delete
  handler_delete-keeps equal own li b p =
      delete_all-keeps equal own (sweep (lvs_service l equal) own li b.objects b.elem b.elem).0
        b.world p

module _ {V : Type 0} (P Q : String × V → Type 0) where
  All-erase :
      (k : String) (d : Dict V)
      → ((j : String) (v : V) → (j == k) ≡ false → Q (j, v) → P (j, v))
      → All Q d
      → All P (erase k d)
  unfolding erase
  All-erase k [] f a = tt
  All-erase k ((j, v) ∷ d) f (here, a) = elim (Bool-cases (j == k)) [
    | inl e ↦ rw e (All-erase k d f a)
    | inr e ↦ rw e (f j v e here, All-erase k d f a)
  ]

pub All-insert :
    {V : Type 0} (P : String × V → Type 0) (k : String) (v : V) (d : Dict V)
    → P (k, v)
    → All P d
    → All P (insert k v d)
unfolding insert
All-insert P k v [] p a = (p, tt)
All-insert P k v ((j, w) ∷ d) p (here, a) = elim (Bool-cases (j == k)) [
  | inl e ↦ rw e (p, a)
  | inr e ↦ rw e (here, All-insert P k v d p a)
]

-- The entry is listed, or among those that the loop has still to look at.
abbrev Waits : List KvPair → Dict ℕ → String × ℕ → Type 0
Waits li entries (k, p) = (is_listed k li ≡ true) ⊎ (any (λ e. e.0 == k) entries ≡ true)

pub All-map :
    {A : Type 0} (P Q : A → Type 0) (xs : List A) → ((x : A) → Q x → P x) → All Q xs → All P xs
All-map P Q [] f a = tt
All-map P Q (x ∷ xs) f (here, a) = (f x here, All-map P Q xs f a)

passed :
    (li : List KvPair) (j : String) (q : ℕ) (entries : Dict ℕ) (x : String × ℕ)
    → is_listed j li ≡ true
    → Waits li ((j, q) ∷ entries) x
    → Waits li entries x
passed li j q entries (k, p) h (inl e) = inl e
passed li j q entries (k, p) h (inr e) = elim (Bool-cases (j == k)) [
  | inl same ↦ inl (ap (λ i. is_listed i li) (sym ((==_iff j k).0 same)) ∙ h)
  | inr other ↦ inr (rw other at e)
]

erased :
    (li : List KvPair) (j : String) (q : ℕ) (entries : Dict ℕ) (k : String) (p : ℕ)
    → (k == j) ≡ false
    → Waits li ((j, q) ∷ entries) (k, p)
    → Waits li entries (k, p)
erased li j q entries k p ne (inl e) = inl e
erased li j q entries k p ne (inr e) = inr (ground (arith, ==_iff j k, ==_iff k j))

more :
    (li : List KvPair) (e : String × ℕ) (entries : Dict ℕ) (x : String × ℕ)
    → Waits li entries x
    → Waits li (e ∷ entries) x
more li e entries (k, p) (inl h) = inl h
more li e entries (k, p) (inr h) = inr (ground arith)

all_wait : (li : List KvPair) (entries : Dict ℕ) → All (Waits li entries) entries
all_wait li [] = tt
all_wait li ((k, p) ∷ entries) = (
  inr (rw (==_self k) refl),
  All-map (Waits li ((k, p) ∷ entries)) (Waits li entries) entries (more li (k, p) entries)
      (all_wait li entries),
)

module _ {W L : Type 0} (impl : Impl W L) (own : String) (li : List KvPair) (os : List L) where
  left_listed :
      (entries elem : Dict ℕ)
      → All (Waits li entries) elem
      → All (λ (k, p). is_listed k li ≡ true) (sweep impl own li os entries elem).1
  unfolding sweep
  left_listed [] elem a =
      All-map (λ (k, p). is_listed k li ≡ true) (Waits li []) elem
        (λ x h. elim h [ inl e ↦ e | inr e ↦ absurd cc ]) a
  left_listed ((j, q) ∷ entries) elem a = elim (Bool-cases (is_listed j li)) [
    | inl h ↦ rw h (
        left_listed entries elem (
          All-map (Waits li entries) (Waits li ((j, q) ∷ entries)) elem
            (λ x. passed li j q entries x h) a))
    | inr h ↦ rw h (
        left_listed entries (erase j elem) (
          All-erase (Waits li entries) (Waits li ((j, q) ∷ entries)) j elem
            (λ k p ne. erased li j q entries k p ne) a))
  ]

  -- What the deletions leave in Elem is listed.
  pub sweep-listed :
      (elem : Dict ℕ) → All (λ (k, p). is_listed k li ≡ true) (sweep impl own li os elem elem).1
  sweep-listed elem = left_listed elem elem (all_wait li elem)
