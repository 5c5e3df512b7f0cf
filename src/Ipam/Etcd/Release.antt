-- ===== src/Ipam/Etcd/Release.antt =====
-- ReleaseByID of the store in etcd, between two calls of Exist.
use mathlib.Core.Option
use lbmanager.Base.{
  ◌≡◌, ◌≢◌, refl, ◌∙◌, sym, ℕ, ◌<◌, String, Option, none, some, ok, ==_self, string_eq, arith,
}
use lbmanager.Net.{parse_ip}
use lbmanager.Ipv4.{v4_mapped}
use lbmanager.Kvstore.{KvStore, store_key}
use lbmanager.Kvstore.Laws.{IsReliable, IsDirectory}
use lbmanager.Ipam.Etcd.{EtcdStore, exist, release_by_id}
use lbmanager.Ipam.Etcd.Table.{held}
use lbmanager.Ipam.Etcd.Names.{IsOwn, exist_lem, release_lem}
use lbmanager.Ipam.Allocator.Registry.{IsSingle, Holds}
use lbmanager.Ipam.State.Release.{without, without-other, freed}

without_ne : (id : String) (o : Option String) → without id o ≢ some id
without_ne id none h = absurd cc
without_ne id (some x) h = ground (arith, ==_self id)

module _ {W : Type 0} (kv : KvStore W) (l : IsReliable kv.store) (s : EtcdStore)
    (d : IsDirectory kv.store l (store_key kv s.item "")) (id : String)
    (not_address : parse_ip id ≡ none) (w : W) (own : IsOwn kv l s d w)
    (single : IsSingle (held kv l s w)) where
  -- What ReleaseByID does in this world.
  abbrev pub IsReleased : W → Type 0
  IsReleased w' =
      (release_by_id kv s id w ≡ (ok tt, w'))
      × IsOwn kv l s d w'
      × ((m : ℕ) → m < 4294967296 → held kv l s w' m ≡ without id (held kv l s w m))

  found-IsReleased :
      (o : Option ℕ)
      → exist kv s id w ≡ (ok (Option.map v4_mapped o), w)
      → Holds (held kv l s w) id o
      → (w' : W) × IsReleased w'
  unfolding release_by_id
  found-IsReleased none e h =
      (w, (rw (release_by_id, e) refl, own, λ m lt. without-other id (held kv l s w m) (h m lt)))
  found-IsReleased (some n) e (lt, h) =
      let (w', run, own', all) = release_lem kv l s d id n w own lt h e in
      (
        w',
        (
          run,
          own',
          λ m lm. freed id (held kv l s w) n m lt lm h single (held kv l s w' m) (all m lm),
        ),
      )

  none_found :
      (w' : W)
      → IsReleased w'
      → (o : Option ℕ) → exist kv s id w' ≡ (ok (Option.map v4_mapped o), w')
      → Holds (held kv l s w') id o
      → exist kv s id w' ≡ (ok none, w')
  none_found w' done none e h = e
  none_found w' (run, own', all) (some n) e (lt, h) =
      absurd (without_ne id (held kv l s w n) (sym (all n lt) ∙ h))

  -- While etcd answers, in a directory that has nothing but what the store writes and no name with
  -- two addresses, and for a name that is not the text of an address: Exist gives the address that
  -- the name holds, or none if it holds none, and changes nothing; ReleaseByID succeeds, the name
  -- holds no address any more and every other address keeps its holder, in a directory that still
  -- has nothing else; and Exist gives none then.
  pub exist-release_by_id :
      (o : Option ℕ) × (w' : W) × (exist kv s id w ≡ (ok (Option.map v4_mapped o), w))
      × Holds (held kv l s w) id o
      × (release_by_id kv s id w ≡ (ok tt, w'))
      × IsOwn kv l s d w'
      × ((m : ℕ) → m < 4294967296 → held kv l s w' m ≡ without id (held kv l s w m))
      × (exist kv s id w' ≡ (ok none, w'))
  exist-release_by_id =
      let (o, e, h) = exist_lem kv l s d id w not_address own in
      let (w', done) = found-IsReleased o e h in
      let (o', e', h') = exist_lem kv l s d id w' not_address done.1 in
      (o, w', e, h, done.0, done.1, done.2, none_found w' done o' e' h')
