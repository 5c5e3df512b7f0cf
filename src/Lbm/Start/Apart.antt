-- ===== src/Lbm/Start/Apart.antt =====
-- The keys of the load balancers and of the addresses are different texts.
pub mod Beside
use text.Mathlib.TextLemmas.{append_cancel_left, append_assoc, cons-append}
use lbmanager.Base.{
  ◌≡◌, ◌≢◌, refl, ap, sym, ◌∙◌, ℕ, String, ◌<>◌, code, false, ok, ◌==◌, ==_iff, string_eq, arith,
  Result, err,
}
use lbmanager.Conf.{LbConf}
use lbmanager.Net.{ip_string}
use lbmanager.Ipv4.{v4}
use lbmanager.Kvstore.{KvStore, store_key, write_bytes}
use lbmanager.Kvstore.Laws.{IsReliable}
use lbmanager.Ipam.State.{data_dir}
use lbmanager.Ipam.Etcd.{EtcdStore}
use lbmanager.Ipam.Etcd.Table.{held}
use lbmanager.Lbm.Lvs.{Lvs}
use lbmanager.Lbm.Service.{Lvsimpl, Site, update}
use lbmanager.Lbm.Start.{lb_key, lb_item, new_lvs_impl}

abbrev first : String → ℕ
first String.[] = 0
first (String.◌∷◌ c s) = code c

differ : ◌≡◌ {A = ℕ} 108 105 → ⊥
differ h = omega arith

letters : (x y : String) → String.◌∷◌ "l" x ≢ String.◌∷◌ "i" y
letters x y h = differ (ap first h)

lb_text : (t : String) → "lb/" <> t ≡ String.◌∷◌ "l" ("b/" <> t)
lb_text t = cons-append "l" "b/" t

ipam_text : (t : String) → "ipam/" <> t ≡ String.◌∷◌ "i" ("pam/" <> t)
ipam_text t = cons-append "i" "pam/" t

-- The store that Etcd.New gives for package ipam.
abbrev pub store_of : String → EtcdStore
store_of network = record { item = data_dir <> network <> "/" }

texts_apart : (x y : String) → "lb/" <> x ≢ "ipam/" <> y
texts_apart x y h = absurd (letters ("b/" <> x) ("pam/" <> y) (rw (lb_text x, ipam_text y) at h))

keys_apart :
    {W : Type 0} (kv : KvStore W) (c : LbConf) (network name k : String)
    → store_key kv (lb_key c) name ≢ store_key kv (store_of network).item k
unfolding store_key lb_key
keys_apart kv c network name k e = texts_apart (lb_item c <> name) ((network <> "/") <> k) (
    sym (append_assoc "lb/" (lb_item c) name)
    ∙ (append_cancel_left kv.prefix (("lb/" <> lb_item c) <> name)
          (("ipam/" <> (network <> "/")) <> k) e
        ∙ append_assoc "ipam/" (network <> "/") k))

keys-beq :
    {W : Type 0} (kv : KvStore W) (c : LbConf) (network name k : String)
    → (store_key kv (lb_key c) name == store_key kv (store_of network).item k) ≡ false
keys-beq kv c network name k = ground (
  arith,
  ==_iff (store_key kv (lb_key c) name) (store_key kv (store_of network).item k),
  keys_apart kv c network name k,
)

module _ {W : Type 0} (l : Lvsimpl W) (c : LbConf) (network : String) (r : IsReliable l.kv.store)
    (lvs : Lvs) (s : Site W) where
  updated : Result String → Site W
  updated (err e) = s
  updated (ok text) =
      let w = (write_bytes l.kv (lb_key c) lvs.name text s.ipam.world).1 in
      record s { ipam = record s.ipam { world = w } }

  update_lem :
      (o : Result String) → l.marshal lvs ≡ o → (update (new_lvs_impl l c) lvs s).1 ≡ updated o
  unfolding update new_lvs_impl updated
  update_lem (err e) h = rw (update, h) refl
  update_lem (ok text) h = rw (update, h) refl

  held-updated :
      (n : ℕ) (o : Result String)
      → held l.kv r (store_of network) (updated o).ipam.world n
        ≡ held l.kv r (store_of network) s.ipam.world n
  unfolding updated write_bytes
  held-updated n (err e) = refl
  held-updated n (ok text) =
      rw (r.view-put, keys-beq l.kv c network lvs.name (ip_string (v4 n))) refl

  -- While etcd answers, and goes by the texts of keys: when LVS.Update writes a load balancer of the
  -- object that NewLVSImpl gives, the addresses that package ipam keeps in the same etcd have the
  -- holders that they had.
  pub update-held :
      (n : ℕ)
      → held l.kv r (store_of network) (update (new_lvs_impl l c) lvs s).1.ipam.world n
        ≡ held l.kv r (store_of network) s.ipam.world n
  update-held n =
      ap (λ x. held l.kv r (store_of network) x.ipam.world n) (update_lem (l.marshal lvs) refl)
      ∙ held-updated n (l.marshal lvs)
