-- ===== src/Lbm/Start/Apart/Beside.antt =====
-- The layer 4 service over package ipam in the same etcd: what it writes there, and its files, leave
-- the table of holders alone.
use lbmanager.Base.{◌≡◌, refl, sym, ◌∙◌, String, string_eq, Result, ok, err}
use mathlib.Core.Path.{subst}
use lbmanager.Conf.{LbConf}
use lbmanager.Kvstore.{KvStore, store_key, write_bytes}
use lbmanager.Kvstore.Laws.{IsReliable, IsDirectory}
use lbmanager.Utils.{Host}
use lbmanager.Ipam.Etcd.{etcd_store}
use lbmanager.Ipam.Etcd.Table.{table}
use lbmanager.Ipam.Etcd.Names.{registry, IsOwn}
use lbmanager.Lbm.Lvs.{Lvs}
use lbmanager.Lbm.Service.{Lvsimpl, Site, update}
use lbmanager.Lbm.Service.Delete.{IsBeside}
use lbmanager.Lbm.Start.{lb_key, new_lvs_impl}
use lbmanager.Lbm.Start.Apart.{store_of, updated, update_lem, keys-beq, update-held}

-- Looking for a file, writing it and removing it do not change what is in etcd.
pub record IsLocal {W : Type 0} (h : Host W) (kv : KvStore W) (r : IsReliable kv.store) {k : String}
    (d : IsDirectory kv.store r k) : Type 0 where
  pub view-stat : (f k : String) (w : W) → r.view (h.stat f w).1 k ≡ r.view w k
  pub view-remove : (f k : String) (w : W) → r.view (h.remove f w).1 k ≡ r.view w k
  pub view-write : (f c k : String) (w : W) → r.view (h.write_file f c w).1 k ≡ r.view w k
  pub there-write : (f c : String) (w : W) → d.IsThere w → d.IsThere (h.write_file f c w).1
  pub there-stat : (f : String) (w : W) → d.IsThere w → d.IsThere (h.stat f w).1
  pub there-remove : (f : String) (w : W) → d.IsThere w → d.IsThere (h.remove f w).1

-- The service with the key of NewLB, and with the allocator's store in its own etcd.
abbrev pub service_of : {W : Type 0} → Lvsimpl W → LbConf → String → Lvsimpl W
service_of l c network = record l {
  key = lb_key c;
  alc = record l.alc { store = etcd_store l.kv (store_of network) };
}

module _ {W : Type 0} (l : Lvsimpl W) (c : LbConf) (network : String) (r : IsReliable l.kv.store)
    (d : IsDirectory l.kv.store r (store_key l.kv (store_of network).item ""))
    (files : IsLocal l.host l.kv r d) where
  updated-IsOwn :
      (lb : Lvs) (s : Site W) (o : Result String)
      → IsOwn l.kv r (store_of network) d s.ipam.world
      → IsOwn l.kv r
          (store_of network)
          d
          (updated (service_of l c network) c network r lb s o).ipam.world
  unfolding updated write_bytes
  updated-IsOwn lb s (err e) own = own
  updated-IsOwn lb s (ok text) (there, own) = (
    d.there-put _ _ _ there,
    λ k v lacks h. own k v lacks (rw (r.view-put, keys-beq l.kv c network lb.name k) at h),
  )

  update-IsOwn :
      (lb : Lvs) (s : Site W)
      → IsOwn l.kv r (store_of network) d s.ipam.world
      → IsOwn l.kv r
          (store_of network)
          d
          (update (new_lvs_impl (service_of l c network) c) lb s).1.ipam.world
  update-IsOwn lb s own =
      let e = update_lem (service_of l c network) c network r lb s (l.marshal lb) refl in
      subst (λ x. IsOwn l.kv r (store_of network) d x.ipam.world) (sym e)
        (updated-IsOwn lb s (l.marshal lb) own)

  -- While etcd answers and goes by the texts of keys, and files are apart from it: the writing of
  -- load balancers, and what DeleteService does with files, leave the table of holders in the same
  -- etcd alone.
  pub service_of-IsBeside :
      IsBeside
        (service_of l c network)
        (table l.kv r (store_of network))
        (registry l.kv r (store_of network) d)
  unfolding table registry new_lvs_impl update
  service_of-IsBeside = record {
    update-IsKept = λ lb s own. update-IsOwn lb s own;
    holder-update = λ lb s n. update-held (service_of l c network) c network r lb s n;
    stat-IsKept = λ f w (there, own). (
      files.there-stat f w there,
      λ k v lacks h. own k v lacks (sym (files.view-stat f _ w) ∙ h),
    );
    remove-IsKept = λ f w (there, own). (
      files.there-remove f w there,
      λ k v lacks h. own k v lacks (sym (files.view-remove f _ w) ∙ h),
    );
    write-IsKept = λ f c w (there, own). (
      files.there-write f c w there,
      λ k v lacks h. own k v lacks (sym (files.view-write f c _ w) ∙ h),
    );
    holder-write = λ f c w n. files.view-write f c _ w;
    holder-stat = λ f w n. files.view-stat f _ w;
    holder-remove = λ f w n. files.view-remove f _ w;
  }
