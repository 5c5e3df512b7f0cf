-- ===== src/Lbm/Service.antt =====
-- pkg/lbm/lvs.go, and Reload of pkg/keepalived: the service behind a layer 4
-- load balancer. encoding/json and text/template are arguments.
pub mod Names
pub mod Port
pub mod Vip
pub mod Delete
pub mod Sweep
pub mod Recover
pub mod Config
pub mod Files
pub mod Stranded
use lbmanager.Base.{
  ℕ, zero, suc, ◌+◌, ◌*◌, ◌-◌, ℤ, pos, String, ◌<>◌, Bool, true, false, not, ◌||◌, ◌&&◌, Option,
  none, some, List, [], ◌∷◌, ◌++◌, length, ◌==◌, string_eq, int_eq, code, if◌then◌else◌, has_prefix,
  remove_all, split, add_nat, Error, not_exist, Result, ok, err, is_ok, Exec,
}
use lbmanager.Base.Monad.Exec.{pure, lift, attempt, ◌>>=◌, ◌>>◌}
use lbmanager.Base.Dict.{Dict, insert}
use lbmanager.Net.{IpNet}
use lbmanager.Utils.{Host, is_file_exist}
use lbmanager.Conf.{LbConf, Keepalived}
use lbmanager.Conf.Group.{get_l_addr_group_name}
use lbmanager.Kvstore.{KvStore, store_key, write_bytes}
use lbmanager.Ipam.State.{State, require_ip, release_ip, get_keys}
use lbmanager.Ipam.State
use lbmanager.Ipam.Allocator.Config.{IpAllocator}
use lbmanager.Lbm.Common.{Backend, get_name, get_cluster_name}
use lbmanager.Lbm.Lvs.{Lvs, new_lvs, validate}
use lbmanager.Lbm.Render.{render}
use lbmanager.Lbm.Handlers.{Impl, LbBase}

abbrev pub stick : String
stick = "l4-"

-- What the template is filled with.
pub record LvsInner : Type 0 where
  pub lvs : Lvs
  pub l_addr_group : String
  pub k_conf : Keepalived

-- LVSImpl and what it calls.
pub record Lvsimpl (W : Type 0) : Type 0 where
  pub conf : LbConf
  pub config_path : String
  pub key : String
  pub is_leader : Bool
  pub groups : Dict IpNet
  pub alc : IpAllocator W
  -- the bound on the search for a free address
  pub fuel : ℕ
  pub kv : KvStore W
  pub host : Host W
  -- path.Join
  pub join : String → String → String
  pub unmarshal : String → Lvs → Result Lvs
  pub marshal : Lvs → Result String
  -- the template of tmpl.go, filled in
  pub execute : LvsInner → Result String

-- The state of package ipam and the world, and the variable `toReload` of package keepalived.
pub record Site (W : Type 0) : Type 0 where
  pub ipam : State W
  pub to_reload : Bool

abbrev pub in_ipam : {W A : Type 0} → Exec (State W) A → Exec (Site W) A
in_ipam m s = let (r, i) = m s.ipam in (r, record s { ipam = i })

abbrev pub outside : {W A : Type 0} → Exec W A → Exec (Site W) A
outside m = in_ipam (State.outside m)

-- strconv.Atoi of a decimal number, which is what stands between the dots of an IPv4 address.
atoi_from : ℕ → String → ℕ
atoi_from n String.[] = n
atoi_from n (String.◌∷◌ c s) = atoi_from (n * 10 + (code c - 48)) s

unfoldable pub last_octet : List String → Option ℕ
unfolding atoi_from
last_octet (a ∷ b ∷ c ∷ d ∷ []) = some (atoi_from 0 d)
last_octet _ = none

abbrev pub result_or : {A : Type 0} → A → Result A → A
result_or a (ok b) = b
result_or a (err _) = a

-- The name of a load balancer in the key of its address.
unfoldable pub recovered : String → String
recovered v = remove_all v stick

module _ {W : Type 0} (l : Lvsimpl W) where
  abbrev and_then : Result Lvs → (Lvs → Result Lvs) → Result Lvs
  and_then (ok lb) f = f lb
  and_then (err e) f = err e

  -- Parse: NewLVS, json.Unmarshal and Validate.
  unfoldable pub parse : String → String → Result Lvs
  parse key text = and_then (l.unmarshal text new_lvs) (validate l.groups)

  -- Keepalived.Reload
  unfoldable pub reload : Site W → Site W
  reload s = record s { to_reload = true }

  unfoldable pub get_config_file_path : String → String
  get_config_file_path name = l.join l.config_path (name <> ".conf")

  -- LVS.Update
  unfoldable pub update : Lvs → Exec (Site W) (Unit {0})
  update lvs = do text ← lift (l.marshal lvs); outside (write_bytes l.kv l.key lvs.name text)

  -- The load balancer with its address, and whether it has to be written.
  unfoldable pub with_vip : Lvs → String → Lvs × Bool
  unfolding last_octet split
  with_vip lvs ip =
      let named = record lvs { vip = ip } in
      if lvs.port == pos 0
      then (elim (last_octet (split b'.' ip)) [
        | some p ↦ (record named { port = add_nat l.conf.l4_conf.port_base p }, true)
        | none ↦ (named, not (lvs.vip == ip))
      ])
      else (named, not (lvs.vip == ip))

  -- allocVIP; the load balancer comes back as it was written to. The error of Update is a variable
  -- of its own, and the deferred function reads that of RequireIP, which is nil by then.
  unfoldable pub with_required : Lvs → Result String → Site W → Result (Unit {0}) × Lvs × Site W
  unfolding with_vip update
  with_required lvs (err e) s = (err e, lvs, s)
  with_required lvs (ok ip) s =
      let (named, changed) = with_vip lvs ip in
      let (written, s') = update named s in
      if changed then (written, named, s') else (ok tt, named, s)

  unfoldable pub alloc_vip : Lvs → Site W → Result (Unit {0}) × Lvs × Site W
  unfolding with_required
  alloc_vip lvs s =
      let (r, s') = in_ipam (require_ip l.alc l.fuel (stick <> lvs.name) lvs.vip) s in
      with_required lvs r s'

  unfoldable pub check_valid : Lvs → Bool
  check_valid lvs = if lvs.vip == "" then false else not (lvs.port == pos 0)

  unfoldable pub inner_of : Lvs → LvsInner
  inner_of lvs = record {
    lvs = lvs;
    l_addr_group = elim lvs.servers [
      | [] ↦ ""
      | be ∷ _ ↦ result_or "" (get_l_addr_group_name l.groups be.ip)
    ];
    k_conf = l.conf.l4_conf.k_conf;
  }

  unfoldable pub render_template : Lvs → Site W → Bool × Site W
  unfolding inner_of get_config_file_path
  render_template lvs s =
      let (r, s1) =
        outside (render l.host l.execute (get_config_file_path lvs.name) (inner_of lvs)) s in
      (result_or false r, s1)

  -- What comes before the rendering: whether it is gone on to.
  unfoldable pub prepare : Lvs → Site W → Bool × Lvs × Site W
  unfolding alloc_vip check_valid
  prepare lvs s =
      let (r, given, s1) = alloc_vip lvs s in
      if l.is_leader then (is_ok r, given, s1) else (check_valid lvs, lvs, s)

  unfoldable pub config_service : Lvs → Site W → Bool × Lvs × Site W
  unfolding prepare render_template
  config_service lvs s =
      let (ready, given, s1) = prepare lvs s in
      let (changed, s2) = render_template given s1 in
      if ready then (changed, given, s2) else (false, given, s1)

  unfoldable pub delete_service : String → Site W → Bool × Site W
  unfolding get_config_file_path
  delete_service name s =
      let s0 = (if l.is_leader then (in_ipam (release_ip l.alc (stick <> name)) s).1 else s) in
      let (found, s1) = outside (is_file_exist l.host (get_config_file_path name)) s0 in
      let (removed, s2) = outside (l.host.remove (get_config_file_path name)) s1 in
      elim found [
        | err _ ↦ (false, s1)
        | ok _ ↦ elim removed [ ok _ ↦ (true, s2) | err _ ↦ (false, s2) ]
      ]

  -- One round of the loop of Recover: a load balancer of the name in the key of an address.
  unfoldable pub recover_key : String → LbBase (Site W) Lvs → LbBase (Site W) Lvs
  unfolding recovered has_prefix
  recover_key v b =
      let lb = record new_lvs {
        common = record new_lvs.common { name = recovered v; cluster_name = l.conf.cluster_name };
      } in
      if has_prefix v stick
      then record b {
        objects = b.objects ++ lb ∷ [];
        elem = insert (store_key l.kv l.key (recovered v)) (length b.objects) b.elem;
      }
      else b

  unfoldable pub recover_keys : List String → LbBase (Site W) Lvs → LbBase (Site W) Lvs
  unfolding recover_key
  recover_keys [] b = b
  recover_keys (v ∷ ks) b = recover_keys ks (recover_key v b)

  -- Recover, over the keys that package ipam knows.
  unfoldable pub recover : LbBase (Site W) Lvs → LbBase (Site W) Lvs
  unfolding recover_keys get_keys
  recover b = recover_keys (get_keys b.world.ipam) b

  -- The methods that lbm.go calls; reflect.DeepEqual is the argument.
  unfoldable pub lvs_service : (Lvs → Lvs → Bool) → Impl (Site W) Lvs
  unfolding parse config_service delete_service reload recover
  lvs_service deep_equal = record {
    parse = parse;
    config_service = config_service;
    delete_service = delete_service;
    reload = reload;
    recover = recover;
    name = λ lb. get_name lb.common;
    cluster_name = λ lb. get_cluster_name lb.common;
    equal = deep_equal;
  }
