-- ===== src/Lbm/Service/Vip.antt =====
-- allocVIP over the addresses of package ipam.
use lbmanager.Base.{
  Error, err, ◌≡◌, ◌≢◌, refl, ap, sym, ◌∙◌, ◌⊎◌, ℕ, ◌+◌, ◌-◌, ◌%◌, ◌<◌, pos, String, ◌<>◌, Bool,
  true, false, not, none, some, ◌==◌, ==_iff, string_eq, int_eq, nat_eq, if◌then◌else◌, add_nat,
  arith, Bool-cases, inl, inr, Result, ok, is_ok, leb,
}
use lbmanager.Base.Monad.Inversion.{is_ok-ok, is_ok-err}
use lbmanager.Net.{ip_string}
use lbmanager.Ipv4.{v4}
use lbmanager.Ipv4.Plain.{ip_string_nonempty}
use lbmanager.Ipam.Allocator.Laws.{IsTable}
use lbmanager.Ipam.Allocator.Search.{IsRange}
use lbmanager.Ipam.Allocator.Registry.{IsRegistry}
use lbmanager.Ipam.State.{State, require_ip}
use lbmanager.Ipam.State.Leases.{require_ip-holder}
use lbmanager.Lbm.Lvs.{Lvs, check_port}
use lbmanager.Lbm.Service.{stick, Lvsimpl, Site, alloc_vip, with_required, with_vip, update}
use lbmanager.Lbm.Service.Names.{parse_ip-stick}
use lbmanager.Lbm.Service.Port.{last_octet-split}

clash : {b : Bool} → b ≡ true → b ≡ false → ⊥
clash h k = ground arith

filled : (n : ℕ) → n < 4294967296 → ("" == ip_string (v4 n)) ≡ false
filled n lt =
    ground
      (arith, ip_string_nonempty n lt, ==_iff "" (ip_string (v4 n)), ==_iff (ip_string (v4 n)) "")

-- The load balancer with its address, and with a port if it had none.
abbrev pub placed : {W : Type 0} → Lvsimpl W → Lvs → ℕ → Lvs
placed l lvs n = record lvs {
  vip = ip_string (v4 n);
  port = if lvs.port == pos 0 then add_nat l.conf.l4_conf.port_base (n % 256) else lvs.port;
}

with_vip-v4 :
    {W : Type 0} (l : Lvsimpl W) (lvs : Lvs) (n : ℕ)
    → n < 4294967296
    → lvs.vip ≡ ""
    → with_vip l lvs (ip_string (v4 n)) ≡ (placed l lvs n, true)
unfolding with_vip
with_vip-v4 l lvs n lt empty = elim (Bool-cases (lvs.port == pos 0)) [
  | inl e ↦ rw (e, last_octet-split n) refl
  | inr e ↦ rw (e, empty) (ap (λ b. (record lvs { vip = ip_string (v4 n) }, not b)) (filled n lt))
]

-- The port that allocVIP gives a load balancer without one is a valid one exactly if the base of the
-- ports and the last byte of the address are at most 65535 together.
pub with_vip-check_port :
    {W : Type 0} (l : Lvsimpl W) (lvs : Lvs) (n base : ℕ)
    → lvs.port ≡ pos 0
    → l.conf.l4_conf.port_base ≡ pos base
    → is_ok (check_port (with_vip l lvs (ip_string (v4 n))).0) ≡ leb (base + n % 256) 65535
unfolding with_vip check_port
with_vip-check_port l lvs n base none_set is_base =
    rw (none_set, last_octet-split n, is_base) (ground arith)

module _ {W : Type 0} (l : Lvsimpl W) (lvs : Lvs) (s : Site W) where
  -- The state behind RequireIP.
  abbrev pub required : Result String × State W
  required = require_ip l.alc l.fuel (stick <> lvs.name) "" s.ipam

  abbrev pub behind : Site W
  behind = record s { ipam = required.1 }

  alloc_vip-required : lvs.vip ≡ "" → alloc_vip l lvs s ≡ with_required l lvs required.0 behind
  unfolding alloc_vip
  alloc_vip-required empty =
      ap
        (λ v.
          let x = require_ip l.alc l.fuel (stick <> lvs.name) v s.ipam in
          with_required l lvs x.0 (record s { ipam = x.1 }))
        empty

  alloc_vip-ok :
      (ip : String)
      → lvs.vip ≡ ""
      → required.0 ≡ ok ip
      → (with_vip l lvs ip).1 ≡ true
      → alloc_vip l lvs s
        ≡ (let (r, s2) = update l (with_vip l lvs ip).0 behind in (r, (with_vip l lvs ip).0, s2))
  unfolding with_required
  alloc_vip-ok ip empty done changed =
      alloc_vip-required empty ∙ (ap (λ r. with_required l lvs r behind) done ∙ rw changed refl)

  pub alloc_vip-err : lvs.vip ≡ "" → is_ok required.0 ≡ false → is_ok (alloc_vip l lvs s).0 ≡ false
  unfolding with_required
  alloc_vip-err empty e =
      let (x, e') = is_ok-err required.0 e in
      ap (λ y. is_ok y.0) (alloc_vip-required empty ∙ ap (λ r. with_required l lvs r behind) e')

module _ {W : Type 0} (l : Lvsimpl W) (lo hi : ℕ) (r : IsRange l.alc lo hi)
    (t : IsTable l.alc.store) (g : IsRegistry l.alc.store t)
    (no_gateway : l.alc.conf.gateway ≡ none) (enough : hi - lo < l.fuel) (lvs : Lvs)
    (empty : lvs.vip ≡ "") (s : Site W) (kept : g.IsKept s.ipam.world) where
  -- Whatever comes of the writing, for an address that RequireIP has given.
  pub granted_run :
      (addr : String)
      → (required l lvs s).0 ≡ ok addr
      → (n : ℕ) × (n < 4294967296)
        × (addr ≡ ip_string (v4 n))
        × ((t.holder s.ipam.world n ≡ some (stick <> lvs.name))
            ⊎ ((t.holder s.ipam.world n ≡ none)
                × ((m : ℕ) → m < 4294967296 → t.holder s.ipam.world m ≢ some (stick <> lvs.name))))
        × g.IsKept (behind l lvs s).ipam.world
        × (alloc_vip l lvs s
            ≡ (let (z, s2) = update l (placed l lvs n) (behind l lvs s) in (z, placed l lvs n, s2)))
        × ((m : ℕ)
            → m < 4294967296
            → t.holder (behind l lvs s).ipam.world m
              ≡ (if n == m then some (stick <> lvs.name) else t.holder s.ipam.world m))
  granted_run addr given =
      let (n, text, lt, old, k, all) =
        require_ip-holder l.alc lo hi r t g no_gateway l.fuel enough (stick <> lvs.name)
          (parse_ip-stick lvs.name) s.ipam kept addr given in
      let placed_so : with_vip l lvs addr ≡ (placed l lvs n, true) =
        ap (with_vip l lvs) text ∙ with_vip-v4 l lvs n lt empty in
      (
        n,
        lt,
        text,
        old,
        k,
        alloc_vip-ok l lvs s addr empty given (ap (λ x. x.1) placed_so)
            ∙ ap (λ x. let (z, s2) = update l x.0 (behind l lvs s) in (z, x.0, s2)) placed_so,
        all,
      )

  -- What a success of allocVIP leaves behind RequireIP, and what it writes.
  pub alloc_vip-placed :
      (alloc_vip l lvs s).0 ≡ ok tt
      → (n : ℕ) × (n < 4294967296)
        × (alloc_vip l lvs s
            ≡ (ok tt, placed l lvs n, (update l (placed l lvs n) (behind l lvs s)).1))
        × ((update l (placed l lvs n) (behind l lvs s)).0 ≡ ok tt)
        × ((m : ℕ)
            → m < 4294967296
            → t.holder (behind l lvs s).ipam.world m
              ≡ (if n == m then some (stick <> lvs.name) else t.holder s.ipam.world m))
  alloc_vip-placed done = elim (Bool-cases (is_ok (required l lvs s).0)) [
    | inr e ↦ absurd (clash (ap is_ok done) (alloc_vip-err l lvs s empty e))
    | inl e ↦
        let (addr, given) = is_ok-ok (required l lvs s).0 e in
        let (n, lt, text, old, k, run, all) = granted_run addr given in
        let written = sym (ap (λ x. x.0) run) ∙ done in
        (
          n,
          lt,
          run
              ∙ ap (λ x. (x, placed l lvs n, (update l (placed l lvs n) (behind l lvs s)).1))
                  written,
          written,
          all,
        )
  ]

  -- The writing of this load balancer leaves the holders alone, whatever address it is given.
  abbrev pub LeavesHolders : Type 0
  LeavesHolders =
      (n : ℕ)
      → n < 4294967296
      → (m : ℕ) → m < 4294967296
      → t.holder (update l (placed l lvs n) (behind l lvs s)).1.ipam.world m
        ≡ t.holder (behind l lvs s).ipam.world m

  -- On a load balancer without a virtual address, over a store that keeps its table of holders and
  -- that the writing of this load balancer leaves alone, with no gateway and fuel for each address
  -- of the range: when allocVIP succeeds, the name of the load balancer behind its prefix holds an
  -- address in the state that it returns, and every other address has the holder that it had
  -- before. That address is the virtual address of the load balancer, which has kept its port, or
  -- has the one of the address if it had none; all the rest of it is as it was, and it has been
  -- written to the store.
  pub alloc_vip-holder :
      LeavesHolders
      → (alloc_vip l lvs s).0 ≡ ok tt
      → (n : ℕ) × (n < 4294967296)
        × (alloc_vip l lvs s
            ≡ (ok tt, placed l lvs n, (update l (placed l lvs n) (behind l lvs s)).1))
        × ((update l (placed l lvs n) (behind l lvs s)).0 ≡ ok tt)
        × ((m : ℕ)
            → m < 4294967296
            → t.holder (alloc_vip l lvs s).2.ipam.world m
              ≡ (if n == m then some (stick <> lvs.name) else t.holder s.ipam.world m))
  alloc_vip-holder apart done =
      let (n, lt, run, written, all) = alloc_vip-placed done in
      (
        n,
        lt,
        run,
        written,
        λ m lm. ap (λ x. t.holder x.2.ipam.world m) run ∙ (apart n lt m lm ∙ all m lm),
      )

  -- On a load balancer without a virtual address, over a store that keeps its table of holders and
  -- that the writing of this load balancer leaves alone, with no gateway and fuel for each address
  -- of the range: when RequireIP gives an address and no load balancer can be written to the store,
  -- allocVIP fails with the error of the writing; in the state that it returns, which the failed
  -- writing has left, the address is held under the name of the load balancer, and every other
  -- address has the holder that it had before.
  pub alloc_vip-leaks :
      (addr : String) (e : Error)
      → LeavesHolders
      → (required l lvs s).0 ≡ ok addr
      → ((lb : Lvs) → (update l lb (behind l lvs s)).0 ≡ err e)
      → (n : ℕ) × ((alloc_vip l lvs s).0 ≡ err e)
        × ((alloc_vip l lvs s).2 ≡ (update l (placed l lvs n) (behind l lvs s)).1)
        × (addr ≡ ip_string (v4 n))
        × (t.holder (alloc_vip l lvs s).2.ipam.world n ≡ some (stick <> lvs.name))
        × ((m : ℕ)
            → m < 4294967296
            → t.holder (alloc_vip l lvs s).2.ipam.world m
              ≡ (if n == m then some (stick <> lvs.name) else t.holder s.ipam.world m))
  alloc_vip-leaks addr e apart given fails =
      let (n, lt, text, old, k, run, all) = granted_run addr given in
      let left = ap (λ x. x.2) run in
      let now : (m : ℕ)
          → m < 4294967296
          → t.holder (alloc_vip l lvs s).2.ipam.world m
            ≡ (if n == m then some (stick <> lvs.name) else t.holder s.ipam.world m) =
        λ m lm. ap (λ x. t.holder x.ipam.world m) left ∙ (apart n lt m lm ∙ all m lm) in
      (n, ap (λ x. x.0) run ∙ fails (placed l lvs n), left, text, rw (now n lt) (ground arith), now)
