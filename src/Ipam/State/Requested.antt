-- ===== src/Ipam/State/Requested.antt =====
-- RequireIP with an address asked for.
pub mod Assign
use mathlib.Core.Option
use lbmanager.Base.{
  ◌≡◌, ◌≢◌, refl, ap, sym, ◌∙◌, ℕ, ◌<◌, String, Bool, true, false, ◌&&◌, not, Option, none, some,
  ◌==◌, ==_iff, ==_self, nat_eq, string_eq, if◌then◌else◌, arith, Bool-cases, Option-cases, inl,
  inr, leb, is_ok, Result, Error, ok, err, errorf, str, ip, Args,
}
use lbmanager.Base.Monad.Inversion.{is_ok-ok, is_ok-err}
use lbmanager.Base.Dict.{insert}
use lbmanager.Net.{ip_string, parse_ip, net_contains}
use lbmanager.Ipv4.{v4, v4_mapped}
use lbmanager.Ipv4.Text.{parse_ip-ip_string, ip_string-v4_in_v6}
use lbmanager.Ipv4.Plain.{ip_string_nonempty}
use lbmanager.Ipam.Etcd.Table.{ip_string-beq}
use lbmanager.Ipam.Allocator.{get, get_requested, gateway_of, granted, release}
use lbmanager.Ipam.Allocator.Range.{validate_range_ip}
use lbmanager.Ipam.Allocator.Bounds.{validate_range_ip-v4}
use lbmanager.Ipam.Allocator.Config.{IpAllocator}
use lbmanager.Ipam.Allocator.Laws.{IsTable}
use lbmanager.Ipam.Allocator.Search.{IsRange}
use lbmanager.Ipam.Allocator.Registry.{IsRegistry, IsSingle, Holds}
use lbmanager.Ipam.Allocator.Requested.{is_allowed}
use lbmanager.Ipam.State.Requested.Assign.{
  is_new, is_given, is_given-is_new, answer_of, Does, assign_lem,
}
use lbmanager.Ipam.State.{
  State, known, keep, replace, unknown, require_ip, settle, assign, put_cache,
}
use lbmanager.Ipam.State.Require.{get_exist_lem}
use lbmanager.Ipam.State.Release.{without, without-other, num_eq, gone}

module _ {W : Type 0} (a : IpAllocator W) (lo hi : ℕ) (r : IsRange a lo hi) (t : IsTable a.store)
    (g : IsRegistry a.store t) (no_gateway : a.conf.gateway ≡ none) (fuel : ℕ) (name : String)
    (n : ℕ) (lt : n < 4294967296) where
  -- How RequireIP goes on, by the address that the name holds.
  require_keep :
      (s : State W)
      → a.store.exist name s.world ≡ (ok (some (v4_mapped n)), s.world)
      → require_ip a fuel name (ip_string (v4 n)) s ≡ (ok (ip_string (v4 n)), s)
  unfolding require_ip settle known
  require_keep s h =
      rw
        (
          get_exist_lem a t name (some n) s.world h,
          ip_string-v4_in_v6,
          ip_string_nonempty n lt,
          ==_self (ip_string (v4 n)),
        )
        refl

  require_unknown :
      (s : State W)
      → a.store.exist name s.world ≡ (ok none, s.world)
      → require_ip a fuel name (ip_string (v4 n)) s ≡ assign a fuel name (ip_string (v4 n)) s
  unfolding require_ip settle known
  require_unknown s h = rw (get_exist_lem a t name none s.world h) refl

  require_replace :
      (s : State W) (m : ℕ) (w : W)
      → m < 4294967296
      → (n == m) ≡ false
      → a.store.exist name s.world ≡ (ok (some (v4_mapped m)), s.world)
      → a.store.release_by_id name s.world ≡ (ok tt, w)
      → require_ip a fuel name (ip_string (v4 n)) s
        ≡ assign a fuel name (ip_string (v4 n)) (record s { world = w })
  unfolding require_ip settle known release
  require_replace s m w lm other h released =
      rw
        (
          get_exist_lem a t name (some m) s.world h,
          ip_string-v4_in_v6,
          ip_string_nonempty m lm,
          ip_string_nonempty n lt,
          ip_string-beq n m lt lm,
          other,
          t.lock_lem,
          released,
          t.unlock_lem,
        )
        refl

  -- The address that the name holds is the one asked for.
  keeps :
      (s : State W)
      → g.IsKept s.world
      → IsSingle (t.holder s.world)
      → t.holder s.world n ≡ some name
      → Does g name n s false true
          (λ m. without name (t.holder s.world m))
          (ok (ip_string (v4 n)), s)
  keeps s kept single h = (
    refl,
    refl,
    kept,
    λ m lm. elim (Bool-cases (n == m)) [
      | inl e ↦ rw e (sym (ap (t.holder s.world) (num_eq n m e)) ∙ h)
      | inr e ↦ rw e (
          without-other name (t.holder s.world m)
            (λ k. absurd (ground (arith, single n m name lt lm h k))))
    ],
  )

  -- The name does not hold the address asked for: it has none after the first part, which leaves the
  -- holder of the address asked for.
  asks :
      (s : State W) (w : W)
      → g.IsKept w
      → t.holder s.world n ≢ some name
      → t.holder w n ≡ t.holder s.world n
      → ((m : ℕ) → m < 4294967296 → t.holder w m ≡ without name (t.holder s.world m))
      → Does g name n s
          (is_new (is_allowed a lo hi n) (t.holder s.world n))
          (is_given (is_allowed a lo hi n) name (t.holder s.world n))
          (λ m. without name (t.holder s.world m))
          (assign a fuel name (ip_string (v4 n)) (record s { world = w }))
  asks s w kept other same all =
      let (answer, cache, k, held) =
        assign_lem a lo hi r t g no_gateway fuel name n lt (record s { world = w }) kept in
      let b : is_new (is_allowed a lo hi n) (t.holder w n)
          ≡ is_new (is_allowed a lo hi n) (t.holder s.world n) =
        ap (is_new (is_allowed a lo hi n)) same in
      let c : is_given (is_allowed a lo hi n) name (t.holder s.world n)
          ≡ is_new (is_allowed a lo hi n) (t.holder w n) =
        is_given-is_new (is_allowed a lo hi n) name (t.holder s.world n) other ∙ sym b in
      rw (c, sym b)
        (
          answer,
          cache,
          k,
          λ m lm.
              held m lm
              ∙ ap
                  (λ o.
                    if n == m && is_new (is_allowed a lo hi n) (t.holder w n) then some name else o)
                  (all m lm),
        )

  by_held :
      parse_ip name ≡ none
      → (s : State W) → g.IsKept s.world
      → IsSingle (t.holder s.world)
      → (o : Option ℕ) → a.store.exist name s.world ≡ (ok (Option.map v4_mapped o), s.world)
      → Holds (t.holder s.world) name o
      → Does g name n s
          (is_new (is_allowed a lo hi n) (t.holder s.world n))
          (is_given (is_allowed a lo hi n) name (t.holder s.world n))
          (λ m. without name (t.holder s.world m))
          (require_ip a fuel name (ip_string (v4 n)) s)
  by_held p s kept single none e h =
      rw (require_unknown s e) (
        asks s s.world kept (h n lt) refl
          (λ m lm. without-other name (t.holder s.world m) (h m lm)))
  by_held p s kept single (some m) e (lm, h) = elim (Bool-cases (n == m)) [
    | inl same ↦
        let at_n : t.holder s.world n ≡ some name = ap (t.holder s.world) (num_eq n m same) ∙ h in
        rw
          (
            require_keep s
                (e ∙ ap (λ k. (ok (some (v4_mapped k)), s.world)) (sym (num_eq n m same))),
            at_n,
            ==_self name,
          )
          (keeps s kept single at_n)
    | inr other ↦
        let (w, released, k, all) = g.release_some name m s.world kept lm h e in
        rw (require_replace s m w lm other e released) (
          asks s w k (λ q. absurd (ground (arith, single n m name lt lm q h)))
            (all n lt ∙ ground arith)
            (λ j lj. gone a t g name p s kept m j lm lj h single (t.holder w j) (all j lj)))
  ]

  -- With an IPv4 address asked for and no gateway, a name that is not the text of an address, and a
  -- store that keeps its table of holders and gives no name two addresses: RequireIP gives the
  -- address exactly if the name holds it, or it has no holder and is in the network and in the
  -- range. It is put into the cache exactly when it is new to the name. Whatever the answer, any
  -- other address that the name held has no holder any more, and all else stays as it was.
  pub require_ip-requested :
      parse_ip name ≡ none
      → (s : State W) → g.IsKept s.world
      → IsSingle (t.holder s.world)
      → (answer_of (require_ip a fuel name (ip_string (v4 n)) s).0 ≡ (
          if is_given (is_allowed a lo hi n) name (t.holder s.world n)
          then some (ip_string (v4 n))
          else none))
        × ((require_ip a fuel name (ip_string (v4 n)) s).1.cache ≡ (
            if is_new (is_allowed a lo hi n) (t.holder s.world n)
            then insert name (ip_string (v4 n)) s.cache
            else s.cache))
        × g.IsKept (require_ip a fuel name (ip_string (v4 n)) s).1.world
        × ((m : ℕ)
            → m < 4294967296
            → t.holder (require_ip a fuel name (ip_string (v4 n)) s).1.world m ≡ (
                if n == m && is_given (is_allowed a lo hi n) name (t.holder s.world n)
                then some name
                else without name (t.holder s.world m)))
  require_ip-requested p s kept single =
      let (o, e, h) = g.exist_lem name s.world p kept in by_held p s kept single o e h
