-- ===== src/Ipam/Allocator/Requested.antt =====
-- Get with a requested address.
use lbmanager.Base.{
  ◌≡◌, ◌≢◌, refl, ◌∙◌, ℕ, ◌<◌, String, Bool, true, false, ◌&&◌, none, some, nat_eq, string_eq, leb,
  is_ok, Error, ok, err, errorf, str, ip, Args,
}
use lbmanager.Base.Monad.Inversion.{is_ok-ok, is_ok-err}
use lbmanager.Net.{net_contains}
use lbmanager.Ipv4.{v4, v4_mapped}
use lbmanager.Ipam.Allocator.{get, get_requested, gateway_of, granted}
use lbmanager.Ipam.Allocator.Range.{validate_range_ip}
use lbmanager.Ipam.Allocator.Bounds.{validate_range_ip-v4}
use lbmanager.Ipam.Allocator.Config.{IpAllocator}
use lbmanager.Ipam.Allocator.Laws.{IsTable}
use lbmanager.Ipam.Allocator.Search.{IsRange}

-- The address is in the network and in the range.
abbrev pub is_allowed : {W : Type 0} → IpAllocator W → ℕ → ℕ → ℕ → Bool
is_allowed a lo hi n = net_contains a.conf.subnet (v4 n) && (leb lo n && leb n hi)

-- The error for an address that has a holder.
abbrev pub taken : {W : Type 0} → IpAllocator W → ℕ → Error
taken a n =
    errorf "requested IP address %q is not available in network: %s"
      (ip (v4_mapped n) (str a.conf.name Args.end))

module _ {W : Type 0} (a : IpAllocator W) (lo hi : ℕ) (r : IsRange a lo hi) (t : IsTable a.store)
    (no_gateway : a.conf.gateway ≡ none) (fuel : ℕ) (name : String) (n : ℕ) (w : W) where
  checked :
      is_ok (validate_range_ip (v4_mapped n) a.conf.subnet (some a.start) (some a.end))
      ≡ is_allowed a lo hi n
  checked = rw (r.start_lem, r.end_lem) (validate_range_ip-v4 a.conf.subnet n lo hi).1

  pub get_refused :
      is_allowed a lo hi n ≡ false
      → (e : Error) × (get a fuel name (some (v4_mapped n)) true w ≡ (err e, w))
  unfolding get get_requested gateway_of
  get_refused h =
      let (e, v) =
        is_ok-err (validate_range_ip (v4_mapped n) a.conf.subnet (some a.start) (some a.end))
          (checked ∙ h) in
      (e, rw (no_gateway, t.lock_lem, v, t.unlock_lem) refl)

  pub get_taken :
      is_allowed a lo hi n ≡ true
      → n < 4294967296
      → t.holder w n ≢ none
      → get a fuel name (some (v4_mapped n)) true w ≡ (err (taken a n), w)
  unfolding get get_requested gateway_of
  get_taken h lt other =
      let (e, v) =
        is_ok-ok (validate_range_ip (v4_mapped n) a.conf.subnet (some a.start) (some a.end))
          (checked ∙ h) in
      rw
        (
          no_gateway,
          t.lock_lem,
          v,
          t.reserve-v4_mapped,
          t.reserve_taken name n w lt other,
          t.unlock_lem,
        )
        refl

  pub get_new :
      is_allowed a lo hi n ≡ true
      → n < 4294967296
      → t.holder w n ≡ none
      → get a fuel name (some (v4_mapped n)) true w
        ≡ (ok (granted a none (v4_mapped n)), (a.store.reserve name (v4 n) w).1)
  unfolding get get_requested gateway_of
  get_new h lt free =
      let (e, v) =
        is_ok-ok (validate_range_ip (v4_mapped n) a.conf.subnet (some a.start) (some a.end))
          (checked ∙ h) in
      rw
        (
          no_gateway,
          t.lock_lem,
          v,
          t.reserve-v4_mapped,
          t.reserve_free name n w lt free,
          t.unlock_lem,
        )
        refl
