-- ===== src/Lbm/Lvs/Servers.antt =====
-- The real servers that LVS.Validate accepts.
use lbmanager.Base.{
  ◌≡◌, ◌↔◌, refl, ap, sym, ◌∙◌, ◌≤◌, ℤ, pos, negsuc, String, Bool, true, false, not, none, some,
  List, [], ◌∷◌, ◌==◌, string_eq, int_eq, arith, InRange, All, negative, ==_iff, ==_self, ok,
}
use mathlib.Core.Path.{subst}
use lbmanager.Base.Monad.Inversion.{ok_inj, bind_ok, unless_ok}
use lbmanager.Base.Dict.{Dict}
use lbmanager.Net.{IpNet, parse_ip}
use lbmanager.Conf.Group.{get_l_addr_group_name}
use lbmanager.Lbm.Common.{Backend, check_backend, is_nil, or_default, is_bad_port}
use lbmanager.Lbm.Lvs.{check_servers}

abbrev pub IsPositive : ℤ → Type 0
IsPositive (pos n) = 1 ≤ n
IsPositive (negsuc n) = ⊥

pub record IsBackend (b : Backend) : Type 0 where
  pub address : is_nil (parse_ip b.ip) ≡ false
  pub port : InRange 1 65535 b.port
  pub weight : IsPositive b.weight

pub is_bad_port_iff : (p : ℤ) → (is_bad_port p ≡ false) ↔ InRange 1 65535 p
is_bad_port_iff (pos n) = ground arith
is_bad_port_iff (negsuc n) = ground arith

or_default-IsPositive : (w : ℤ) → negative w ≡ false → IsPositive (or_default w)
or_default-IsPositive (pos n) h = ground arith
or_default-IsPositive (negsuc n) h = ground arith

IsPositive-weight : (w : ℤ) → IsPositive w → (negative w ≡ false) × (or_default w ≡ w)
IsPositive-weight (pos n) h = ground arith
IsPositive-weight (negsuc n) h = absurd h

check_backend-IsBackend : (b c : Backend) → check_backend b ≡ ok c → IsBackend c × (c.ip ≡ b.ip)
unfolding check_backend
check_backend-IsBackend b c h =
    let (address, h1) = unless_ok _ (is_nil (parse_ip b.ip)) _ h in
    let (port, h2) = unless_ok _ (is_bad_port b.port) _ h1 in
    let (weight, h3) = unless_ok _ (negative b.weight) _ h2 in
    subst (λ x. IsBackend x × (x.ip ≡ b.ip)) (ok_inj h3)
      (
        record {
          address = address;
          port = (is_bad_port_iff b.port).0 port;
          weight = or_default-IsPositive b.weight weight;
        },
        refl,
      )

IsBackend-check_backend : (b : Backend) → IsBackend b → check_backend b ≡ ok b
unfolding check_backend
IsBackend-check_backend b h = rw (
  h.address,
  (is_bad_port_iff b.port).1 h.port,
  (IsPositive-weight b.weight h.weight).0,
  (IsPositive-weight b.weight h.weight).1,
)

negated : (b : Bool) → not b ≡ false → b ≡ true
negated true h = refl
negated false h = absurd cc

-- Every server is valid, and the local addresses that reach it are the group `g`.
abbrev pub HaveGroup : Dict IpNet → String → List Backend → Type 0
HaveGroup groups g = All (λ c. IsBackend c × (get_l_addr_group_name groups c.ip ≡ ok g))

check_servers-HaveGroup :
    (groups : Dict IpNet) (g i : String) (bs cs : List Backend)
    → check_servers groups (some (g, i)) bs ≡ ok cs
    → HaveGroup groups g cs
unfolding check_servers
check_servers-HaveGroup groups g i [] cs h = subst (HaveGroup groups g) (ok_inj h) tt
check_servers-HaveGroup groups g i (b ∷ bs) cs h =
    let (c, e, h1) = bind_ok (check_backend b) _ h in
    let (la, found, h2) = bind_ok (get_l_addr_group_name groups c.ip) _ h1 in
    let (same, h3) = unless_ok _ (not (g == la)) _ h2 in
    let (rest, r, h4) = bind_ok (check_servers groups (some (g, i)) bs) _ h3 in
    subst (HaveGroup groups g) (ok_inj h4) (
      (
        (check_backend-IsBackend b c e).0,
        found ∙ ap ok (sym ((==_iff g la).0 (negated (g == la) same))),
      ),
      check_servers-HaveGroup groups g i bs rest r,
    )

HaveGroup-check_servers :
    (groups : Dict IpNet) (g i : String) (cs : List Backend)
    → HaveGroup groups g cs
    → check_servers groups (some (g, i)) cs ≡ ok cs
unfolding check_servers
HaveGroup-check_servers groups g i [] h = refl
HaveGroup-check_servers groups g i (c ∷ cs) ((v, e), h) =
    rw (IsBackend-check_backend c v, e, ==_self g, HaveGroup-check_servers groups g i cs h)

-- Some group reaches all the servers. Without servers there is none to reach.
abbrev pub AreServers : Dict IpNet → List Backend → Type 0
AreServers groups [] = Unit
AreServers groups (c ∷ cs) = (g : String) × HaveGroup groups g (c ∷ cs)

pub check_servers-AreServers :
    (groups : Dict IpNet) (bs cs : List Backend)
    → check_servers groups none bs ≡ ok cs
    → AreServers groups cs
unfolding check_servers
check_servers-AreServers groups [] cs h = subst (AreServers groups) (ok_inj h) tt
check_servers-AreServers groups (b ∷ bs) cs h =
    let (c, e, h1) = bind_ok (check_backend b) _ h in
    let (la, found, h2) = bind_ok (get_l_addr_group_name groups c.ip) _ h1 in
    let (rest, r, h3) = bind_ok (check_servers groups (some (la, c.ip)) bs) _ h2 in
    subst (AreServers groups) (ok_inj h3) (
      la,
      (
        ((check_backend-IsBackend b c e).0, found),
        check_servers-HaveGroup groups la c.ip bs rest r,
      ),
    )

pub AreServers-check_servers :
    (groups : Dict IpNet) (cs : List Backend)
    → AreServers groups cs
    → check_servers groups none cs ≡ ok cs
unfolding check_servers
AreServers-check_servers groups [] h = refl
AreServers-check_servers groups (c ∷ cs) (g, ((v, e), h)) =
    rw (IsBackend-check_backend c v, e, HaveGroup-check_servers groups g c.ip cs h)
