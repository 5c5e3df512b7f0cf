-- ===== src/Tests/Types.antt =====
-- An encoding of routes that reads what it writes.
use lbmanager.Base.{
  ◌≡◌, refl, ap, sym, Bool-cases, inl, inr, ◌∙◌, String, ◌<>◌, Bool, true, false, ◌&&◌, Option,
  none, some, ◌==◌, ==_iff, string_eq, if◌then◌else◌, Result, ok, err, key_not_found, arith,
}
use lbmanager.Base.Monad.Pure.{◌>>=◌}
use lbmanager.Net.{Ip, IpNet, ip_string, parse_ip, before_slash}
use lbmanager.Ipam.Types.Json.{Json, IsJson, RouteFields}

-- Two texts with a slash between them, if they can be told apart again.
abbrev is_pair : Option (String × String) → String → String → Bool
is_pair none a b = false
is_pair (some (x, y)) a b = x == a && y == b

pack : String → String → Result String
pack a b =
    if is_pair (before_slash (a <> ("/" <> b))) a b then ok (a <> ("/" <> b)) else err key_not_found

abbrev pair_of : Option (String × String) → Result (String × String)
pair_of none = err key_not_found
pair_of (some p) = ok p

abbrev gateway_of : Option Ip → Result Ip
gateway_of none = err key_not_found
gateway_of (some g) = ok g

write_route : (IpNet → Result String) → RouteFields → Result String
unfolding pack
write_route write r = do u ← write r.dst; pack (ip_string r.gw) u

read_route : (String → Result IpNet) → String → Result RouteFields
read_route read t = do
  (a, b) ← pair_of (before_slash t)
  n ← read b
  g ← gateway_of (parse_ip a)
  ok (record { dst = n; gw = g })

abbrev json : Json
json = record {
  marshal_text = λ s. ok s;
  unmarshal_text = λ t. ok t;
  marshal_route = write_route;
  unmarshal_route = read_route;
}

clash : {x : String} → ◌≡◌ {A = Result String} (err key_not_found) (ok x) → ⊥
clash h = absurd cc

is_pair-true :
    (o : Option (String × String)) (a b : String) → is_pair o a b ≡ true → o ≡ some (a, b)
is_pair-true none a b h = absurd cc
is_pair-true (some (x, y)) a b h = ground (arith, ==_iff x a, ==_iff y b)

ok_eq : {x y : String} → ◌≡◌ {A = Result String} (ok x) (ok y) → x ≡ y
ok_eq h = cc

before_slash-pack : (a b t : String) → pack a b ≡ ok t → before_slash t ≡ some (a, b)
unfolding pack
before_slash-pack a b t h = elim (Bool-cases (is_pair (before_slash (a <> ("/" <> b))) a b)) [
  | inl e ↦
      let same : a <> ("/" <> b) ≡ t = ok_eq (rw e at h) in
      ap before_slash (sym same) ∙ is_pair-true (before_slash (a <> ("/" <> b))) a b e
  | inr e ↦ absurd (clash (rw e at h))
]

read-write :
    (write : IpNet → Result String) (read : String → Result IpNet) (r : RouteFields) (t u : String)
    (n : IpNet) (gw : Ip)
    → write_route write r ≡ ok t
    → write r.dst ≡ ok u
    → read u ≡ ok n
    → parse_ip (ip_string r.gw) ≡ some gw
    → read_route read t ≡ ok (record { dst = n; gw = gw })
unfolding write_route read_route
read-write write read r t u n gw h w e g =
    rw (before_slash-pack (ip_string r.gw) u t (rw w at h), e, g) refl

json-IsJson : IsJson json
json-IsJson = record { text_lem = λ s t h. sym h; route_lem = read-write }
