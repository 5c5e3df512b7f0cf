-- ===== src/Conf/Group/Order.antt =====
-- GetLAddrGroupName ranges over a map, whose order Go leaves open.
use mathlib.Core.Path.{subst}
use mathlib.Core.List.{Permᴰ}
use mathlib.Core.List.Permᴰ
use lbmanager.Base.{
  ◌≡◌, ◌↔◌, refl, ap, sym, ◌∙◌, String, true, none, some, List, [], ◌∷◌, ◌⊎◌, Any, Bool-cases, inl,
  inr, ok,
}
use lbmanager.Base.Monad.Inversion.{ok_inj}
use lbmanager.Base.Dict.{Dict}
use lbmanager.Net.{Ip, IpNet, parse_ip, net_contains}
use lbmanager.Conf.Group.{bytes_of, group_of, after_groups, get_l_addr_group_name}

-- The entry is a group of this name whose network has the address.
abbrev pub Takes : Ip → String → String × IpNet → Type 0
Takes back k (j, v) = (j ≡ k) × (net_contains v back ≡ true)

-- The groups that have the address have one name.
abbrev pub IsApart : Ip → Dict IpNet → Type 0
IsApart back d = (k j : String) → Any (Takes back k) d → Any (Takes back j) d → k ≡ j

Any-Permᴰ : {A : Type 0} (P : A → Type 0) {xs ys : List A} → Permᴰ xs ys → Any P xs → Any P ys
Any-Permᴰ P Permᴰ.nil a = a
Any-Permᴰ P (Permᴰ.cons e d) (inl h) = inl (subst P e h)
Any-Permᴰ P (Permᴰ.cons e d) (inr a) = inr (Any-Permᴰ P d a)
Any-Permᴰ P (Permᴰ.swap e₁ e₂) (inl h) = inr (inl (subst P e₁ h))
Any-Permᴰ P (Permᴰ.swap e₁ e₂) (inr (inl h)) = inl (subst P e₂ h)
Any-Permᴰ P (Permᴰ.swap e₁ e₂) (inr (inr a)) = inr (inr a)
Any-Permᴰ P (Permᴰ.trans d₁ d₂) a = Any-Permᴰ P d₂ (Any-Permᴰ P d₁ a)

module _ (back : Ip) where
  -- The group found has the address, and if none is found, none has it.
  group_of-cases :
      (d : Dict IpNet)
      → ((k : String) × (group_of back d ≡ some k) × Any (Takes back k) d)
        ⊎ ((group_of back d ≡ none) × ((k : String) → Any (Takes back k) d → ⊥))
  unfolding group_of
  group_of-cases [] = inr (refl, λ k a. a)
  group_of-cases ((k, v) ∷ d) = elim (Bool-cases (net_contains v back)) [
    | inl y ↦ inl (k, rw y refl, inl (refl, y))
    | inr n ↦ elim (group_of-cases d) [
      | inl (j, e, a) ↦ inl (j, rw n e, inr a)
      | inr (e, f) ↦ inr (rw n e, λ j a. elim a [ inl (same, y) ↦ absurd cc | inr b ↦ f j b ])
    ]
  ]

  -- An entry can come first.
  front :
      (k : String) (d : Dict IpNet)
      → Any (Takes back k) d
      → (v : IpNet) × (e : Dict IpNet) × Permᴰ d ((k, v) ∷ e) × (net_contains v back ≡ true)
  front k [] a = absurd a
  front k ((j, v) ∷ d) (inl (same, y)) =
      (v, d, Permᴰ.cons (ap (λ i. (i, v)) same) (Permᴰ.refl d), y)
  front k (x ∷ d) (inr a) =
      let (v, e, p, y) = front k d a in
      (v, x ∷ e, Permᴰ.trans (Permᴰ.cons refl p) (Permᴰ.swap refl refl), y)

  group_of-first :
      (k : String) (v : IpNet) (e : Dict IpNet)
      → net_contains v back ≡ true
      → group_of back ((k, v) ∷ e) ≡ some k
  unfolding group_of
  group_of-first k v e y = rw y refl

  apart : (d e : Dict IpNet) → Permᴰ d e → IsApart back d → group_of back e ≡ group_of back d
  apart d e p h = elim (group_of-cases d) [
    | inl (k, at_d, a) ↦ elim (group_of-cases e) [
      | inl (j, at_e, b) ↦
          at_e ∙ ap some (h j k (Any-Permᴰ (Takes back j) (Permᴰ.symm p) b) a) ∙ sym at_d
      | inr (at_e, f) ↦ absurd (f k (Any-Permᴰ (Takes back k) p a))
    ]
    | inr (at_d, f) ↦ elim (group_of-cases e) [
      | inl (j, at_e, b) ↦ absurd (f j (Any-Permᴰ (Takes back j) (Permᴰ.symm p) b))
      | inr (at_e, g) ↦ at_e ∙ sym at_d
    ]
  ]

named :
    (d : Dict IpNet) (ip k : String)
    → group_of (bytes_of (parse_ip ip)) d ≡ some k
    → get_l_addr_group_name d ip ≡ ok k
unfolding get_l_addr_group_name
named d ip k h = ap (after_groups ip) h

-- GetLAddrGroupName gives the same for an address whatever the order of the groups is, exactly
-- if all the groups that have the address have one name.
pub get_l_addr_group_name-IsApart_iff :
    (d : Dict IpNet) (ip : String)
    → ((e : Dict IpNet) → Permᴰ d e → get_l_addr_group_name e ip ≡ get_l_addr_group_name d ip)
      ↔ IsApart (bytes_of (parse_ip ip)) d
unfolding get_l_addr_group_name
get_l_addr_group_name-IsApart_iff d ip =
    let back = bytes_of (parse_ip ip) in
    (
      λ h k j a b.
          let (v, e, p, y) = front back k d a in
          let (w, f, q, z) = front back j d b in
          ok_inj (
            sym (named ((k, v) ∷ e) ip k (group_of-first back k v e y))
            ∙ (h ((k, v) ∷ e) p
                ∙ sym (h ((j, w) ∷ f) q)
                ∙ named ((j, w) ∷ f) ip j (group_of-first back j w f z))),
      λ h e p. ap (after_groups ip) (apart back d e p h),
    )
