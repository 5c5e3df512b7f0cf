-- ===== src/Lbm/Service/Names.antt =====
-- The names of load balancers behind their prefix: they are no addresses, and Recover finds them
-- again.
use text.Mathlib.TextLemmas.{cons-append, nil-append}
use lbmanager.Base.{
  ◌≡◌, refl, ◌∙◌, ap, ◌⊎◌, inl, inr, String, ◌<>◌, code, false, none, ◌==◌, nat_eq, Bool-cases,
  has_prefix, contains, remove_all, remove_all-absent,
}
use lbmanager.Net.{parse_ip, by_mark, parse_ipv4, parse_ipv6, v4_rest, dtoi}
use lbmanager.Lbm.Service.{stick, recovered}

pub stick_text :
    (name : String) → (stick <> name) ≡ String.◌∷◌ "l" (String.◌∷◌ "4" (String.◌∷◌ "-" name))
stick_text name = rw (cons-append, cons-append, cons-append, nil-append)

by_mark-cases :
    (w s : String)
    → (by_mark w s ≡ none) ⊎ ((by_mark w s ≡ parse_ipv4 w) ⊎ (by_mark w s ≡ parse_ipv6 w))
unfolding by_mark
by_mark-cases w String.[] = inl refl
by_mark-cases w (String.◌∷◌ c s) = elim (Bool-cases (code c == b'.')) [
  | inl e ↦ inr (inl (rw (by_mark, e) refl))
  | inr e ↦ elim (Bool-cases (code c == b':')) [
    | inl e' ↦ inr (inr (rw (by_mark, e, e') refl))
    | inr e' ↦ rw (by_mark, e, e') (by_mark-cases w s)
  ]
]

-- A name behind the prefix is not the text of an address.
pub parse_ip-stick : (name : String) → parse_ip (stick <> name) ≡ none
unfolding parse_ip parse_ipv4 parse_ipv6 v4_rest dtoi
parse_ip-stick name =
    rw (stick_text name)
      (elim (by_mark-cases _ _) [ inl e ↦ e | inr (inl e) ↦ e ∙ refl | inr (inr e) ↦ e ∙ refl ])

recovered-text :
    (name : String)
    → recovered (String.◌∷◌ "l" (String.◌∷◌ "4" (String.◌∷◌ "-" name))) ≡ remove_all name stick
unfolding recovered remove_all has_prefix
recovered-text name = refl

-- Recover gives a load balancer's key its name back, when the prefix "l4-" stands nowhere in the name.
pub recovered-stick :
    (name : String) → contains name stick ≡ false → recovered (stick <> name) ≡ name
recovered-stick name h =
    ap recovered (stick_text name) ∙ recovered-text name ∙ remove_all-absent name stick h
