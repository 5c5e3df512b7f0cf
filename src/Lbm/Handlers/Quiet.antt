-- ===== src/Lbm/Handlers/Quiet.antt =====
-- Listings that change nothing.
use lbmanager.Base.{◌≡◌, refl, ℕ, String, true, some, List, [], ◌∷◌, All, Option-cases, inl, inr}
use lbmanager.Base.Dict.{Dict}
use lbmanager.Kvstore.{KvPair}
use lbmanager.Lbm.Handlers.{
  Impl, LbBase, is_listed, accepted, is_current, enter, collect, configure, handler_add_or_update,
  sweep, delete_all, handler_delete, handler_event,
}

module _ {W L : Type 0} (impl : Impl W L) (own : String) where
  -- A pair that is no load balancer of this cluster, or that is served with the same value.
  abbrev pub IsSettled : LbBase W L → KvPair → Type 0
  IsSettled b it =
      (lb : L) → accepted impl own it ≡ some lb → is_current impl own b it.key lb ≡ true

  enter-settled : (it : KvPair) (b : LbBase W L) → IsSettled b it → enter impl own it b ≡ ([], b)
  unfolding enter
  enter-settled it b h = elim (Option-cases (accepted impl own it)) [
    | inl e ↦ rw (enter, e)
    | inr (lb, e) ↦ rw (enter, e, h lb e)
  ]

  collect-settled :
      (li : List KvPair) (b : LbBase W L) → All (IsSettled b) li → collect impl own li b ≡ ([], b)
  unfolding collect
  collect-settled [] b h = refl
  collect-settled (it ∷ li) b (s, h) = rw (enter-settled it b s, collect-settled li b h)

  sweep-listed :
      (li : List KvPair) (os : List L) (entries elem : Dict ℕ)
      → All (λ e. is_listed e.0 li ≡ true) entries
      → sweep impl own li os entries elem ≡ ([], elem)
  unfolding sweep
  sweep-listed li os [] elem h = refl
  sweep-listed li os ((k, p) ∷ entries) elem (s, h) = rw (s, sweep-listed li os entries elem h)

  -- A listing whose pairs are all settled, and that has every key that the program serves, changes
  -- nothing: no service is configured or deleted, and nothing is reloaded.
  pub handler_event-settled :
      (li : List KvPair) (b : LbBase W L)
      → All (IsSettled b) li
      → All (λ e. is_listed e.0 li ≡ true) b.elem
      → handler_event impl own li b ≡ b
  unfolding handler_event handler_add_or_update handler_delete configure delete_all
  handler_event-settled li b s h =
      rw (collect-settled li b s, sweep-listed li b.objects b.elem b.elem h)
