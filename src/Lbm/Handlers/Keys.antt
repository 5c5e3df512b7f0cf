-- ===== src/Lbm/Handlers/Keys.antt =====
-- The keys that are served after an event.
use lbmanager.Base.{
  ◌≡◌, refl, ◌∙◌, ℕ, String, Bool, true, false, not, ◌&&◌, ◌||◌, Option, none, some, List, [], ◌∷◌,
  ◌==◌, string_eq, if◌then◌else◌, arith, any, ==_iff, length,
}
use lbmanager.Base.Dict.{Dict, lookup, insert, erase, lookup-insert, lookup-erase}
use lbmanager.Kvstore.{KvPair}
use lbmanager.Lbm.Handlers.{
  Impl, LbBase, is_listed, accepted, is_current, enter, collect, configure_one, configure,
  handler_add_or_update, sweep, handler_delete, handler_event,
}

abbrev pub is_some {ℓ} : {A : Type ℓ} → Option A → Bool
is_some none = false
is_some (some _) = true

abbrev pub has : String → Dict ℕ → Bool
has k d = is_some (lookup k d)

has-insert : (k j : String) (p : ℕ) (d : Dict ℕ) → has j (insert k p d) ≡ (k == j || has j d)
has-insert k j p d = ground (arith, lookup-insert k j p d)

has-erase : (k j : String) (d : Dict ℕ) → has j (erase k d) ≡ (not (k == j) && has j d)
has-erase k j d = ground (arith, lookup-erase k j d)

module _ {W L : Type 0} (impl : Impl W L) (own : String) where
  -- Some pair of the listing is at the key `k` and holds a load balancer of this cluster.
  abbrev pub is_offered : String → List KvPair → Bool
  is_offered k = any (λ it. k == it.key && is_some (accepted impl own it))

  enter-has :
      (it : KvPair) (b : LbBase W L) (k : String)
      → has k (enter impl own it b).1.elem
        ≡ (has k b.elem || (k == it.key && is_some (accepted impl own it)))
  unfolding enter is_current
  enter-has it b k =
      ground
        (arith, has-insert it.key k (length b.objects) b.elem, ==_iff it.key k, ==_iff k it.key)

  collect-has :
      (li : List KvPair) (b : LbBase W L) (k : String)
      → has k (collect impl own li b).1.elem ≡ (has k b.elem || is_offered k li)
  unfolding collect
  collect-has [] b k = ground arith
  collect-has (it ∷ li) b k =
      ground (arith, enter-has it b k, collect-has li (enter impl own it b).1 k)

  configure_one-elem : (p : ℕ) (b : LbBase W L) → (configure_one impl own p b).1.elem ≡ b.elem
  unfolding configure_one
  configure_one-elem p b = ground arith

  configure-elem : (ps : List ℕ) (b : LbBase W L) → (configure impl own ps b).1.elem ≡ b.elem
  unfolding configure configure_one
  configure-elem [] b = refl
  configure-elem (p ∷ ps) b =
      configure-elem ps (configure_one impl own p b).1 ∙ configure_one-elem p b

  sweep-has :
      (li : List KvPair) (os : List L) (entries elem : Dict ℕ) (k : String)
      → has k (sweep impl own li os entries elem).1
        ≡ (has k elem && (is_listed k li || not (has k entries)))
  unfolding sweep lookup
  sweep-has li os [] elem k = ground arith
  sweep-has li os ((j, p) ∷ entries) elem k = ground (
    arith,
    sweep-has li os entries (if is_listed j li then elem else erase j elem) k,
    has-erase j k elem,
    ==_iff j k,
  )

  -- After an event the keys that the program serves are those of the listing that it served
  -- before or that hold a load balancer of its cluster.
  pub handler_event-elem :
      (li : List KvPair) (b : LbBase W L) (k : String)
      → has k (handler_event impl own li b).elem
        ≡ (is_listed k li && (has k b.elem || is_offered k li))
  unfolding handler_event handler_add_or_update handler_delete
  handler_event-elem li b k =
      let served = collect impl own li b in
      let done = (configure impl own served.0 served.1).1 in
      ground (
        arith,
        collect-has li b k,
        configure-elem served.0 served.1,
        sweep-has li done.objects done.elem done.elem k,
      )
