-- ===== src/Kvstore/Search.antt =====
-- The search of Exist through the pairs of a directory.
use text.Mathlib.TextLemmas.{cons-append, nil-append}
use lbmanager.Base.{
  ◌≡◌, refl, String, ◌<>◌, Option, some, List, [], ◌∷◌, All, Any, ◌⊎◌, ◌==◌, ==_iff, string_eq,
  arith, Bool-cases, inl, inr, last_part,
}
use lbmanager.Base.Split.{Lacks, last_part-append}
use lbmanager.Kvstore.{KvPair, find_value}
use lbmanager.Kvstore.Laws.{IsListed, IsNamed}

last_part-name : (c k : String) → Lacks 47 k → last_part 47 (c <> ("/" <> k)) ≡ k
last_part-name c k h = rw (cons-append, nil-append) (last_part-append "/" c k h)

-- Exist finds a name that has the value, or no name has it.
pub find_value-cases :
    (view : String → Option String) (d val : String) (ps : List KvPair)
    → All (IsListed view d) ps
    → ((find_value val ps ≡ "") × ((k : String) → Any (IsNamed k val) ps → ⊥))
      ⊎ ((k : String) × (find_value val ps ≡ k) × Lacks 47 k × (view (d <> k) ≡ some val))
unfolding find_value
find_value-cases view d val [] h = inl (refl, λ k a. a)
find_value-cases view d val (p ∷ ps) ((c, k, key, lacks, here), rest) =
    elim (Bool-cases (val == p.value)) [
      | inl e ↦
          let same : val ≡ p.value = (==_iff val p.value).0 e in
          inr (k, rw (e, key) (last_part-name c k lacks), lacks, rw same here)
      | inr e ↦ elim (find_value-cases view d val ps rest) [
        | inr (j, found, l, at_j) ↦ inr (j, rw e found, l, at_j)
        | inl (empty, no_one) ↦ inl (
          rw e empty,
          λ j a. elim a [
            | inl (c', key', v) ↦ absurd (ground (arith, ==_iff val p.value))
            | inr a' ↦ no_one j a'
          ],
        )
      ]
    ]
