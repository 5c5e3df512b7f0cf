-- ===== src/Stats/Rows.antt =====
-- The statistics of a file that was written as rows.
use lbmanager.Base.{
  ◌≡◌, refl, ap, ◌∙◌, ℕ, String, Bool, false, ◌||◌, not, List, [], ◌∷◌, map, ◌==◌, string_eq,
  nat_eq, if◌then◌else◌, contains, split, code, All, ok, Bool-cases, inl, inr,
}
use lbmanager.Base.Split.{Lacks, join, split-join, Lacks-append}
use lbmanager.Stats.{LvsStats, entry, stats_of, parse_stats, cons_some}

-- A row of the table that `ipvsadm` prints: its first three fields, and nine numbers.
pub record Row : Type 0 where
  pub name : String
  pub ip : String
  pub conn : String
  pub n1 : String
  pub n2 : String
  pub n3 : String
  pub n4 : String
  pub n5 : String
  pub n6 : String
  pub n7 : String
  pub n8 : String
  pub n9 : String

abbrev pub fields : Row → List String
fields r =
    r.name ∷ r.ip ∷ r.conn ∷ r.n1 ∷ r.n2 ∷ r.n3 ∷ r.n4 ∷ r.n5 ∷ r.n6 ∷ r.n7 ∷ r.n8 ∷ r.n9 ∷ []

-- The fields have no blank and no end of a line in them.
pub record IsRow (r : Row) : Type 0 where
  pub no_blank : All (Lacks b' ') (fields r)
  pub no_end : All (Lacks b'\n') (fields r)

unfoldable pub line : Row → String
unfolding join
line r = join " " (fields r)

-- The row is neither of a real server that stands for itself nor of the node.
abbrev pub is_shown : Row → Bool
is_shown r = not (r.name == r.ip || contains r.ip "127.0.0.1")

-- The statistics of the rows that are shown, in order.
unfoldable pub shown : List Row → List LvsStats
shown [] = []
shown (r ∷ rs) =
    let rest = shown rs in if is_shown r then record { ip = r.ip; conn = r.conn } ∷ rest else rest

split-line : (r : Row) → IsRow r → split b' ' (line r) ≡ fields r
unfolding line
split-line r h = split-join " " r.name _ h.no_blank

Lacks-join :
    (sep : ℕ) (ps : List String)
    → ((code " ") == sep) ≡ false
    → All (Lacks sep) ps
    → Lacks sep (join " " ps)
unfolding join
Lacks-join sep [] o h = tt
Lacks-join sep (p ∷ []) o h = h.0
Lacks-join sep (p ∷ q ∷ ps) o (h, rest) = Lacks-append sep p _ h (o, Lacks-join sep (q ∷ ps) o rest)

line-Lacks : (rs : List Row) → All IsRow rs → All (Lacks b'\n') (map line rs)
unfolding line
line-Lacks [] h = tt
line-Lacks (r ∷ rs) (h, rest) = (Lacks-join b'\n' (fields r) refl h.no_end, line-Lacks rs rest)

shown_or_not :
    (r : Row) (rs : List Row) {l : List LvsStats}
    → l ≡ shown rs
    → cons_some (entry (fields r)) l ≡ shown (r ∷ rs)
unfolding entry shown
shown_or_not r rs e = rw e (elim (Bool-cases (r.name == r.ip || contains r.ip "127.0.0.1")) [
  | inl h ↦ rw h refl
  | inr h ↦ rw h refl
])

stats_of-rows : (rs : List Row) → All IsRow rs → stats_of (map line rs) ≡ shown rs
unfolding stats_of shown entry
stats_of-rows [] h = refl
stats_of-rows (r ∷ rs) (h, rest) = rw (split-line r h) (shown_or_not r rs (stats_of-rows rs rest))

-- The statistics of a file of rows are those of its rows that are shown, in order.
parse_stats-rows :
    (rs : List Row) → All IsRow rs → parse_stats (ok (join "\n" (map line rs))) ≡ shown rs
unfolding parse_stats join shown
parse_stats-rows [] h = refl
parse_stats-rows (r ∷ rs) h =
    ap stats_of (split-join "\n" (line r) (map line rs) (line-Lacks (r ∷ rs) h))
    ∙ stats_of-rows (r ∷ rs) h
