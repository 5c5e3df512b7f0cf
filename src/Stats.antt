-- ===== src/Stats.antt =====
-- pkg/stats/lvs.go: the answer to a request for /stats. net/http is left out but for what is written
-- to the response.
pub mod Rows
pub mod Server
use lbmanager.Base.{
  ℕ, String, Bool, true, false, ◌||◌, Option, none, some, List, [], ◌∷◌, ◌==◌, string_eq,
  if◌then◌else◌, contains, split, Result, ok, err,
}
use lbmanager.Utils.{Host}

pub record LvsStats : Type 0 where
  pub ip : String
  pub conn : String

-- The fields of a line, if there are twelve, and what is taken of them.
unfoldable pub entry : List String → Option LvsStats
entry (name ∷ ip ∷ conn ∷ _ ∷ _ ∷ _ ∷ _ ∷ _ ∷ _ ∷ _ ∷ _ ∷ _ ∷ []) =
    if name == ip || contains ip "127.0.0.1" then none else some (record { ip = ip; conn = conn })
entry _ = none

abbrev pub cons_some : Option LvsStats → List LvsStats → List LvsStats
cons_some none l = l
cons_some (some s) l = s ∷ l

-- The loop over the lines.
unfoldable pub stats_of : List String → List LvsStats
unfolding entry split
stats_of [] = []
stats_of (v ∷ ls) = cons_some (entry (split b' ' v)) (stats_of ls)

-- The statistics in the file's text; a file that cannot be read has none.
unfoldable pub parse_stats : Result String → List LvsStats
unfolding stats_of
parse_stats (err _) = []
parse_stats (ok text) = stats_of (split b'\n' text)

-- What is written to the response: nothing without statistics, or if they have no text.
unfoldable pub response : (List LvsStats → Result String) → List LvsStats → Option String
response marshal [] = none
response marshal (s ∷ l) = elim (marshal (s ∷ l)) [ err _ ↦ none | ok text ↦ some text ]

unfoldable pub get_stats :
    {W : Type 0} → Host W → String → (List LvsStats → Result String) → W → Option String × W
unfolding parse_stats response
get_stats h result_path marshal w =
    let (text, w1) = h.read_file result_path w in (response marshal (parse_stats text), w1)
