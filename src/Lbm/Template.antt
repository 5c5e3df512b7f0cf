-- ===== src/Lbm/Template.antt =====
-- pkg/lbm/tmpl.go. The two templates are written as functions of the data that fills them in, as
-- text/template fills them in: a text as it is, an integer in decimal, and what stands outside of the
-- braces as it is, with its ends of lines.
pub mod Lvs
pub mod Nginx
pub mod Braces
pub mod NginxBraces
pub mod Nesting
use lbmanager.Base.{ℕ, suc, ℤ, pos, negsuc, String, ◌<>◌, Bool, true, false, List, [], ◌∷◌}
use lbmanager.Net.{decimal}

unfoldable pub concat : List String → String
concat [] = ""
concat (s ∷ ss) = s <> concat ss

-- {{range}}
unfoldable pub for_each : {A : Type 0} → (A → String) → List A → String
for_each f [] = ""
for_each f (a ∷ rest) = f a <> for_each f rest

unfoldable pub int_text : ℤ → String
unfolding decimal
int_text (pos n) = decimal n
int_text (negsuc n) = "-" <> decimal (suc n)

-- {{if}} with nothing else.
unfoldable pub text_if : Bool → String → String
text_if true s = s
text_if false s = ""
