-- ===== src/Lbm/Render/Keeps.antt =====
-- What Render changes beside the file that it writes: nothing.
use mathlib.Core.Path.{subst}
use lbmanager.Base.{
  sym, String, true, ◌==◌, string_eq, not_exist, Result, ok, err, Bool-cases, inl, inr,
}
use lbmanager.Base.Monad.Exec.{continue, pure, attempt}
use lbmanager.Utils.{Host}
use lbmanager.Lbm.Render.{render, after_read}
use lbmanager.Lbm.Render.Again.{IsFileSystem}

module _ {W A : Type 0} (h : Host W) (law : IsFileSystem h) (execute : A → Result String)
    (P : W → Type 0) (path : String)
    (written : (text : String) (w : W) → P w → P (h.write_file path text w).1) where
  wrote : (r : Result (Unit {0})) (w : W) → P w → P (continue r (λ _. pure {W = W} true) w).1
  wrote (ok u) w p = p
  wrote (err e) w p = p

  after_read-keeps :
      (text : String) (r : Result String) (w : W) → P w → P (after_read h execute path text r w).1
  after_read-keeps text (ok src) w p = elim (Bool-cases (src == text)) [
    | inl e ↦ rw e p
    | inr e ↦
        rw e (wrote (h.write_file path text w).0 (h.write_file path text w).1 (written text w p))
  ]
  after_read-keeps text (err not_exist) w p =
      wrote (h.write_file path text w).0 (h.write_file path text w).1 (written text w p)
  after_read-keeps text (err c) w p = p

  from_text :
      (r : Result String) (w : W)
      → P w
      → P (continue r (λ text. attempt (h.read_file path) (after_read h execute path text)) w).1
  from_text (err e) w p = p
  from_text (ok text) w p =
      after_read-keeps text (h.read_file path w).0 (h.read_file path w).1
        (subst P (sym (law.read_world path w)) p)

  -- What the writing of the file keeps, Render keeps.
  pub render-keeps : (obj : A) (w : W) → P w → P (render h execute path obj w).1
  unfolding render
  render-keeps obj w p = from_text (execute obj) w p
