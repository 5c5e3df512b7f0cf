-- ===== src/Lbm/Render/Again.antt =====
-- Rendering a load balancer twice.
use lbmanager.Base.{
  ◌≡◌, refl, ap, ◌∙◌, String, Bool, true, false, ◌==◌, ==_iff, ==_self, string_eq, not_exist,
  Result, ok, err, is_ok, Bool-cases, inl, inr,
}
use lbmanager.Base.Monad.Exec.{continue, pure, attempt}
use lbmanager.Utils.{Host}
use lbmanager.Lbm.Render.{render, after_read, write_config}

-- Reading changes no file, and a file that was written is read back.
pub record IsFileSystem {W : Type 0} (h : Host W) : Type 0 where
  pub read_world : (path : String) (w : W) → (h.read_file path w).1 ≡ w
  pub read_write :
      (path text : String) (w : W)
      → (h.write_file path text w).0 ≡ ok tt
      → (h.read_file path (h.write_file path text w).1).0 ≡ ok text

module _ {W A : Type 0} (h : Host W) (law : IsFileSystem h) (execute : A → Result String) where
  -- The file has the text that the load balancer renders to.
  abbrev pub IsRendered : String → A → W → Type 0
  IsRendered path obj w =
      (text : String) × (execute obj ≡ ok text) × ((h.read_file path w).0 ≡ ok text)

  -- An action that, where it gives no error, leaves the text in the file.
  abbrev Leaves : String → String → Result Bool × W → Type 0
  Leaves path text (r, w) = is_ok r ≡ true → (h.read_file path w).0 ≡ ok text

  wrote :
      (path text : String) (x : Result (Unit {0}) × W)
      → (x.0 ≡ ok tt → (h.read_file path x.1).0 ≡ ok text)
      → Leaves path text (continue x.0 (λ _. pure true) x.1)
  wrote path text (ok tt, w) h e = h refl
  wrote path text (err c, w) h e = absurd cc

  write-Leaves :
      (path text : String) (w : W) → Leaves path text (write_config h execute path text w)
  write-Leaves path text w = wrote path text (h.write_file path text w) (law.read_write path text w)

  after_read-Leaves :
      (path text : String) (r : Result String) (w : W)
      → (h.read_file path w).0 ≡ r
      → Leaves path text (after_read h execute path text r w)
  after_read-Leaves path text (ok src) w stable = elim (Bool-cases (src == text)) [
    | inl e ↦ rw e (λ _. stable ∙ ap ok ((==_iff src text).0 e))
    | inr e ↦ rw e (write-Leaves path text w)
  ]
  after_read-Leaves path text (err not_exist) w stable = write-Leaves path text w
  after_read-Leaves path text (err c) w stable = λ no. absurd cc

  IsRendered-from :
      (path : String) (obj : A) (w : W) (r : Result String)
      → execute obj ≡ r
      → is_ok (continue r (λ text. attempt (h.read_file path) (after_read h execute path text)) w).0
        ≡ true
      → IsRendered path obj
          (continue r (λ text. attempt (h.read_file path) (after_read h execute path text)) w).1
  IsRendered-from path obj w (ok text) e done = (
    text,
    e,
    after_read-Leaves path text (h.read_file path w).0 (h.read_file path w).1
        (ap (λ v. (h.read_file path v).0) (law.read_world path w)) done,
  )
  IsRendered-from path obj w (err c) e done = absurd cc

  pub render-IsRendered :
      (path : String) (obj : A) (w : W)
      → is_ok (render h execute path obj w).0 ≡ true
      → IsRendered path obj (render h execute path obj w).1
  unfolding render
  render-IsRendered path obj w done = IsRendered-from path obj w (execute obj) refl done

  rendered-again :
      (path : String) (obj : A) (w : W)
      → IsRendered path obj w
      → render h execute path obj w ≡ (ok false, w)
  unfolding render
  rendered-again path obj w (text, e, there) = rw (e, there, ==_self text, law.read_world path w)

  -- A load balancer that was rendered without an error is in its file, and rendering it again writes
  -- nothing and asks for no reload.
  render-again :
      (path : String) (obj : A) (w : W)
      → is_ok (render h execute path obj w).0 ≡ true
      → IsRendered path obj (render h execute path obj w).1
        × (render h execute path obj (render h execute path obj w).1
            ≡ (ok false, (render h execute path obj w).1))
  render-again path obj w done =
      let there = render-IsRendered path obj w done in
      (there, rendered-again path obj (render h execute path obj w).1 there)
