-- ===== src/Lbm/Nginx/Service/Files.antt =====
-- What DeleteService of nginx.go does to the two files that a load balancer may have.
use lbmanager.Base.{
  ◌≡◌, ◌≢◌, refl, ap, sym, ◌∙◌, String, Bool, true, false, ◌&&◌, ◌||◌, List, [], ◌∷◌, ◌==◌, ==_iff,
  ==_self, string_eq, if◌then◌else◌, arith, Bool-cases, inl, inr, Result, ok, err, is_ok,
}
use mathlib.Core.Path.{subst}
use lbmanager.Base.Monad.Exec.{continue, pure}
use lbmanager.Utils.{Host, is_file_exist}
use lbmanager.Lbm.Nginx.Service.{NginxImpl, get_config_file_path, delete_in, delete_service}

-- Files, as os.Stat and os.Remove see them.
pub record IsDisk {W : Type 0} (h : Host W) : Type 0 where
  pub has : W → String → Bool
  pub stat_lem : (f : String) (w : W) → is_ok (h.stat f w).0 ≡ has w f
  pub has-stat : (f g : String) (w : W) → has (h.stat f w).1 g ≡ has w g
  pub remove_lem : (f : String) (w : W) → is_ok (h.remove f w).0 ≡ has w f
  pub has-remove :
      (f g : String) (w : W) → has (h.remove f w).1 g ≡ (if f == g then false else has w g)

found_lem :
    {W : Type 0} (r : Result (Unit {0})) (w : W)
    → (is_ok (continue r (λ x. pure {W = W} true) w).0 ≡ is_ok r)
      × ((continue r (λ x. pure {W = W} true) w).1 ≡ w)
found_lem (ok x) w = (refl, refl)
found_lem (err e) w = (refl, refl)

pub exist_lem :
    {W : Type 0} (h : Host W) (f : String) (w : W)
    → (is_ok (is_file_exist h f w).0 ≡ is_ok (h.stat f w).0)
      × ((is_file_exist h f w).1 ≡ (h.stat f w).1)
unfolding is_file_exist
exist_lem h f w = found_lem (h.stat f w).0 (h.stat f w).1

module _ {W : Type 0} (n : NginxImpl W) (d : IsDisk n.host) (name : String) where
  abbrev pub file : String → String
  file p = get_config_file_path n p name

  -- The world behind the look for a file, and behind its removal.
  abbrev looked : String → W → W
  looked p w = (n.host.stat (file p) w).1

  abbrev removed : String → W → W
  removed p w = (n.host.remove (file p) (looked p w)).1

  found_first :
      (p : String) (prot : List String) (w : W)
      → d.has w (file p) ≡ true
      → delete_in n (p ∷ prot) name w ≡ (true, removed p w)
  unfolding delete_in
  found_first p prot w h =
      let (found, world) = exist_lem n.host (file p) w in
      let there : is_ok (is_file_exist n.host (file p) w).0 ≡ true =
        found ∙ (d.stat_lem (file p) w ∙ h) in
      let gone : is_ok (n.host.remove (file p) (looked p w)).0 ≡ true =
        d.remove_lem (file p) (looked p w) ∙ (d.has-stat (file p) (file p) w ∙ h) in
      rw (there, world, gone) refl

  found_later :
      (p : String) (prot : List String) (w : W)
      → d.has w (file p) ≡ false
      → delete_in n (p ∷ prot) name w ≡ delete_in n prot name (looked p w)
  unfolding delete_in
  found_later p prot w h =
      let (found, world) = exist_lem n.host (file p) w in
      let missing : is_ok (is_file_exist n.host (file p) w).0 ≡ false =
        found ∙ (d.stat_lem (file p) w ∙ h) in
      rw (missing, world) refl

  has-removed :
      (p : String) (g : String) (w : W)
      → d.has (removed p w) g ≡ (if file p == g then false else d.has w g)
  has-removed p g w =
      d.has-remove (file p) g (looked p w)
      ∙ ap (λ b. if file p == g then false else b) (d.has-stat (file p) g w)

  -- What the run leaves, and what it gives.
  abbrev Leaves : W → Bool × W → Type 0
  Leaves w (b, w') =
      (b ≡ (d.has w (file "HTTP") || d.has w (file "L4")))
      × (d.has w' (file "HTTP") ≡ false)
      × (d.has w' (file "L4") ≡ (d.has w (file "HTTP") && d.has w (file "L4")))

  apart : file "HTTP" ≢ file "L4" → (file "HTTP" == file "L4") ≡ false
  apart two = ground (arith, ==_iff (file "HTTP") (file "L4"))

  apart_back : file "HTTP" ≢ file "L4" → (file "L4" == file "HTTP") ≡ false
  apart_back two = ground (arith, ==_iff (file "L4") (file "HTTP"), two)

  no_more : (w : W) → delete_in n [] name w ≡ (false, w)
  unfolding delete_in
  no_more w = refl

  untouched : (g : String) (w : W) → d.has (looked "L4" (looked "HTTP" w)) g ≡ d.has w g
  untouched g w = d.has-stat (file "L4") g (looked "HTTP" w) ∙ d.has-stat (file "HTTP") g w

  run-Leaves :
      (w : W) → file "HTTP" ≢ file "L4" → Leaves w (delete_in n ("HTTP" ∷ "L4" ∷ []) name w)
  run-Leaves w two = elim (Bool-cases (d.has w (file "HTTP"))) [
    | inl e ↦ subst (Leaves w) (sym (found_first "HTTP" ("L4" ∷ []) w e)) (
      rw e refl,
      has-removed "HTTP" (file "HTTP") w ∙ rw (==_self (file "HTTP")) refl,
      has-removed "HTTP" (file "L4") w ∙ rw (apart two, e) refl,
    )
    | inr e ↦
        let w1 = looked "HTTP" w in
        elim (Bool-cases (d.has w (file "L4"))) [
          | inl e' ↦
              subst (Leaves w)
                (sym (
                  found_later "HTTP" ("L4" ∷ []) w e
                  ∙ found_first "L4" [] w1 (d.has-stat (file "HTTP") (file "L4") w ∙ e')))
                (
                  rw (e, e') refl,
                  has-removed "L4" (file "HTTP") w1
                      ∙ rw (apart_back two) (d.has-stat (file "HTTP") (file "HTTP") w ∙ e),
                  has-removed "L4" (file "L4") w1 ∙ rw (==_self (file "L4"), e) refl,
                )
          | inr e' ↦
              subst (Leaves w)
                (sym (
                  found_later "HTTP" ("L4" ∷ []) w e
                  ∙ (found_later "L4" [] w1 (d.has-stat (file "HTTP") (file "L4") w ∙ e')
                      ∙ no_more (looked "L4" w1))))
                (
                  rw (e, e') refl,
                  untouched (file "HTTP") w ∙ e,
                  untouched (file "L4") w ∙ (e' ∙ rw e refl),
                )
        ]
  ]

  -- When the files for HTTP and for L4 of a load balancer are two files: DeleteService says whether
  -- one of them was there, and leaves none for HTTP; the one for L4 stays if both were there.
  pub delete_service-has :
      (w : W)
      → file "HTTP" ≢ file "L4"
      → ((delete_service n name w).0 ≡ (d.has w (file "HTTP") || d.has w (file "L4")))
        × (d.has (delete_service n name w).1 (file "HTTP") ≡ false)
        × (d.has (delete_service n name w).1 (file "L4")
            ≡ (d.has w (file "HTTP") && d.has w (file "L4")))
  unfolding delete_service
  delete_service-has w two = run-Leaves w two
