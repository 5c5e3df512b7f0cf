-- ===== src/Tests/Files.antt =====
-- A file system in memory.
use lbmanager.Base.{
  ◌≡◌, refl, ap, ◌∙◌, String, Bool, true, false, is_ok, arith, Option, none, some, ==_self,
  string_eq, not_exist, Result, ok, err, if◌then◌else◌,
}
use lbmanager.Base.Dict.{Dict, lookup, insert, erase, lookup-insert, lookup-erase}
use lbmanager.Utils.{Host}
use lbmanager.Lbm.Nginx.Service.Files.{IsDisk}
use lbmanager.Lbm.Render.Again.{IsFileSystem}

abbrev found : Option String → Result String
found none = err not_exist
found (some text) = ok text

abbrev pub present : Option String → Result (Unit {0})
present none = err not_exist
present (some text) = ok tt

abbrev pub disk : Host (Dict String)
disk = record {
  start = λ cmd w. (ok tt, w);
  wait = λ cmd w. (ok tt, w);
  stat = λ name w. (present (lookup name w), w);
  read_file = λ name w. (found (lookup name w), w);
  write_file = λ name text w. (ok tt, insert name text w);
  remove = λ name w. (present (lookup name w), erase name w);
  readlink = λ name w. (err not_exist, w);
}

pub disk-IsFileSystem : IsFileSystem disk
disk-IsFileSystem = record {
  read_world = λ path w. refl;
  read_write = λ path text w done. ap found (
      lookup-insert path path text w
      ∙ ap (λ b. if b then some text else lookup path w) (==_self path));
}

abbrev pub has_text : Option String → Bool
has_text none = false
has_text (some text) = true

pub present_lem : (o : Option String) → is_ok (present o) ≡ has_text o
present_lem none = refl
present_lem (some text) = refl

unfoldable pub disk-IsDisk : IsDisk disk
disk-IsDisk = record {
  has = λ w f. has_text (lookup f w);
  stat_lem = λ f w. present_lem (lookup f w);
  has-stat = λ f g w. refl;
  remove_lem = λ f w. present_lem (lookup f w);
  has-remove = λ f g w. ground (arith, lookup-erase f g w);
}
