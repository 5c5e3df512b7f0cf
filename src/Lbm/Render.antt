-- ===== src/Lbm/Render.antt =====
-- LBBase.Render of pkg/lbm/lbm.go. text/template is the argument `execute`.
pub mod Again
pub mod Keeps
use lbmanager.Base.{
  String, Bool, true, false, ◌==◌, string_eq, if◌then◌else◌, Error, not_exist, Result, ok, err,
  Exec,
}
use lbmanager.Base.Monad.Exec.{pure, raise, lift, attempt, ◌>>=◌, ◌>>◌}
use lbmanager.Utils.{Host}

module _ {W A : Type 0} (h : Host W) (execute : A → Result String) where
  abbrev pub write_config : String → String → Exec W Bool
  write_config path content = do h.write_file path content; pure true

  -- What follows ReadFile: a file that is missing or that differs is written.
  abbrev pub after_read : String → String → Result String → Exec W Bool
  after_read path content (ok src) =
      if src == content then pure false else write_config path content
  after_read path content (err not_exist) = write_config path content
  after_read path content (err e) = raise e

  unfoldable pub render : String → A → Exec W Bool
  render path obj = do
    content ← lift (execute obj)
    attempt (h.read_file path) (after_read path content)
