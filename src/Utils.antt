-- ===== src/Utils.antt =====
-- pkg/utils/utils.go over the host: its files, links and shell, which are no code of the program.
use lbmanager.Base.{
  String, ◌<>◌, Bool, true, false, not, ◌||◌, List, [], ◌∷◌, ◌==◌, string_eq, if◌then◌else◌,
  message, errorf, str, cause, end, Result, ok, err, Exec, remove_all,
}
use lbmanager.Base.Monad.Exec.{pure, raise, attempt, ◌>>=◌, ◌>>◌}

-- What the program asks of the operating system.
pub record Host (W : Type 0) : Type 0 where
  -- exec.Command("sh", "-c", cmd) with its Start, and its Wait
  pub start : String → Exec W (Unit {0})
  pub wait : String → Exec W (Unit {0})
  pub stat : String → Exec W (Unit {0})
  pub read_file : String → Exec W String
  pub write_file : String → String → Exec W (Unit {0})
  pub remove : String → Exec W (Unit {0})
  pub readlink : String → Exec W String

unfoldable pub is_element_exist : String → List String → Bool
is_element_exist s [] = false
is_element_exist s (e ∷ l) = s == e || is_element_exist s l

module _ {W : Type 0} (h : Host W) where
  unfoldable pub shell_out : String → Exec W (Unit {0})
  shell_out cmd = attempt (h.start cmd) λ started. elim started [
    | err e ↦ raise (errorf "Failed to execute %v, err: %v" (str cmd (cause e end)))
    | ok _ ↦ attempt (h.wait cmd) λ done. elim done [
      | err e ↦ raise (errorf "Command %v finished with error: %v" (str cmd (cause e end)))
      | ok _ ↦ pure tt
    ]
  ]

  -- The Boolean and the error: the error is that of os.Stat, whatever it is.
  unfoldable pub is_file_exist : String → Exec W Bool
  is_file_exist name = do h.stat name; pure true

  unfoldable pub get_pid_by_file : String → Exec W String
  get_pid_by_file pid_file = do text ← h.read_file pid_file; pure (remove_all text "\n")

  unfoldable pub get_pid : String → String → Exec W String
  unfolding get_pid_by_file is_file_exist
  get_pid pid_file cmd = do
    pid ← get_pid_by_file pid_file
    is_file_exist ("/proc/" <> pid <> "/exe")
    exe ← h.readlink ("/proc/" <> pid <> "/exe")
    if not (exe == cmd) then raise (message "Thread exec is wrong") else pure pid

  abbrev text_of : Result String → String
  text_of (ok pid) = pid
  text_of (err _) = ""

  unfoldable pub check_thread_exist : String → String → Exec W Bool
  unfolding get_pid
  check_thread_exist pid_file cmd = attempt (get_pid pid_file cmd) λ r. pure (not (text_of r == ""))
