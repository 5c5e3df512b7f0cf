-- ===== src/Keepalived.antt =====
-- pkg/keepalived/keepalived.go: reloads are requested through a flag, which a loop of its own
-- goroutine serves. The mutex makes a request and a round of the loop one step each.
pub mod Steps
use lbmanager.Base.{
  String, ◌<>◌, Bool, true, false, not, ◌&&◌, if◌then◌else◌, is_ok, Result, ok, err, Exec,
}
use lbmanager.Base.Monad.Exec.{pure, ◌>>=◌, ◌>>◌}
use lbmanager.Utils.{Host, get_pid, shell_out, check_thread_exist}

abbrev pid_file : String
pid_file = "/var/run/keepalived.pid"

abbrev cmd : String
cmd = "/usr/sbin/keepalived"

-- The variable `toReload`, and the world.
pub record State (W : Type 0) : Type 0 where
  pub to_reload : Bool
  pub world : W

unfoldable pub request : {W : Type 0} → State W → State W
request s = record s { to_reload = true }

module _ {W : Type 0} (h : Host W) where
  unfoldable pub reload : Exec W (Unit {0})
  reload = do pid ← get_pid h pid_file cmd; shell_out h ("/bin/kill -HUP " <> pid)

  -- A round of reloadPeriod, up to its sleep.
  unfoldable pub round : State W → State W
  round s =
      let (r, w) = reload s.world in
      if s.to_reload then record { to_reload = not (is_ok r); world = w } else s

  abbrev or_false : Result Bool → Bool
  or_false (ok b) = b
  or_false (err _) = false

  -- Start, up to the start of the loop; an error ends the program.
  unfoldable pub start : Exec W (Unit {0})
  start w =
      let (running, w1) = check_thread_exist h pid_file cmd w in
      let started = shell_out h "systemctl start keepalived" w1 in
      if or_false running then (ok tt, w1) else started
