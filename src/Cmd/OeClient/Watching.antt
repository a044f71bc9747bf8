-- ===== src/Cmd/OeClient/Watching.antt =====
-- The order-entry program's watchdog, whose Restart is that of its supervisor, and the texts of the
-- supervisor's errors: cmd/oe-client/main.go and internal/session/supervisor.go.
use fix_session_lab.Base.{ℕ, ◌+◌, false, List, ◌++◌, Option, none, some}
use fix_session_lab.Base.Int.{pos, leb_ℤ, pos_part}
use fix_session_lab.Base.Lists.{if◌then◌else◌}
use fix_session_lab.Base.Text.{Text, codes}
use fix_session_lab.Cmd.OeClient.{Options}
use fix_session_lab.Deps.{Result}
use fix_session_lab.Session.Supervisor.{
  Call, StartError, already_running, build_failed, start_failed, Supervisor,
}
use fix_session_lab.Session.Watchdog.{Watchdog, Watched, start_watch}

-- A supervisor over time: what Build, and the Start of what it built, answer at each call of Restart,
-- how often that was called, and the calls that were made of engines, the first first.
pub record Reconnecting (I : Type 0) : Type 0 where
  pub supervisor : Supervisor I
  pub answers : ℕ → Result Text I × Option Text
  pub tried : ℕ
  pub calls : List (Call I)

unfoldable pub start_error_text : StartError → Text
start_error_text already_running = codes "initiator already running"
start_error_text (build_failed e) = codes "build initiator: " ++ e
start_error_text (start_failed e) = codes "start initiator: " ++ e

abbrev pub error_text : Option StartError → Option Text
error_text none = none
error_text (some e) = some (start_error_text e)

module _ {I : Type 0} where
  -- supervisor.Restart, as the watchdog calls it.
  unfoldable pub reconnect : Reconnecting I → Reconnecting I × Option Text
  unfolding fix_session_lab.Session.Supervisor.restart start_error_text
  reconnect w =
      let (b, start_error) = w.answers w.tried in
      let (s, calls, e) = fix_session_lab.Session.Supervisor.restart w.supervisor b start_error in
      (record w { supervisor = s; tried = w.tried + 1; calls = w.calls ++ calls }, error_text e)

  -- The watchdog that `run` makes if the flag asks for one.
  unfoldable pub watchdog_of : Options → Option (Watchdog (Reconnecting I))
  unfolding reconnect
  watchdog_of o =
      if leb_ℤ o.watchdog (pos 0)
      then none
      else some (record {
        timeout = pos_part o.watchdog;
        interval = 0;
        active = none;
        restart = some reconnect;
        last_app = 0;
        fired = 0;
        stopping = false;
      })

  -- The program's engine, supervisor and watchdog from the watchdog's Start on, which comes at `now`.
  unfoldable pub arm : Options → ℕ → Reconnecting I → Option (Watched (Reconnecting I))
  unfolding watchdog_of start_watch
  arm o now w = elim (watchdog_of o) [
    | none ↦ none
    | some d ↦ some (record { clock = now; dog = start_watch now d; world = w })
  ]
