-- ===== src/Daemon/Start.antt =====
-- src/server.rs and src/client.rs: `run`, from the test for another instance to the removal of the
-- pid file. The main part, `run_async`, is an argument.
pub mod Leaves
use Prim.Native.String.{◌++◌}
use bluecross.Base.{Bool, true, false, String, Result, ok, err, Outcome, done, panic, if◌then◌else◌}
use bluecross.Config.{ConfigError, ServerConfig, ClientConfig}
use bluecross.Daemon.{
  Replies, Host, System, Ending, returned, failed, exited, panicked, DaemonError, bad_config,
  run_failed, pid_not_written, new_runtime, print, eprint, act, or_fail,
}
use bluecross.Daemon.Pid.{is_running, write_pid_file, cleanup_pid}
use bluecross.Daemon.Fork.{daemonize}
use bluecross.Daemon.Log.{setup_logging}

-- What `run_async` does: whether it returns without an error, and what it leaves.
abbrev pub Main : Type 0
Main = System → Outcome Bool × System

unfoldable pub finish :
    Replies → Host → String → Outcome Bool × System → Ending DaemonError × System
unfolding cleanup_pid
finish replies host name (panic, s) = (panicked, s)
finish replies host name (done true, s) = (returned, cleanup_pid replies host name s)
finish replies host name (done false, s) = (failed run_failed, cleanup_pid replies host name s)

abbrev pub announce : String → Bool → System → System
announce title foreground s =
    if foreground
    then act (print "\n") (
        act (print "Press Ctrl+C to stop\n")
          (act (print "================\n") (act (print (title ++ "\n")) s)))
    else s

abbrev pub pid_written :
    Bool × System → (System → Ending DaemonError × System) → Ending DaemonError × System
pid_written (wrote, s) k = if wrote then k s else (failed pid_not_written, s)

-- From the installed logger on.
abbrev pub started :
    {C : Type 0}
    → Replies
    → Host
    → String
    → String
    → Bool
    → (C → Main)
    → C
    → System
    → Ending DaemonError × System
started replies host name title foreground main config s =
    pid_written (write_pid_file replies host name s) λ t.
      or_fail replies new_runtime (announce title foreground t)
        λ u. finish replies host name (main config u)

-- `run`, for a component with this name and title.
unfoldable pub run_component :
    {C : Type 0}
    → String
    → String
    → Replies
    → Host
    → Result ConfigError C
    → (C → Main)
    → Bool
    → Bool
    → System
    → Ending DaemonError × System
unfolding is_running daemonize setup_logging or_fail finish write_pid_file
run_component name title replies host loaded main foreground verbose s =
    let (running, t) = is_running replies host name s in
    if running
    then (exited 1, act (eprint ("BlueCross " ++ name ++ " is already running\n")) t)
    else elim loaded [
      | err e ↦ (failed (bad_config e), t)
      | ok config ↦
          let go = λ (u : System).
            setup_logging replies host name verbose foreground u
              (λ logger v. started replies host name title foreground main config v) in
          if foreground then go t else daemonize replies t go
    ]

unfoldable pub run_server :
    Replies
    → Host
    → Result ConfigError ServerConfig
    → (ServerConfig → Main)
    → Bool
    → Bool
    → System
    → Ending DaemonError × System
unfolding run_component
run_server = run_component "server" "BlueCross Server"

unfoldable pub run_client :
    Replies
    → Host
    → Result ConfigError ClientConfig
    → (ClientConfig → Main)
    → Bool
    → Bool
    → System
    → Ending DaemonError × System
unfolding run_component
run_client = run_component "client" "BlueCross Client"
