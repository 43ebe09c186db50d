-- ===== src/Daemon/Ctl.antt =====
-- src/daemon.rs: the commands of `bluecrossctl`.
pub mod Dispatch
pub mod Stops
pub mod Starts
pub mod Restart
use Prim.Native.String.{◌++◌}
use text.Mathlib.Text.{◌==◌ as str_eq}
use bluecross.Base.{
  Bool, true, false, Option, none, some, List, [], ◌∷◌, ◌++◌ as append, String, ℤ, pos, ◌||◌, ◌&&◌,
  not, if◌then◌else◌,
}
use bluecross.Base.Decimal.{decimal_ℤ}
use bluecross.Daemon.{
  Replies, Host, System, Ending, returned, failed, exited, replaced, DaemonError, call_failed,
  bad_component, no_current_exe, print, eprint, spawn, exec, act, pause, or_fail,
}
use bluecross.Daemon.Paths.{join, get_log_dir, get_default_config}
use bluecross.Daemon.Pid.{read_pid, is_running, stop_daemon}

abbrev pub first_or : String → List String → String
first_or fallback [] = fallback
first_or fallback (a ∷ args) = a

-- `args.iter().any(|a| a == short || a == long)`
abbrev pub has_flag : String → String → List String → Bool
has_flag short long [] = false
has_flag short long (a ∷ args) = (str_eq a short || str_eq a long) || has_flag short long args

-- `read_pid(component).unwrap_or(0)`, printed.
abbrev pub shown_pid : Option ℤ → String
shown_pid none = "0"
shown_pid (some pid) = decimal_ℤ pid

abbrev pub print_pid : String → String → Replies → Host → String → System → System
print_pid before after replies host component s =
    let (pid, t) = read_pid replies host component s in
    act (print ("BlueCross " ++ component ++ before ++ shown_pid pid ++ after)) t

-- The program with the options that both ways of starting pass on.
abbrev pub arguments : Host → String → System → List String
arguments host component s = component ∷ "-c" ∷ get_default_config host s ∷ []

abbrev pub in_foreground : List String → Bool
in_foreground args = has_flag "-f" "--foreground" args

abbrev pub in_debug : List String → Bool
in_debug args = has_flag "-d" "--debug" args

-- `exec` returns only when it fails.
unfoldable pub replace_process :
    Replies → String → List String → System → Ending DaemonError × System
replace_process replies program args s =
    let t = act (exec program args) s in
    if replies.succeeds t.actions
    then (replaced, t)
    else (failed (call_failed (exec program args)), t)

-- Half a second after the start.
unfoldable pub report_start : Replies → Host → String → System → Ending DaemonError × System
unfolding is_running read_pid get_log_dir join
report_start replies host component s =
    let (running, t) = is_running replies host component (pause replies 500 s) in
    let (dir, u) =
      get_log_dir host (act (print ("Failed to start BlueCross " ++ component ++ "\n")) t) in
    (
      returned,
      if running
          then print_pid " started (PID: " ")\n" replies host component t
          else act (print ("Check logs at: " ++ join dir (component ++ ".log") ++ "\n")) u,
    )

unfoldable pub launch :
    Replies → Host → String → List String → String → System → Ending DaemonError × System
unfolding replace_process report_start or_fail get_default_config
launch replies host component args program s =
    let options = arguments host component s in
    let spawned = if in_debug args then append options ("-d" ∷ []) else options in
    if in_foreground args
    then replace_process replies program (append options ("-f" ∷ [])) s
    else or_fail replies (spawn program spawned) s (report_start replies host component)

-- The part of `cmd_start` behind `is_running`.
unfoldable pub start_unless :
    Replies → Host → String → List String → Bool × System → Ending DaemonError × System
unfolding launch read_pid
start_unless replies host component args (running, t) =
    if running
    then (returned, print_pid " is already running (PID: " ")\n" replies host component t)
    else elim host.current_exe [
      | none ↦ (failed no_current_exe, t)
      | some program ↦ launch replies host component args program t
    ]

abbrev pub is_bad : String → Bool
is_bad component = not (str_eq component "server") && not (str_eq component "client")

unfoldable pub cmd_start : Replies → Host → List String → System → Ending DaemonError × System
unfolding start_unless is_running
cmd_start replies host args s =
    let component = first_or "server" args in
    if is_bad component
    then (failed bad_component, s)
    else start_unless replies host component args (is_running replies host component s)

abbrev pub stopping : String → Option ℤ → String
stopping component pid =
    "Stopping BlueCross " ++ component ++ " (PID: " ++ shown_pid pid ++ ")...\n"

-- The part of `cmd_stop` behind `read_pid`.
unfoldable pub stop_found : Replies → Host → String → Option ℤ × System → System
unfolding stop_daemon
stop_found replies host component (pid, s) =
    let (stopped, t) =
      stop_daemon replies host component (act (print (stopping component pid)) s) in
    if stopped
    then act (print ("BlueCross " ++ component ++ " stopped\n")) t
    else act (print ("Failed to stop BlueCross " ++ component ++ "\n")) t

unfoldable pub cmd_stop : Replies → Host → List String → System → Ending DaemonError × System
unfolding is_running read_pid stop_found
cmd_stop replies host args s =
    let component = first_or "server" args in
    let (running, t) = is_running replies host component s in
    if running
    then (returned, stop_found replies host component (read_pid replies host component t))
    else (returned, act (print ("BlueCross " ++ component ++ " is not running\n")) t)

-- `cmd_stop(args)?`
abbrev pub then_go :
    Ending DaemonError × System
    → (System → Ending DaemonError × System)
    → Ending DaemonError × System
then_go (returned, s) k = k s
then_go (ending, s) k = (ending, s)

-- The part of `cmd_restart` behind `is_running`.
unfoldable pub restart_found :
    Replies → Host → List String → Bool × System → Ending DaemonError × System
unfolding cmd_start cmd_stop
restart_found replies host args (running, t) =
    if running
    then then_go (cmd_stop replies host args t) (cmd_start replies host args)
    else cmd_start replies host args t

unfoldable pub cmd_restart : Replies → Host → List String → System → Ending DaemonError × System
unfolding restart_found is_running
cmd_restart replies host args s =
    restart_found replies host args (is_running replies host (first_or "server" args) s)

unfoldable pub status_each : Replies → Host → List String → System → System
unfolding read_pid
status_each replies host [] s = s
status_each replies host (c ∷ more) s =
    let (pid, t) = read_pid replies host c s in
    status_each replies host more (
      act
        (print (elim pid [
          | some p ↦ "BlueCross " ++ c ++ ": running (PID: " ++ decimal_ℤ p ++ ")\n"
          | none ↦ "BlueCross " ++ c ++ ": stopped\n"
        ]))
        t)

unfoldable pub cmd_status : Replies → Host → List String → System → Ending DaemonError × System
unfolding status_each
cmd_status replies host args s =
    let component = first_or "all" args in
    (
      returned,
      status_each replies host
          (if str_eq component "all" then "server" ∷ "client" ∷ [] else component ∷ []) s,
    )
