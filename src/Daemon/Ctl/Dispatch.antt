-- ===== src/Daemon/Ctl/Dispatch.antt =====
-- src/daemon.rs: `cmd_logs`, and the choice of a command in `handle_ctl`.
use Prim.Native.String.{◌++◌}
use text.Mathlib.Text.{◌==◌ as str_eq}
use bluecross.Base.{ℕ, Option, none, some, List, [], ◌∷◌, String, ◌||◌, not, if◌then◌else◌}
use bluecross.Base.Decimal.{decimal}
use bluecross.Base.Parse.{parse_usize}
use bluecross.Daemon.{
  Replies, Host, System, Ending, returned, exited, DaemonError, print, eprint, act,
}
use bluecross.Daemon.Paths.{join, get_log_dir, exists}
use bluecross.Daemon.Ctl.{
  first_or, has_flag, replace_process, cmd_start, cmd_stop, cmd_restart, cmd_status,
}

-- What stands behind the first `-n` or `--lines`.
unfoldable pub lines_option : List String → Option String
lines_option [] = none
lines_option (a ∷ args) =
    let rest = lines_option args in
    if str_eq a "-n" || str_eq a "--lines"
    then elim args [ [] ↦ none | v ∷ more ↦ some v ]
    else rest

unfoldable pub lines_shown : List String → ℕ
unfolding lines_option parse_usize
lines_shown args = elim (lines_option args) [
  | none ↦ 50
  | some v ↦ elim (parse_usize v) [ none ↦ 50 | some n ↦ n ]
]

unfoldable pub cmd_logs : Replies → Host → List String → System → Ending DaemonError × System
unfolding lines_shown replace_process get_log_dir join
cmd_logs replies host args s =
    let component = first_or "server" args in
    let (dir, t) = get_log_dir host s in
    let log_file =
      if has_flag "-e" "--error" args
      then join dir (component ++ ".error.log")
      else join dir (component ++ ".log") in
    if not (exists host log_file t)
    then (returned, act (print ("No logs found at " ++ log_file ++ "\n")) t)
    else if has_flag "-f" "--follow" args
    then replace_process replies "tail" ("-f" ∷ log_file ∷ []) t
    else replace_process replies "tail" ("-n" ∷ decimal (lines_shown args) ∷ log_file ∷ []) t

unfoldable pub handle_ctl :
    Replies → Host → String → List String → System → Ending DaemonError × System
unfolding cmd_start cmd_stop cmd_restart cmd_status cmd_logs
handle_ctl replies host command args s =
    if str_eq command "start"
    then cmd_start replies host args s
    else if str_eq command "stop"
    then cmd_stop replies host args s
    else if str_eq command "restart"
    then cmd_restart replies host args s
    else if str_eq command "status"
    then cmd_status replies host args s
    else if str_eq command "logs"
    then cmd_logs replies host args s
    else (exited 1, act (eprint ("Unknown command: " ++ command ++ "\n")) s)
