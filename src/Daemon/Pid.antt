-- ===== src/Daemon/Pid.antt =====
-- src/daemon.rs: the pid file of a component, and the end of the process that it names.
pub mod RoundTrip
use Prim.Native.Char.{code}
use bluecross.Base.{
  ℕ, zero, suc, ◌+◌, ◌-◌, ◌*◌, ◌^◌, Bool, true, false, Option, none, some, String, ℤ, pos, negsuc,
  leb, ltb, ◌==◌, ◌&&◌, if◌then◌else◌,
}
use bluecross.Base.Text.{trim}
use bluecross.Base.Decimal.{decimal}
use bluecross.Base.Parse.{parse_i32}
use bluecross.Base.Maps.{lookup}
use bluecross.Daemon.{
  Replies, Host, System, probe, terminate, force_kill, pause, act, remove_path, write_path,
}
use bluecross.Daemon.Paths.{pid_path, get_pid_file, get_run_dir}

-- `fs::write(&pid_file, ...)?`: whether it succeeded.
unfoldable pub write_pid_file : Replies → Host → String → System → Bool × System
unfolding get_pid_file
write_pid_file replies host name s =
    let (path, t) = get_pid_file host name s in write_path replies path (decimal host.process_id) t

-- The pid of a process that runs; the file of one that does not is removed.
unfoldable pub check_pid : Replies → String → Option ℤ → System → Option ℤ × System
check_pid replies path none s = (none, s)
check_pid replies path (some pid) s =
    let t = act (probe pid) s in
    if replies.succeeds t.actions then (some pid, t) else (none, remove_path replies path t)

abbrev pub parsed : Option String → Option ℤ
parsed none = none
parsed (some content) = parse_i32 (trim content)

unfoldable pub read_pid : Replies → Host → String → System → Option ℤ × System
unfolding check_pid get_pid_file
read_pid replies host name s =
    let (path, t) = get_pid_file host name s in
    check_pid replies path (parsed (lookup path t.files)) t

abbrev pub is_some {ℓ} : {A : Type ℓ} → Option A → Bool
is_some none = false
is_some (some a) = true

unfoldable pub is_running : Replies → Host → String → System → Bool × System
unfolding read_pid
is_running replies host name s = let (pid, t) = read_pid replies host name s in (is_some pid, t)

-- `fs::remove_file(get_pid_file(name))`
unfoldable pub cleanup_pid : Replies → Host → String → System → System
unfolding get_pid_file
cleanup_pid replies host name s =
    let (path, t) = get_pid_file host name s in remove_path replies path t

-- A round of the wait: a tenth of a second, and a probe.
abbrev pub wait : Replies → ℤ → System → System
wait replies pid s = act (probe pid) (pause replies 100 s)

-- The loop and what follows it.
unfoldable pub wait_or_kill : Replies → Host → String → ℕ → ℤ → System → System
unfolding cleanup_pid
wait_or_kill replies host name zero pid s = cleanup_pid replies host name (act (force_kill pid) s)
wait_or_kill replies host name (suc rounds) pid s =
    let t = wait replies pid s in
    let later = wait_or_kill replies host name rounds pid t in
    if replies.succeeds t.actions then later else cleanup_pid replies host name t

unfoldable pub stop : Replies → Host → String → Option ℤ × System → Bool × System
unfolding wait_or_kill
stop replies host name (none, s) = (false, s)
stop replies host name (some pid, s) =
    (true, wait_or_kill replies host name 50 pid (act (terminate pid) s))

unfoldable pub stop_daemon : Replies → Host → String → System → Bool × System
unfolding stop read_pid
stop_daemon replies host name s = stop replies host name (read_pid replies host name s)
