-- ===== src/Daemon/Stop/Same.antt =====
-- src/daemon.rs: what `stop_daemon` does besides.
use bluecross.Base.{
  ℕ, zero, suc, ◌≡◌, refl, ◌∙◌, Bool, true, false, Option, none, some, String, ℤ, arith,
  if◌then◌else◌,
}
use bluecross.Daemon.{Replies, Host, System, Action, terminate, force_kill, act}
use bluecross.Daemon.Paths.{pid_path, run_dir}
use bluecross.Daemon.Count.{Ignores, same-act, same-read_pid, count}
use bluecross.Daemon.Pid.{wait, wait_or_kill, read_pid, stop, stop_daemon, cleanup_pid}
use bluecross.Daemon.Stop.{count-wait, cleanup_same}

-- Stopping a process makes no other actions than signals and those of looking and waiting.
module _ (p : Action → Bool) (q : Ignores p) (replies : Replies) (host : Host) (name : String)
    (terms : (pid : ℤ) → p (terminate pid) ≡ false)
    (kills : (pid : ℤ) → p (force_kill pid) ≡ false) where
  same-wait : (pid : ℤ) (s : System) → count p (wait replies pid s).actions ≡ count p s.actions
  same-wait pid s = ground (arith, count-wait p replies pid s, q.sleeps 100, q.probes pid)

  same-cleanup_pid :
      (s : System) → count p (cleanup_pid replies host name s).actions ≡ count p s.actions
  same-cleanup_pid s =
      cleanup_same p replies host name s
        (q.creates (run_dir host), q.permits (run_dir host) 448, q.removes (pid_path host name))

  same-choice :
      (test : Bool) (t u s : System)
      → count p t.actions ≡ count p s.actions
      → count p u.actions ≡ count p s.actions
      → count p (if test then t else u).actions ≡ count p s.actions
  same-choice true t u s h k = h
  same-choice false t u s h k = k

  same-wait_or_kill :
      (rounds : ℕ) (pid : ℤ) (s : System)
      → count p (wait_or_kill replies host name rounds pid s).actions ≡ count p s.actions
  unfolding wait_or_kill
  same-wait_or_kill zero pid s =
      same-cleanup_pid (act (force_kill pid) s)
      ∙ same-act p q replies host name (force_kill pid) s (kills pid)
  same-wait_or_kill (suc rounds) pid s =
      let t = wait replies pid s in
      same-choice (replies.succeeds t.actions) _ _ s
        (same-wait_or_kill rounds pid t ∙ same-wait pid s) (same-cleanup_pid t ∙ same-wait pid s)

  same-stop :
      (found : Option ℤ × System)
      → count p (stop replies host name found).1.actions ≡ count p found.1.actions
  unfolding stop
  same-stop (none, s) = refl
  same-stop (some pid, s) =
      same-wait_or_kill 50 pid (act (terminate pid) s)
      ∙ same-act p q replies host name (terminate pid) s (terms pid)

  pub same-stop_daemon :
      (s : System) → count p (stop_daemon replies host name s).1.actions ≡ count p s.actions
  unfolding stop_daemon
  same-stop_daemon s =
      same-stop (read_pid replies host name s) ∙ same-read_pid p q replies host name s
