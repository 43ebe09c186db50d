-- ===== src/Daemon/Ctl/Starts.antt =====
-- src/daemon.rs: what `cmd_start` starts when nothing runs.
use Prim.Native.String.{◌++◌}
use bluecross.Base.{
  ◌+◌, ◌≡◌, refl, ◌∙◌, subst⁻¹, ◌⊎◌, inl, inr, Bool, true, false, eq_iff, none, some, List, String,
  arith, if◌then◌else◌,
}
use bluecross.Base.Maps.{lookup}
use bluecross.Daemon.{
  Replies, Host, System, Action, sleep, create_dir_all, print, spawn, exec, act, pause, Ending,
  DaemonError, or_fail,
}
use bluecross.Daemon.Paths.{pid_path, get_run_dir, get_pid_file, get_log_dir, log_dir}
use bluecross.Daemon.Pid.{check_pid, read_pid, is_running, is_some}
use bluecross.Daemon.Count.{
  count, is_term, is_launch, Ignores, is_term-Ignores, is_launch-Ignores, count-act, same-print,
  same-read_pid, same-is_running, same-get_run_dir, same-act,
}
use bluecross.Daemon.Ctl.{
  first_or, in_foreground, is_bad, start_unless, print_pid, replace_process, report_start, launch,
  cmd_start,
}

module _ (p : Action → Bool) (q : Ignores p) (replies : Replies) (host : Host) (name : String) where
  same-print_pid :
      (before after : String) (s : System)
      → count p (print_pid before after replies host name s).actions ≡ count p s.actions
  same-print_pid before after s =
      same-print p q replies host name _ (read_pid replies host name s).1
      ∙ same-read_pid p q replies host name s

  same-choice :
      (test : Bool) (t u s : System)
      → count p t.actions ≡ count p s.actions
      → count p u.actions ≡ count p s.actions
      → count p (if test then t else u).actions ≡ count p s.actions
  same-choice true t u s h k = h
  same-choice false t u s h k = k

  looked :
      (s : System)
      → count p (is_running replies host name (pause replies 500 s)).1.actions ≡ count p s.actions
  looked s =
      same-is_running p q replies host name (pause replies 500 s)
      ∙ same-act p q replies host name (sleep 500) s (q.sleeps 500)

  same-report_start :
      (s : System) → count p (report_start replies host name s).1.actions ≡ count p s.actions
  unfolding report_start get_log_dir
  same-report_start s =
      let t = (is_running replies host name (pause replies 500 s)).1 in
      let text = "Failed to start BlueCross " ++ name ++ "\n" in
      let u = act (print text) t in
      same-choice (is_some (read_pid replies host name (pause replies 500 s)).0) _ _ s
        (same-print_pid _ _ t ∙ looked s)
        (same-print p q replies host name _ (get_log_dir host u).1
          ∙ same-act p q replies host name (create_dir_all (log_dir host)) u
              (q.creates (log_dir host))
          ∙ same-print p q replies host name text t
          ∙ looked s)

-- One program is started, and no signal is sent.
pub record IsStarted (s t : System) : Type 0 where
  pub launched : count is_launch t.actions ≡ count is_launch s.actions + 1
  pub unsignalled : count is_term t.actions ≡ count is_term s.actions

IsStarted-if :
    (test : Bool) (s : System) (r q : Ending DaemonError × System)
    → IsStarted s r.1
    → IsStarted s q.1
    → IsStarted s (if test then r else q).1
IsStarted-if true s r q h k = h
IsStarted-if false s r q h k = k

act-IsStarted :
    (a : Action) (s : System) → is_launch a ≡ true → is_term a ≡ false → IsStarted s (act a s)
act-IsStarted a s e f = ground (arith, count-act is_launch a s, count-act is_term a s)

module _ (replies : Replies) (host : Host) (name : String) where
  report_start-IsStarted :
      (s t : System) → IsStarted s t → IsStarted s (report_start replies host name t).1
  report_start-IsStarted s t h = record {
    launched = same-report_start is_launch is_launch-Ignores replies host name t ∙ h.launched;
    unsignalled = same-report_start is_term is_term-Ignores replies host name t ∙ h.unsignalled;
  }

  exec-IsStarted :
      (program : String) (options : List String) (s : System)
      → IsStarted s (replace_process replies program options s).1
  unfolding replace_process
  exec-IsStarted program options s =
      let done = act-IsStarted (exec program options) s refl refl in
      IsStarted-if (replies.succeeds (act (exec program options) s).actions) s _ _ done done

  spawn-IsStarted :
      (program : String) (options : List String) (s : System)
      → IsStarted s (or_fail replies (spawn program options) s (report_start replies host name)).1
  unfolding or_fail
  spawn-IsStarted program options s =
      let t = act (spawn program options) s in
      let done = act-IsStarted (spawn program options) s refl refl in
      IsStarted-if (replies.succeeds t.actions) s _ _ (report_start-IsStarted s t done) done

  launch-IsStarted :
      (args : List String) (program : String) (s : System)
      → IsStarted s (launch replies host name args program s).1
  unfolding launch
  launch-IsStarted args program s =
      IsStarted-if (in_foreground args) s _ _ (exec-IsStarted program _ s)
        (spawn-IsStarted program _ s)

  gone-is_running :
      (s : System)
      → lookup (pid_path host name) s.files ≡ none
      → is_running replies host name s ≡ (false, (get_run_dir host s).1)
  unfolding is_running read_pid check_pid get_pid_file get_run_dir
  gone-is_running s h = rw h refl

known :
    (component : String)
    → (component ≡ "server") ⊎ (component ≡ "client")
    → is_bad component ≡ false
known component (inl e) = ground (arith, eq_iff component "server")
known component (inr e) = ground (arith, eq_iff component "client")

start_unless-IsStarted :
    (replies : Replies) (host : Host) (component : String) (args : List String) (program : String)
    (s : System)
    → host.current_exe ≡ some program
    → IsStarted s (start_unless replies host component args (false, s)).1
unfolding start_unless
start_unless-IsStarted replies host component args program s e =
    rw e (launch-IsStarted replies host component args program s)

pub cmd_start-IsStarted :
    (replies : Replies) (host : Host) (args : List String) (program : String) (s : System)
    → let name = first_or "server" args in
      (name ≡ "server") ⊎ (name ≡ "client")
      → host.current_exe ≡ some program
      → lookup (pid_path host name) s.files ≡ none
      → IsStarted s (cmd_start replies host args s).1
unfolding cmd_start
cmd_start-IsStarted replies host args program s c e h =
    let name = first_or "server" args in
    let t = (get_run_dir host s).1 in
    let begun = start_unless-IsStarted replies host name args program t e in
    let looked : (p : Action → Bool) → Ignores p → count p t.actions ≡ count p s.actions =
      λ p q. same-get_run_dir p q replies host name s in
    let done : IsStarted s (start_unless replies host name args (false, t)).1 = record {
      launched = omega (arith, begun.launched, looked is_launch is_launch-Ignores);
      unsignalled = omega (arith, begun.unsignalled, looked is_term is_term-Ignores);
    } in
    rw (known name c) (
      subst⁻¹ (λ x. IsStarted s (start_unless replies host name args x).1)
        (gone-is_running replies host name s h) done)
