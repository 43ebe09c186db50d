-- ===== src/Daemon/Fork.antt =====
-- src/daemon.rs: `daemonize`.
use bluecross.Base.{if◌then◌else◌}
use bluecross.Daemon.{
  Replies, System, Ending, failed, exited, DaemonError, call_failed, fork, setsid, set_current_dir,
  umask, open_null, redirect_stdio, act, or_fail,
}

-- A fork: the parent exits, the child goes on.
unfoldable pub fork_child :
    Replies → System → (System → Ending DaemonError × System) → Ending DaemonError × System
fork_child replies s k =
    let t = act fork s in
    if replies.succeeds t.actions
    then if replies.is_parent t.actions then (exited 0, t) else k t
    else (failed (call_failed fork), t)

-- What the grandchild does next is an argument.
unfoldable pub daemonize :
    Replies → System → (System → Ending DaemonError × System) → Ending DaemonError × System
unfolding fork_child or_fail
daemonize replies s k = fork_child replies s λ t. or_fail replies setsid t λ u.
    or_fail replies (set_current_dir "/") u λ v.
      fork_child replies (act umask v)
        λ w. or_fail replies open_null w λ x. k (act redirect_stdio x)
