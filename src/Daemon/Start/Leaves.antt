-- ===== src/Daemon/Start/Leaves.antt =====
-- src/server.rs and src/client.rs: what `run` leaves of the pid file.
use Prim.Native.String.{◌++◌}
use text.Mathlib.TextPositions.{eq_refl}
use bluecross.Base.{
  ◌≡◌, refl, ◌⊎◌, inl, inr, Bool, true, false, Option, none, some, List, [], ◌∷◌, ◌++◌ as append,
  String, ℤ, Bool-cases, Result, ok, err, Outcome, done, panic, if◌then◌else◌,
}
use bluecross.Base.Maps.{lookup, remove, lookup-remove}
use bluecross.Config.{ConfigError}
use bluecross.Daemon.{
  Replies, Host, System, Action, Ending, returned, failed, run_failed, pid_not_written, remove_file,
  exited, panicked, DaemonError, call_failed, new_runtime, probe, open_append, set_logger, fork,
  setsid, umask, set_current_dir, open_null, redirect_stdio, act, or_fail,
}
use bluecross.Daemon.Paths.{join, pid_path, get_pid_file, get_run_dir, get_log_dir}
use bluecross.Daemon.Pid.{is_running, read_pid, check_pid, parsed, write_pid_file, cleanup_pid}
use bluecross.Daemon.Fork.{fork_child, daemonize}
use bluecross.Daemon.Log.{BlueCrossLogger, new_logger, setup_logging}
use bluecross.Daemon.Stop.{cleanup_pid-IsAsked}
use bluecross.Daemon.Start.{Main, finish, started, announce, pid_written, run_component}

-- The pid file is gone, or holds what it held.
abbrev pub IsKeptOrGone : Host → String → System → System → Type 0
IsKeptOrGone host name s t =
    let path = pid_path host name in
    (lookup path t.files ≡ none) ⊎ (lookup path t.files ≡ lookup path s.files)

-- An ending with something at the pid file that `run` put there: the program panicked, or had no
-- runtime, or the file could not be written.
pub data IsCut : Ending DaemonError → Type 0 where
  panics : IsCut panicked
  has_no_runtime : IsCut (failed (call_failed new_runtime))
  not_written : IsCut (failed pid_not_written)

-- The last thing done was to ask for the removal of a file, and that was refused.
abbrev pub IsRefused : Replies → String → System → Type 0
IsRefused replies path t =
    (before : List Action) × (t.actions ≡ append before (remove_file path ∷ []))
    × (replies.succeeds t.actions ≡ false)

-- What an ending of `run` leaves.
data Leaves (replies : Replies) (host : Host) (name : String) (s : System)
    (r : Ending DaemonError × System) : Type 0 where
  cut : IsCut r.0 → Leaves replies host name s r
  refused : IsRefused replies (pid_path host name) r.1 → Leaves replies host name s r
  left : IsKeptOrGone host name s r.1 → Leaves replies host name s r

module _ (replies : Replies) (host : Host) (name : String) (s : System) where
  Leaves-if :
      (test : Bool) (r q : Ending DaemonError × System)
      → Leaves replies host name s r
      → Leaves replies host name s q
      → Leaves replies host name s (if test then r else q)
  Leaves-if true r q h k = h
  Leaves-if false r q h k = k

  Leaves-or_fail :
      (a : Action) (t : System) (k : System → Ending DaemonError × System)
      → IsKeptOrGone host name s t
      → ((u : System) → IsKeptOrGone host name s u → Leaves replies host name s (k u))
      → Leaves replies host name s (or_fail replies a t k)
  unfolding or_fail
  Leaves-or_fail a t k h later =
      Leaves-if (replies.succeeds (act a t).actions) (k (act a t)) _ (later (act a t) h) (left h)

  Leaves-fork_child :
      (t : System) (k : System → Ending DaemonError × System)
      → IsKeptOrGone host name s t
      → ((u : System) → IsKeptOrGone host name s u → Leaves replies host name s (k u))
      → Leaves replies host name s (fork_child replies t k)
  unfolding fork_child
  Leaves-fork_child t k h later =
      Leaves-if (replies.succeeds (act fork t).actions)
        (if replies.is_parent (act fork t).actions then (exited 0, act fork t) else k (act fork t))
        _
        (Leaves-if (replies.is_parent (act fork t).actions) (exited 0, act fork t) _ (left h)
          (later (act fork t) h))
        (left h)

  Leaves-daemonize :
      (t : System) (k : System → Ending DaemonError × System)
      → IsKeptOrGone host name s t
      → ((u : System) → IsKeptOrGone host name s u → Leaves replies host name s (k u))
      → Leaves replies host name s (daemonize replies t k)
  unfolding daemonize
  Leaves-daemonize t k h later = Leaves-fork_child t _ h λ u hu.
      Leaves-or_fail setsid u _ hu λ v hv. Leaves-or_fail (set_current_dir "/") v _ hv λ w hw.
        Leaves-fork_child (act umask w) _ hw
          λ x hx. Leaves-or_fail open_null x _ hx λ y hy. later (act redirect_stdio y) hy

  log_dir_kept :
      (t : System) → IsKeptOrGone host name s t → IsKeptOrGone host name s (get_log_dir host t).1
  unfolding get_log_dir
  log_dir_kept t h = h

  Leaves-setup_logging :
      (verbose foreground : Bool) (t : System)
      (k : BlueCrossLogger → System → Ending DaemonError × System)
      → IsKeptOrGone host name s t
      → ((logger : BlueCrossLogger) (u : System)
          → IsKeptOrGone host name s u
          → Leaves replies host name s (k logger u))
      → Leaves replies host name s (setup_logging replies host name verbose foreground t k)
  unfolding setup_logging
  Leaves-setup_logging verbose foreground t k h later =
      let (dir, t') = get_log_dir host t in
      Leaves-or_fail (open_append (join dir (name ++ ".log"))) t' _ (log_dir_kept t h) λ u hu.
        Leaves-or_fail (open_append (join dir (name ++ ".error.log"))) u _ hu
          λ v hv. Leaves-or_fail set_logger v _ hv (later (new_logger verbose foreground))

  Leaves-cleanup :
      (ending : Ending DaemonError) (t : System)
      → Leaves replies host name s (ending, cleanup_pid replies host name t)
  Leaves-cleanup ending t =
      let (before, last, gone) = cleanup_pid-IsAsked replies host name t in
      elim gone [ inl e ↦ left (inl e) | inr e ↦ refused (before, last, e) ]

  Leaves-finish :
      (r : Outcome Bool × System) → Leaves replies host name s (finish replies host name r)
  unfolding finish
  Leaves-finish (panic, t) = cut panics
  Leaves-finish (done true, t) = Leaves-cleanup returned t
  Leaves-finish (done false, t) = Leaves-cleanup (failed run_failed) t

  Leaves-runtime :
      (t : System) (k : System → Ending DaemonError × System)
      → ((u : System) → Leaves replies host name s (k u))
      → Leaves replies host name s (or_fail replies new_runtime t k)
  unfolding or_fail
  Leaves-runtime t k later =
      Leaves-if (replies.succeeds (act new_runtime t).actions) (k (act new_runtime t)) _
        (later (act new_runtime t)) (cut has_no_runtime)

  Leaves-pid_written :
      (w : Bool × System) (k : System → Ending DaemonError × System)
      → ((u : System) → Leaves replies host name s (k u))
      → Leaves replies host name s (pid_written w k)
  Leaves-pid_written (true, t) k later = later t
  Leaves-pid_written (false, t) k later = cut not_written

  Leaves-started :
      {C : Type 0} (title : String) (foreground : Bool) (main : C → Main) (config : C) (t : System)
      → Leaves replies host name s (started replies host name title foreground main config t)
  Leaves-started title foreground main config t =
      Leaves-pid_written (write_pid_file replies host name t) _
        λ u. Leaves-runtime (announce title foreground u) _ λ v. Leaves-finish (main config v)

  removed_kept :
      (b : Bool) (actions : List Action)
      → let path = pid_path host name in
        let t : System = record { files = s.files; actions = actions } in
        let files = (if b then record t { files = remove path t.files } else t).files in
        (lookup path files ≡ none) ⊎ (lookup path files ≡ lookup path s.files)
  removed_kept true actions =
      let path = pid_path host name in inl (rw (lookup-remove path path s.files, eq_refl path) refl)
  removed_kept false actions = inr refl

  check_kept :
      (found : Option ℤ)
      → IsKeptOrGone host name s
          (check_pid replies (pid_path host name) found (get_run_dir host s).1).1
  unfolding check_pid get_run_dir
  check_kept none = inr refl
  check_kept (some pid) =
      let path = pid_path host name in
      let t = act (probe pid) (get_run_dir host s).1 in
      elim (Bool-cases (replies.succeeds t.actions)) [
        | inl e ↦ rw e (inr refl)
        | inr e ↦ rw e (
            removed_kept (replies.succeeds (act (remove_file path) t).actions)
              (act (remove_file path) t).actions)
      ]

  running_kept : IsKeptOrGone host name s (is_running replies host name s).1
  unfolding is_running read_pid get_pid_file get_run_dir
  running_kept = check_kept (parsed (lookup (pid_path host name) s.files))

  module _ {C : Type 0} (title : String) (main : C → Main) (foreground verbose : Bool) where
    Leaves-logged :
        (config : C) (u : System)
        → IsKeptOrGone host name s u
        → Leaves replies host name s (
            setup_logging replies host name verbose foreground u
              (λ logger v. started replies host name title foreground main config v))
    Leaves-logged config u hu =
        Leaves-setup_logging verbose foreground u _ hu
          λ logger v hv. Leaves-started title foreground main config v

    Leaves-run :
        (loaded : Result ConfigError C)
        → Leaves replies host name s
            (run_component name title replies host loaded main foreground verbose s)
    unfolding run_component
    Leaves-run (err e) =
        Leaves-if (is_running replies host name s).0 _ _ (left running_kept) (left running_kept)
    Leaves-run (ok config) =
        let t = (is_running replies host name s).1 in
        Leaves-if (is_running replies host name s).0 _ _ (left running_kept) (
          Leaves-if foreground _ _ (Leaves-logged config t running_kept)
            (Leaves-daemonize t _ running_kept (Leaves-logged config)))

Leaves-or :
    (replies : Replies) (host : Host) (name : String) (s : System) (r : Ending DaemonError × System)
    → Leaves replies host name s r
    → IsCut r.0 ⊎ (IsKeptOrGone host name s r.1 ⊎ IsRefused replies (pid_path host name) r.1)
Leaves-or replies host name s r (cut h) = inl h
Leaves-or replies host name s r (left h) = inr (inl h)
Leaves-or replies host name s r (refused h) = inr (inr h)

-- However `run` ends, on every branch and whatever the calls answer, one of these holds. Its
-- component's pid file is gone or holds what it held before; or the last call of `run` was the removal
-- of the pid file, and that was refused; or `run` ended by a panic of the main part, because no runtime
-- could be made, or because the pid file could not be written, and what it wrote may be there.
pub run_component-IsKeptOrGone :
    {C : Type 0} (name title : String) (replies : Replies) (host : Host)
    (loaded : Result ConfigError C) (main : C → Main) (foreground verbose : Bool) (s : System)
    → let r = run_component name title replies host loaded main foreground verbose s in
      IsCut r.0 ⊎ (IsKeptOrGone host name s r.1 ⊎ IsRefused replies (pid_path host name) r.1)
run_component-IsKeptOrGone name title replies host loaded main foreground verbose s =
    Leaves-or replies host name s _
      (Leaves-run replies host name s title main foreground verbose loaded)
