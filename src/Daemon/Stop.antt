-- ===== src/Daemon/Stop.antt =====
-- src/daemon.rs: how `stop_daemon` ends a process.
pub mod Same
use text.Mathlib.TextPositions.{eq_refl}
use bluecross.Base.{
  ℕ, zero, suc, ◌+◌, ◌≤◌, ◌≡◌, refl, ◌∙◌, ap, subst⁻¹, Bool, true, false, Option, none, some, List,
  [], ◌∷◌, ◌++◌, ◌⊎◌, inl, inr, Bool-cases, ◌*◌, String, ℤ, arith, ◌&&◌, if◌then◌else◌,
}
use bluecross.Base.Maps.{lookup, lookup-remove}
use bluecross.Daemon.{
  Replies, Host, System, Action, probe, terminate, force_kill, sleep, create_dir_all,
  set_permissions, remove_file, act, pause, remove_path,
}
use bluecross.Daemon.Paths.{pid_path, run_dir, get_pid_file, get_run_dir}
use bluecross.Daemon.Count.{
  Ignores, same-act, same-read_pid, count, one_if, is_term, is_kill, slept, pause_of, slept-append,
  remove_path-actions, count-act, count-get_run_dir, count-cleanup_pid,
}
use bluecross.Daemon.Pid.{
  wait, wait_or_kill, read_pid, stop, stop_daemon, check_pid, parsed, cleanup_pid,
}

pub count-wait :
    (p : Action → Bool) (replies : Replies) (pid : ℤ) (s : System)
    → count p (wait replies pid s).actions
      ≡ count p s.actions + one_if (p (sleep 100)) + one_if (p (probe pid))
count-wait p replies pid s =
    omega (arith, count-act p (probe pid) (pause replies 100 s), count-act p (sleep 100) s)

-- The last action asks for the removal of a file, which is then gone, unless that was refused.
abbrev pub IsAsked : Replies → String → System → Type 0
IsAsked replies path t =
    (before : List Action) × (t.actions ≡ before ++ remove_file path ∷ [])
    × ((lookup path t.files ≡ none) ⊎ (replies.succeeds t.actions ≡ false))

remove_path-IsAsked :
    (replies : Replies) (path : String) (s : System)
    → IsAsked replies path (remove_path replies path s)
remove_path-IsAsked replies path s =
    let t = act (remove_file path) s in
    (
      s.actions,
      remove_path-actions replies path s,
      elim (Bool-cases (replies.succeeds t.actions)) [
        | inl e ↦ inl (rw (e, lookup-remove path path s.files, eq_refl path) refl)
        | inr e ↦ inr (rw e e)
      ],
    )

pub cleanup_pid-IsAsked :
    (replies : Replies) (host : Host) (name : String) (s : System)
    → IsAsked replies (pid_path host name) (cleanup_pid replies host name s)
unfolding cleanup_pid get_pid_file get_run_dir
cleanup_pid-IsAsked replies host name s =
    remove_path-IsAsked replies (pid_path host name) (get_run_dir host s).1

slept-act : (a : Action) (s : System) → slept (act a s).actions ≡ slept s.actions + pause_of a
slept-act a s = omega (arith, slept-append s.actions (a ∷ []))

slept-cleanup_pid :
    (replies : Replies) (host : Host) (name : String) (s : System)
    → slept (cleanup_pid replies host name s).actions ≡ slept s.actions
unfolding cleanup_pid get_pid_file get_run_dir
slept-cleanup_pid replies host name s =
    let path = pid_path host name in
    let t = act (create_dir_all (run_dir host)) s in
    let u = act (set_permissions (run_dir host) 448) t in
    ap slept (remove_path-actions replies path u)
    ∙ omega (
      arith,
      slept-act (remove_file path) u,
      slept-act (set_permissions (run_dir host) 448) t,
      slept-act (create_dir_all (run_dir host)) s,
    )

slept-wait :
    (replies : Replies) (pid : ℤ) (s : System)
    → slept (wait replies pid s).actions ≡ slept s.actions + 100
slept-wait replies pid s =
    omega (arith, slept-act (probe pid) (pause replies 100 s), slept-act (sleep 100) s)

-- The counts after `cleanup_pid`, of actions that are none of its own.
abbrev IsOther : (Action → Bool) → Host → String → Type 0
IsOther p host name =
    (p (create_dir_all (run_dir host)) ≡ false)
    × (p (set_permissions (run_dir host) 448) ≡ false)
    × (p (remove_file (pid_path host name)) ≡ false)

pub cleanup_same :
    (p : Action → Bool) (replies : Replies) (host : Host) (name : String) (s : System)
    → IsOther p host name
    → count p (cleanup_pid replies host name s).actions ≡ count p s.actions
cleanup_same p replies host name s h =
    ground (arith, count-cleanup_pid p replies host name s, count-get_run_dir p host s)

-- The counts until the signal has been sent, of actions that `get_run_dir` does not make.
count-until :
    (p : Action → Bool) (host : Host) (pid : ℤ) (s : System)
    → (p (create_dir_all (run_dir host)) ≡ false) × (p (set_permissions (run_dir host) 448) ≡ false)
    → count p (act (terminate pid) (act (probe pid) (get_run_dir host s).1)).actions
      ≡ count p s.actions + one_if (p (probe pid)) + one_if (p (terminate pid))
count-until p host pid s h = ground (
  arith,
  count-get_run_dir p host s,
  count-act p (probe pid) (get_run_dir host s).1,
  count-act p (terminate pid) (act (probe pid) (get_run_dir host s).1),
)

slept-until :
    (host : Host) (pid : ℤ) (s : System)
    → slept (act (terminate pid) (act (probe pid) (get_run_dir host s).1)).actions ≡ slept s.actions
unfolding get_run_dir
slept-until host pid s =
    let t = act (create_dir_all (run_dir host)) s in
    let u = act (set_permissions (run_dir host) 448) t in
    omega (
      arith,
      slept-act (terminate pid) (act (probe pid) u),
      slept-act (probe pid) u,
      slept-act (set_permissions (run_dir host) 448) t,
      slept-act (create_dir_all (run_dir host)) s,
    )

-- The process answers each of so many probes.
abbrev pub outlives : Replies → ℕ → ℤ → System → Bool
outlives replies zero pid s = true
outlives replies (suc rounds) pid s =
    let t = wait replies pid s in replies.succeeds t.actions && outlives replies rounds pid t

-- What a wait of so many rounds does from `s` to `t`.
pub record Waited (replies : Replies) (host : Host) (name : String) (rounds : ℕ) (pid : ℤ)
    (s t : System) : Type 0 where
  pub removed : IsAsked replies (pid_path host name) t
  pub terms : count is_term t.actions ≡ count is_term s.actions
  pub kills :
      count is_kill t.actions ≡ count is_kill s.actions + one_if (outlives replies rounds pid s)
  pub sleeps : slept t.actions ≤ slept s.actions + 100 * rounds

-- One round, by the answer of its probe.
round :
    (replies : Replies) (host : Host) (name : String) (rounds : ℕ) (pid : ℤ) (s : System)
    (answer : Bool) (later : System)
    → replies.succeeds (wait replies pid s).actions ≡ answer
    → Waited replies host name rounds pid (wait replies pid s) later
    → Waited replies host name
        (suc rounds)
        pid
        s
        (if answer then later else cleanup_pid replies host name (wait replies pid s))
round replies host name rounds pid s true later e h = record {
  removed = h.removed;
  terms = omega (arith, h.terms, count-wait is_term replies pid s);
  kills = ground (arith, e, h.kills, count-wait is_kill replies pid s);
  sleeps = omega (arith, h.sleeps, slept-wait replies pid s);
}
round replies host name rounds pid s false later e h =
    let t = wait replies pid s in
    record {
      removed = cleanup_pid-IsAsked replies host name t;
      terms = omega (
        arith,
        cleanup_same is_term replies host name t (refl, refl, refl),
        count-wait is_term replies pid s,
      );
      kills = ground (
        arith,
        e,
        cleanup_same is_kill replies host name t (refl, refl, refl),
        count-wait is_kill replies pid s,
      );
      sleeps = omega (arith, slept-cleanup_pid replies host name t, slept-wait replies pid s);
    }

wait_or_kill-Waited :
    (replies : Replies) (host : Host) (name : String) (rounds : ℕ) (pid : ℤ) (s : System)
    → Waited replies host name rounds pid s (wait_or_kill replies host name rounds pid s)
unfolding wait_or_kill
wait_or_kill-Waited replies host name zero pid s =
    let k = act (force_kill pid) s in
    record {
      removed = cleanup_pid-IsAsked replies host name k;
      terms = omega (
        arith,
        cleanup_same is_term replies host name k (refl, refl, refl),
        count-act is_term (force_kill pid) s,
      );
      kills = omega (
        arith,
        cleanup_same is_kill replies host name k (refl, refl, refl),
        count-act is_kill (force_kill pid) s,
      );
      sleeps = omega (arith, slept-cleanup_pid replies host name k, slept-act (force_kill pid) s);
    }
wait_or_kill-Waited replies host name (suc rounds) pid s =
    let t = wait replies pid s in
    let h = wait_or_kill-Waited replies host name rounds pid t in
    round replies host name rounds pid s (replies.succeeds t.actions)
      (wait_or_kill replies host name rounds pid t) refl h

stops :
    (replies : Replies) (host : Host) (name : String) (pid : ℤ) (s : System)
    → parsed (lookup (pid_path host name) s.files) ≡ some pid
    → let r = (get_run_dir host s).1 in
      replies.succeeds (act (probe pid) r).actions ≡ true
      → stop_daemon replies host name s
        ≡ (true, wait_or_kill replies host name 50 pid (act (terminate pid) (act (probe pid) r)))
unfolding stop_daemon stop check_pid read_pid get_pid_file get_run_dir
stops replies host name pid s e f =
    let path = pid_path host name in
    let r = (get_run_dir host s).1 in
    ap (λ found. stop replies host name (check_pid replies path found r)) e
    ∙ ap
        (λ (b : Bool). stop replies host name (
          if b
          then (some pid, act (probe pid) r)
          else (none, remove_path replies path (act (probe pid) r))))
        f

pub stop_daemon-Waited :
    (replies : Replies) (host : Host) (name : String) (pid : ℤ) (s : System)
    → parsed (lookup (pid_path host name) s.files) ≡ some pid
    → let r = act (probe pid) (get_run_dir host s).1 in
      replies.succeeds r.actions ≡ true
      → let t = (stop_daemon replies host name s).1 in
        ((stop_daemon replies host name s).0 ≡ true)
        × IsAsked replies (pid_path host name) t
        × (count is_term t.actions ≡ count is_term s.actions + 1)
        × (count is_kill t.actions
            ≡ count is_kill s.actions + one_if (outlives replies 50 pid (act (terminate pid) r)))
        × (slept t.actions ≤ slept s.actions + 5000)
stop_daemon-Waited replies host name pid s e f =
    let q = (get_run_dir host s).1 in
    let r = act (probe pid) q in
    let u = act (terminate pid) r in
    let h = wait_or_kill-Waited replies host name 50 pid u in
    subst⁻¹
      (λ (x : Bool × System).
        (x.0 ≡ true)
        × IsAsked replies (pid_path host name) x.1
        × (count is_term x.1.actions ≡ count is_term s.actions + 1)
        × (count is_kill x.1.actions ≡ count is_kill s.actions + one_if (outlives replies 50 pid u))
        × (slept x.1.actions ≤ slept s.actions + 5000))
      (stops replies host name pid s e f)
      (
        refl,
        h.removed,
        omega (arith, h.terms, count-until is_term host pid s (refl, refl)),
        omega (arith, h.kills, count-until is_kill host pid s (refl, refl)),
        omega (arith, h.sleeps, slept-until host pid s),
      )
