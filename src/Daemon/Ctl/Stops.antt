-- ===== src/Daemon/Ctl/Stops.antt =====
-- src/daemon.rs: what `cmd_stop` does to a process that runs.
use Prim.Native.String.{◌++◌}
use bluecross.Base.{
  ℕ, ◌+◌, ◌≡◌, refl, ◌∙◌, ap, subst⁻¹, Bool, true, false, none, some, List, [], ◌∷◌, ◌++◌ as append,
  inl, inr, String, ℤ, arith, if◌then◌else◌,
}
use bluecross.Base.Maps.{lookup}
use bluecross.Daemon.{
  Replies, Host, System, Action, remove_file, probe, print, act, Ending, returned, DaemonError,
}
use bluecross.Daemon.Paths.{pid_path, get_run_dir, get_pid_file}
use bluecross.Daemon.Pid.{parsed, check_pid, read_pid, is_running, is_some, stop_daemon}
use bluecross.Daemon.Stop.{IsAsked, stop_daemon-Waited}
use bluecross.Daemon.Stop.Same.{same-stop_daemon}
use bluecross.Daemon.Count.{
  count, is_term, is_launch, Ignores, is_term-Ignores, is_launch-Ignores, same-print,
  same-get_run_dir, same-act,
}
use bluecross.Daemon.Ctl.{first_or, stop_found, stopping, cmd_stop}

both : (b : Bool) → b ≡ true → b ≡ false → ⊥
both b e f = cc

module _ (replies : Replies) (host : Host) (name : String) (pid : ℤ) (sent : ℕ) where
  -- A process that the pid file names, and that is found as long as no further SIGTERM was sent. The
  -- removal of the pid file is never refused.
  pub record IsAlive (s : System) : Type 0 where
    pub named : parsed (lookup (pid_path host name) s.files) ≡ some pid
    pub unsent : count is_term s.actions ≡ sent
    pub answers :
        (actions : List Action) → count is_term actions ≡ sent → replies.succeeds actions ≡ true
    pub removable :
        (before : List Action)
        → replies.succeeds (append before (remove_file (pid_path host name) ∷ [])) ≡ true

  abbrev pub look : System → System
  look s = act (probe pid) (get_run_dir host s).1

  unsent-look :
      (s : System) → count is_term s.actions ≡ sent → count is_term (look s).actions ≡ sent
  unsent-look s h =
      same-act is_term is_term-Ignores replies host name (probe pid) (get_run_dir host s).1 refl
      ∙ same-get_run_dir is_term is_term-Ignores replies host name s
      ∙ h

  pub look-IsAlive : (s : System) → IsAlive s → IsAlive (look s)
  unfolding get_run_dir
  look-IsAlive s h = record {
    named = h.named;
    unsent = unsent-look s h.unsent;
    answers = h.answers;
    removable = h.removable;
  }

  print-IsAlive : (text : String) (s : System) → IsAlive s → IsAlive (act (print text) s)
  print-IsAlive text s h = record {
    named = h.named;
    unsent = same-print is_term is_term-Ignores replies host name text s ∙ h.unsent;
    answers = h.answers;
    removable = h.removable;
  }

  read_pid-IsAlive : (s : System) → IsAlive s → read_pid replies host name s ≡ (some pid, look s)
  unfolding read_pid check_pid get_pid_file get_run_dir
  read_pid-IsAlive s h =
      let found = h.answers (look s).actions (unsent-look s h.unsent) in rw (h.named, found) refl

  pub is_running-IsAlive :
      (s : System) → IsAlive s → is_running replies host name s ≡ (true, look s)
  unfolding is_running
  is_running-IsAlive s h = ap (λ r. (is_some r.0, r.1)) (read_pid-IsAlive s h)

  -- What a stop does from `s` to `t`.
  pub record IsStopped (s t : System) : Type 0 where
    pub removed : lookup (pid_path host name) t.files ≡ none
    pub terms : count is_term t.actions ≡ count is_term s.actions + 1
    pub launches : count is_launch t.actions ≡ count is_launch s.actions

  asked-removed :
      (t : System)
      → ((before : List Action)
          → replies.succeeds (append before (remove_file (pid_path host name) ∷ [])) ≡ true)
      → IsAsked replies (pid_path host name) t
      → lookup (pid_path host name) t.files ≡ none
  asked-removed t can (before, last, inl e) = e
  asked-removed t can (before, last, inr e) =
      absurd (both (replies.succeeds t.actions) (ap replies.succeeds last ∙ can before) e)

  stop_daemon-IsStopped : (s : System) → IsAlive s → IsStopped s (stop_daemon replies host name s).1
  stop_daemon-IsStopped s h =
      let waited =
        stop_daemon-Waited replies host name pid s h.named
          (h.answers (look s).actions (unsent-look s h.unsent)) in
      record {
        removed = asked-removed (stop_daemon replies host name s).1 h.removable waited.1;
        terms = waited.2;
        launches =
            same-stop_daemon is_launch is_launch-Ignores replies host name (λ _. refl) (λ _. refl)
              s;
      }

  print-IsStopped :
      (text : String) (s t : System) → IsStopped s t → IsStopped s (act (print text) t)
  print-IsStopped text s t h = record {
    removed = h.removed;
    terms = same-print is_term is_term-Ignores replies host name text t ∙ h.terms;
    launches = same-print is_launch is_launch-Ignores replies host name text t ∙ h.launches;
  }

  IsStopped-choice :
      (test : Bool) (s t u : System)
      → IsStopped s t
      → IsStopped s u
      → IsStopped s (if test then t else u)
  IsStopped-choice true s t u h k = h
  IsStopped-choice false s t u h k = k

  -- Steps that neither signal nor start anything may come first.
  IsStopped-before :
      (r s t : System)
      → count is_term s.actions ≡ count is_term r.actions
      → count is_launch s.actions ≡ count is_launch r.actions
      → IsStopped s t
      → IsStopped r t
  IsStopped-before r s t e f h = record {
    removed = h.removed;
    terms = omega (arith, h.terms, e);
    launches = h.launches ∙ f;
  }

  pub same-look :
      (p : Action → Bool) (q : Ignores p) (s : System)
      → count p (look s).actions ≡ count p s.actions
  same-look p q s =
      same-act p q replies host name (probe pid) (get_run_dir host s).1 (q.probes pid)
      ∙ same-get_run_dir p q replies host name s

  -- The state in which `cmd_stop` calls `stop_daemon`.
  IsStopped-after_looks :
      (text : String) (s : System)
      → IsAlive s
      → IsStopped s (stop_daemon replies host name (act (print text) (look (look s)))).1
  IsStopped-after_looks text s h =
      let u = act (print text) (look (look s)) in
      let same : (p : Action → Bool) → Ignores p → count p u.actions ≡ count p s.actions = λ p q.
        same-print p q replies host name text (look (look s))
        ∙ same-look p q (look s)
        ∙ same-look p q s in
      IsStopped-before s u _ (same is_term is_term-Ignores) (same is_launch is_launch-Ignores) (
        stop_daemon-IsStopped u
          (print-IsAlive text (look (look s)) (look-IsAlive (look s) (look-IsAlive s h))))

  stop_found-IsStopped :
      (s : System)
      → IsAlive s
      → IsStopped s (stop_found replies host name (some pid, look (look s)))
  unfolding stop_found
  stop_found-IsStopped s h =
      let t =
        stop_daemon replies host name (act (print (stopping name (some pid))) (look (look s))) in
      let done = IsStopped-after_looks (stopping name (some pid)) s h in
      IsStopped-choice t.0 s _ _ (print-IsStopped _ s t.1 done) (print-IsStopped _ s t.1 done)

module _ (replies : Replies) (host : Host) (args : List String) (pid : ℤ) (sent : ℕ) where
  abbrev pub name : String
  name = first_or "server" args

  pub cmd_stop-IsStopped :
      (s : System)
      → IsAlive replies host name pid sent s
      → let r = cmd_stop replies host args s in
        (r.0 ≡ returned) × IsStopped replies host name pid sent s r.1
  unfolding cmd_stop
  cmd_stop-IsStopped s h =
      let t = look replies host name pid sent s in
      subst⁻¹
        (λ (x : Bool × System).
          let r : Ending DaemonError × System =
            if x.0
            then (returned, stop_found replies host name (read_pid replies host name x.1))
            else (returned, act (print ("BlueCross " ++ name ++ " is not running\n")) x.1) in
          (r.0 ≡ returned) × IsStopped replies host name pid sent s r.1)
        (is_running-IsAlive replies host name pid sent s h)
        (
          refl,
          subst⁻¹ (λ y. IsStopped replies host name pid sent s (stop_found replies host name y))
              (read_pid-IsAlive replies host name pid sent t
                (look-IsAlive replies host name pid sent s h))
              (stop_found-IsStopped replies host name pid sent s h),
        )
