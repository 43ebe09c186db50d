-- ===== src/Daemon/Count.antt =====
-- src/daemon.rs: how often an action is made. The proofs about the end of a process and about the
-- commands count signals and starts.
use bluecross.Base.{
  ℕ, ◌+◌, ◌≡◌, refl, ◌∙◌, ap, Bool, true, false, Option, none, some, List, [], ◌∷◌, ◌++◌, String, ℤ,
  arith, if◌then◌else◌,
}
use bluecross.Base.Maps.{lookup, remove}
use bluecross.Daemon.{
  Replies, Host, System, Action, probe, sleep, terminate, force_kill, create_dir_all,
  set_permissions, remove_file, print, spawn, exec, act, remove_path,
}
use bluecross.Daemon.Paths.{pid_path, run_dir, get_run_dir, get_pid_file}
use bluecross.Daemon.Pid.{parsed, check_pid, read_pid, is_running, cleanup_pid}

abbrev pub one_if : Bool → ℕ
one_if true = 1
one_if false = 0

abbrev pub is_term : Action → Bool
is_term (terminate pid) = true
is_term _ = false

abbrev pub is_kill : Action → Bool
is_kill (force_kill pid) = true
is_kill _ = false

-- The milliseconds that are slept.
abbrev pub pause_of : Action → ℕ
pause_of (sleep ms) = ms
pause_of _ = 0

-- In all of the actions.
abbrev pub slept : List Action → ℕ
slept [] = 0
slept (a ∷ more) = pause_of a + slept more

pub slept-append : (xs ys : List Action) → slept (xs ++ ys) ≡ slept xs + slept ys
slept-append [] ys = omega arith
slept-append (a ∷ xs) ys = omega (arith, slept-append xs ys)

-- How many of the actions pass a test.
abbrev pub count : (Action → Bool) → List Action → ℕ
count p [] = 0
count p (a ∷ more) = one_if (p a) + count p more

pub count-append :
    (p : Action → Bool) (xs ys : List Action) → count p (xs ++ ys) ≡ count p xs + count p ys
count-append p [] ys = omega arith
count-append p (a ∷ xs) ys = omega (arith, count-append p xs ys)

pub count-act :
    (p : Action → Bool) (a : Action) (s : System)
    → count p (act a s).actions ≡ count p s.actions + one_if (p a)
count-act p a s = omega (arith, count-append p s.actions (a ∷ []))

pub count-get_run_dir :
    (p : Action → Bool) (host : Host) (s : System)
    → count p (get_run_dir host s).1.actions
      ≡ count p s.actions
        + one_if (p (create_dir_all (run_dir host)))
        + one_if (p (set_permissions (run_dir host) 448))
unfolding get_run_dir
count-get_run_dir p host s = omega (
  arith,
  count-act p (create_dir_all (run_dir host)) s,
  count-act p (set_permissions (run_dir host) 448) (act (create_dir_all (run_dir host)) s),
)

act_or_files :
    (b : Bool) (s : System) (files : List (String × String))
    → (if b then record s { files = files } else s).actions ≡ s.actions
act_or_files true s files = refl
act_or_files false s files = refl

pub remove_path-actions :
    (replies : Replies) (path : String) (s : System)
    → (remove_path replies path s).actions ≡ s.actions ++ remove_file path ∷ []
remove_path-actions replies path s =
    let t = act (remove_file path) s in
    act_or_files (replies.succeeds t.actions) t (remove path t.files)

pub count-cleanup_pid :
    (p : Action → Bool) (replies : Replies) (host : Host) (name : String) (s : System)
    → count p (cleanup_pid replies host name s).actions
      ≡ count p (get_run_dir host s).1.actions + one_if (p (remove_file (pid_path host name)))
unfolding cleanup_pid get_pid_file
count-cleanup_pid p replies host name s =
    ap (count p) (remove_path-actions replies (pid_path host name) (get_run_dir host s).1)
    ∙ omega (
      arith,
      count-append p (get_run_dir host s).1.actions (remove_file (pid_path host name) ∷ []),
    )

abbrev pub is_launch : Action → Bool
is_launch (spawn program args) = true
is_launch (exec program args) = true
is_launch _ = false

-- A test that none of the actions passes that look, report or remove.
pub record Ignores (p : Action → Bool) : Type 0 where
  pub probes : (pid : ℤ) → p (probe pid) ≡ false
  pub sleeps : (ms : ℕ) → p (sleep ms) ≡ false
  pub creates : (path : String) → p (create_dir_all path) ≡ false
  pub permits : (path : String) (mode : ℕ) → p (set_permissions path mode) ≡ false
  pub removes : (path : String) → p (remove_file path) ≡ false
  pub prints : (text : String) → p (print text) ≡ false

pub is_term-Ignores : Ignores is_term
is_term-Ignores = record {
  probes = λ _. refl;
  sleeps = λ _. refl;
  creates = λ _. refl;
  permits = λ _ _. refl;
  removes = λ _. refl;
  prints = λ _. refl;
}

pub is_launch-Ignores : Ignores is_launch
is_launch-Ignores = record {
  probes = λ _. refl;
  sleeps = λ _. refl;
  creates = λ _. refl;
  permits = λ _ _. refl;
  removes = λ _. refl;
  prints = λ _. refl;
}

module _ (p : Action → Bool) (q : Ignores p) (replies : Replies) (host : Host) (name : String) where
  pub same-get_run_dir : (s : System) → count p (get_run_dir host s).1.actions ≡ count p s.actions
  same-get_run_dir s =
      ground
        (arith, count-get_run_dir p host s, q.creates (run_dir host), q.permits (run_dir host) 448)

  pub same-act :
      (a : Action) (s : System) → p a ≡ false → count p (act a s).actions ≡ count p s.actions
  same-act a s h = ground (arith, count-act p a s, h)

  same-if :
      (test : Bool) (x y : Option ℤ × System) (s : System)
      → count p x.1.actions ≡ count p s.actions
      → count p y.1.actions ≡ count p s.actions
      → count p (if test then x else y).1.actions ≡ count p s.actions
  same-if true x y s h k = h
  same-if false x y s h k = k

  same-probe : (pid : ℤ) (s : System) → count p (act (probe pid) s).actions ≡ count p s.actions
  same-probe pid s = same-act (probe pid) s (q.probes pid)

  pub same-print :
      (text : String) (s : System) → count p (act (print text) s).actions ≡ count p s.actions
  same-print text s = same-act (print text) s (q.prints text)

  pub same-check_pid :
      (found : Option ℤ) (s : System)
      → count p (check_pid replies (pid_path host name) found s).1.actions ≡ count p s.actions
  unfolding check_pid
  same-check_pid none s = refl
  same-check_pid (some pid) s =
      let t = act (probe pid) s in
      same-if (replies.succeeds t.actions) (some pid, t)
        (none, remove_path replies (pid_path host name) t) s (same-probe pid s)
        (ap (count p) (remove_path-actions replies (pid_path host name) t)
          ∙ same-act (remove_file (pid_path host name)) t (q.removes (pid_path host name))
          ∙ same-probe pid s)

  pub same-read_pid :
      (s : System) → count p (read_pid replies host name s).1.actions ≡ count p s.actions
  unfolding read_pid get_pid_file get_run_dir
  same-read_pid s =
      same-check_pid (parsed (lookup (pid_path host name) s.files)) (get_run_dir host s).1
      ∙ same-get_run_dir s

  pub same-is_running :
      (s : System) → count p (is_running replies host name s).1.actions ≡ count p s.actions
  unfolding is_running
  same-is_running s = same-read_pid s
