-- ===== src/Daemon/Ctl/Restart.antt =====
-- src/daemon.rs: `cmd_restart` ends one process and starts one.
use bluecross.Base.{ℕ, ◌+◌, ◌≡◌, true, ◌&&◌, [], ◌∷◌, ◌++◌ as append, List}
use bluecross.Daemon.{Replies, System, Action, Ending, DaemonError}
use bluecross.Daemon.Count.{one_if, count, is_term, is_launch}

-- The programs that were started: the attempts that succeeded, of these actions behind the others.
abbrev pub started_after : Replies → List Action → List Action → ℕ
started_after replies before [] = 0
started_after replies before (a ∷ more) =
    one_if (is_launch a && replies.succeeds (append before (a ∷ [])))
    + started_after replies (append before (a ∷ [])) more

abbrev pub programs_started : Replies → System → ℕ
programs_started replies s = started_after replies [] s.actions

-- No start of a program is refused.
abbrev pub CanStart : Replies → Type 0
CanStart replies =
    (before : List Action) (a : Action)
    → is_launch a ≡ true
    → replies.succeeds (append before (a ∷ [])) ≡ true

abbrev HasOneEach : System → Ending DaemonError × System → Type 0
HasOneEach s r =
    (count is_term r.1.actions ≡ count is_term s.actions + 1)
    × (count is_launch r.1.actions ≡ count is_launch s.actions + 1)
