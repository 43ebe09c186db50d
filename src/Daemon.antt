-- ===== src/Daemon.antt =====
-- src/daemon.rs: what its functions see of the machine they run on, and what they do to it. Calls of
-- the kernel, of other programs and of the terminal are a list of actions; a call's answer is an
-- argument that may depend on all actions before it.
pub mod Paths
pub mod Pid
pub mod Count
pub mod Stop
pub mod Fork
pub mod Log
pub mod Start
pub mod Ctl
use Prim.Native.String.{slice}
use bluecross.Base.{
  ℕ, Bool, true, false, Option, none, some, List, [], ◌∷◌, ◌++◌, String, ℤ, if◌then◌else◌,
}
use bluecross.Base.Maps.{insert, remove}
use bluecross.Config.{ConfigError}

pub data Action : Type 0 where
  -- `kill` with signal 0, SIGTERM and SIGKILL
  probe : ℤ → Action
  terminate : ℤ → Action
  force_kill : ℤ → Action
  sleep : ℕ → Action
  create_dir_all : String → Action
  set_permissions : String → ℕ → Action
  write : String → String → Action
  remove_file : String → Action
  open_append : String → Action
  fork setsid umask open_null redirect_stdio set_logger new_runtime : Action
  set_current_dir : String → Action
  print : String → Action
  eprint : String → Action
  -- a program with its arguments: started, or put in place of this process
  spawn : String → List String → Action
  exec : String → List String → Action

-- Whether the last action succeeded; for a fork that did, whether this is the parent; of a write that
-- failed, how much is in the file, unless the file was not even opened. While this process sleeps,
-- others may change the files.
pub record Replies : Type 0 where
  pub succeeds : List Action → Bool
  pub is_parent : List Action → Bool
  pub partly : List Action → Option ℕ
  pub meanwhile : List Action → List (String × String) → List (String × String)

-- The environment's variables, the user, this process and its program, and which paths exist and
-- cannot be read as a text.
pub record Host : Type 0 where
  pub var : String → Option String
  pub uid : ℕ
  pub process_id : ℕ
  pub current_exe : Option String
  pub is_unreadable : String → Bool

-- The files that can be read, with their contents, and the actions so far.
pub record System : Type 0 where
  pub files : List (String × String)
  pub actions : List Action

abbrev pub act : Action → System → System
act a s = record s { actions = s.actions ++ a ∷ [] }

abbrev pub pause : Replies → ℕ → System → System
pause replies ms s =
    let t = act (sleep ms) s in record t { files = replies.meanwhile t.actions t.files }

-- `fs::remove_file` with its answer dropped. If it fails, the file stays.
abbrev pub remove_path : Replies → String → System → System
remove_path replies path s =
    let t = act (remove_file path) s in
    if replies.succeeds t.actions then record t { files = remove path t.files } else t

-- `fs::write`: a file that could be opened is emptied first.
abbrev pub write_path : Replies → String → String → System → Bool × System
write_path replies path content s =
    let t = act (write path content) s in
    (
      replies.succeeds t.actions,
      if replies.succeeds t.actions
          then record t { files = insert path content t.files }
          else elim (replies.partly t.actions) [
            | none ↦ t
            | some n ↦ record t { files = insert path (slice content 0 n) t.files }
          ],
    )

pub data DaemonError : Type 0 where
  call_failed : Action → DaemonError
  bad_component no_current_exe pid_not_written : DaemonError
  bad_config : ConfigError → DaemonError
  -- what the program's main part returned
  run_failed : DaemonError

-- How a command of this process ends. A process that is replaced, or that exits, does not return.
pub data Ending {ℓ} (E : Type ℓ) : Type ℓ where
  returned : Ending E
  failed : E → Ending E
  exited : ℕ → Ending E
  replaced panicked : Ending E

-- A call whose failure the caller passes on.
unfoldable pub or_fail :
    Replies → Action → System → (System → Ending DaemonError × System) → Ending DaemonError × System
or_fail replies a s k =
    let t = act a s in if replies.succeeds t.actions then k t else (failed (call_failed a), t)
