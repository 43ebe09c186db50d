-- ===== src/Main.antt =====
-- src/main.rs: the choice of what to run. The crate `clap` parses the options; what it answers is an
-- argument, and the three things that can be run are arguments as well.
pub mod Names
use Prim.Native.Char.{code}
use Prim.Native.String.{◌∷◌, []}
use text.Mathlib.Text.{◌==◌ as str_eq}
use bluecross.Base.{
  ℕ, Bool, true, false, Option, none, some, List, String, ◌==◌, ◌||◌, if◌then◌else◌,
}
use bluecross.Base.Text.{is_empty}

pub record LegacyArgs : Type 0 where
  pub config : String
  pub foreground : Bool
  pub debug : Bool

pub data Commands : Type 0 where
  server : String → Bool → Bool → Commands
  client : String → Bool → Bool → Commands
  ctl : String → List String → Commands

-- `Path::file_name`: the last component, separators at the end and `.` left out, if it is a name.
unfoldable pub last_component : String → String → Option String → Option String
last_component part String.[] last = if is_empty part || str_eq part "." then last else some part
last_component part (String.◌∷◌ c more) last =
    let next = if is_empty part || str_eq part "." then last else some part in
    let ended = last_component "" more next in
    let longer = last_component (Prim.Native.String.◌++◌ part (c ∷ [])) more last in
    if code c == 47 then ended else longer

unfoldable pub file_name : String → Option String
unfolding last_component
file_name path = elim (last_component "" path none) [
  | none ↦ none
  | some name ↦ if str_eq name ".." then none else some name
]

-- What the program can run: `server::run`, `client::run`, `daemon::handle_ctl`.
pub record Parts {ℓ} (R : Type ℓ) : Type ℓ where
  pub run_server : String → Bool → Bool → R
  pub run_client : String → Bool → Bool → R
  pub handle_ctl : String → List String → R

abbrev pub or_empty : Option String → String
or_empty none = ""
or_empty (some s) = s

module _ {ℓ} {R : Type ℓ} where
  unfoldable pub run_command : Parts R → Commands → R
  run_command parts (server config foreground debug) = parts.run_server config foreground debug
  run_command parts (client config foreground debug) = parts.run_client config foreground debug
  run_command parts (ctl action args) = parts.handle_ctl action args

  unfoldable pub run_bluecrossctl : Parts R → List String → R
  run_bluecrossctl parts List.[] = parts.handle_ctl "status" List.[]
  run_bluecrossctl parts (List.◌∷◌ command rest) = parts.handle_ctl command rest

  -- `legacy` and `cli` are what `clap` makes of the arguments behind the program's name.
  unfoldable pub main :
      (List String → LegacyArgs) → (List String → Commands) → Parts R → List String → R
  unfolding file_name run_command run_bluecrossctl
  main legacy cli parts List.[] = run_command parts (cli List.[])
  main legacy cli parts (List.◌∷◌ exe args) =
      let exe_name = or_empty (file_name exe) in
      let a = legacy args in
      if str_eq exe_name "bluecross-server"
      then parts.run_server a.config a.foreground a.debug
      else if str_eq exe_name "bluecross-client"
      then parts.run_client a.config a.foreground a.debug
      else if str_eq exe_name "bluecrossctl"
      then run_bluecrossctl parts args
      else run_command parts (cli args)
