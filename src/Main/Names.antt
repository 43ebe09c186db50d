-- ===== src/Main/Names.antt =====
-- src/main.rs: the program under its other names.
use Prim.Native.Char.{code}
use Prim.Native.String.{◌∷◌, [], ◌++◌}
use text.Mathlib.TextLemmas.{nil-append, cons-append}
use text.Mathlib.Text.{◌==◌ as str_eq}
use bluecross.Base.{
  ◌≡◌, refl, ◌∙◌, ap, sym, Bool, true, false, Option, none, some, List, String, ◌==◌, if◌then◌else◌,
}
use bluecross.Main.{
  LegacyArgs, Commands, server, client, ctl, last_component, file_name, Parts, run_command,
  run_bluecrossctl, or_empty, main,
}

-- The name under which a command can be called.
abbrev pub alias : Commands → String
alias (server config foreground debug) = "bluecross-server"
alias (client config foreground debug) = "bluecross-client"
alias (ctl action args) = "bluecrossctl"

-- The path by which a program is called: through `PATH` by its name alone, or from a directory.
abbrev pub called : Option String → String → String
called none name = name
called (some dir) name = dir ++ ("/" ++ name)

-- What the arguments under that name have to say.
abbrev pub IsSaid : (List String → LegacyArgs) → List String → Commands → Type 0
IsSaid legacy args (server config foreground debug) =
    legacy args ≡ record { config = config; foreground = foreground; debug = debug }
IsSaid legacy args (client config foreground debug) =
    legacy args ≡ record { config = config; foreground = foreground; debug = debug }
IsSaid legacy args (ctl action rest) = args ≡ List.◌∷◌ action rest

if-same {ℓ} : {A : Type ℓ} (test : Bool) (x y z : A) → x ≡ z → y ≡ z → (if test then x else y) ≡ z
if-same true x y z e f = e
if-same false x y z e f = f

-- A directory in front of a file's name does not change what is found, wherever it is found from.
module _ (tail name : String)
    (found : (part : String) (last : Option String)
      → last_component part tail last ≡ some name) where
  last_component-append :
      (dir part : String) (last : Option String)
      → last_component part (dir ++ tail) last ≡ some name
  unfolding last_component
  last_component-append [] part last =
      ap (λ t. last_component part t last) (nil-append tail) ∙ found part last
  last_component-append (c ∷ dir) part last =
      ap (λ t. last_component part t last) (cons-append c dir tail)
      ∙ if-same (code c == 47) _ _ (some name) (last_component-append dir "" _)
          (last_component-append dir (part ++ (c ∷ "")) last)

file_name-append :
    (tail name dir : String)
    → ((part : String) (last : Option String) → last_component part tail last ≡ some name)
    → str_eq name ".." ≡ false
    → file_name (dir ++ tail) ≡ some name
unfolding file_name
file_name-append tail name dir found proper =
    ap
      (λ (o : Option String). elim o [
        | none ↦ none
        | some n ↦ if str_eq n ".." then none else some n
      ])
      (last_component-append tail name found dir "" none)
    ∙ ap (λ test. if test then none else some name) proper

module _ {ℓ} {R : Type ℓ} (legacy : List String → LegacyArgs) (cli : List String → Commands)
    (parts : Parts R) where
  -- The choice by the name alone.
  abbrev choose : List String → Option String → R
  choose args name =
      let exe_name = or_empty name in
      let a = legacy args in
      if str_eq exe_name "bluecross-server"
      then parts.run_server a.config a.foreground a.debug
      else if str_eq exe_name "bluecross-client"
      then parts.run_client a.config a.foreground a.debug
      else if str_eq exe_name "bluecrossctl"
      then run_bluecrossctl parts args
      else run_command parts (cli args)

  choose-main :
      (tail name dir : String) (args : List String)
      → ((part : String) (last : Option String) → last_component part tail last ≡ some name)
      → str_eq name ".." ≡ false
      → main legacy cli parts (List.◌∷◌ (dir ++ tail) args) ≡ choose args (some name)
  unfolding main
  choose-main tail name dir args found proper =
      ap (choose args) (file_name-append tail name dir found proper)

  choose-called :
      (name : String) (dir : Option String) (args : List String)
      → file_name name ≡ some name
      → ((part : String) (last : Option String)
          → last_component part ("/" ++ name) last ≡ some name)
      → str_eq name ".." ≡ false
      → main legacy cli parts (List.◌∷◌ (called dir name) args) ≡ choose args (some name)
  unfolding main
  choose-called name none args bare found proper = ap (choose args) bare
  choose-called name (some dir) args bare found proper =
      choose-main ("/" ++ name) name dir args found proper

  under_alias :
      (c : Commands) (dir : Option String) (args : List String)
      → IsSaid legacy args c
      → main legacy cli parts (List.◌∷◌ (called dir (alias c)) args) ≡ run_command parts c
  unfolding run_command run_bluecrossctl last_component file_name
  under_alias (server config foreground debug) dir args h =
      choose-called "bluecross-server" dir args refl (λ _ _. refl) refl
      ∙ ap (λ (a : LegacyArgs). parts.run_server a.config a.foreground a.debug) h
  under_alias (client config foreground debug) dir args h =
      choose-called "bluecross-client" dir args refl (λ _ _. refl) refl
      ∙ ap (λ (a : LegacyArgs). parts.run_client a.config a.foreground a.debug) h
  under_alias (ctl action rest) dir args h =
      choose-called "bluecrossctl" dir args refl (λ _ _. refl) refl ∙ ap (run_bluecrossctl parts) h

  -- A command runs the same part with the same options whether it is given to `bluecross` as a
  -- subcommand or by the program's name, `bluecross-server`, `bluecross-client` or `bluecrossctl`,
  -- both from whatever directory or by the name alone: `clap` parses the subcommand to this command,
  -- and the arguments under the other name say the same.
  pub main-alias :
      (c : Commands) (dir other : Option String) (args more : List String)
      → IsSaid legacy args c
      → cli more ≡ c
      → main legacy cli parts (List.◌∷◌ (called dir (alias c)) args)
        ≡ main legacy cli parts (List.◌∷◌ (called other "bluecross") more)
  unfolding last_component file_name
  main-alias c dir other args more h parsed =
      under_alias c dir args h
      ∙ ap (run_command parts) (sym parsed)
      ∙ sym (choose-called "bluecross" other more refl (λ _ _. refl) refl)
