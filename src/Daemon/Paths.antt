-- ===== src/Daemon/Paths.antt =====
-- src/daemon.rs: the directories and files of a component.
use Prim.Native.String.{◌++◌}
use text.Mathlib.Text.{starts_with}
use bluecross.Base.{Bool, true, none, some, String, not, if◌then◌else◌}
use bluecross.Base.Text.{is_empty, ends_with}
use bluecross.Base.Decimal.{decimal}
use bluecross.Base.Maps.{lookup}
use bluecross.Daemon.{Host, System, create_dir_all, set_permissions, act}

-- `Path::join`: an absolute path replaces, any other is put behind a separator.
unfoldable pub join : String → String → String
join base path =
    if starts_with path "/"
    then path
    else if is_empty base
    then path
    else if ends_with base "/"
    then base ++ path
    else base ++ "/" ++ path

-- `env::var(name).unwrap_or_else(...)`
abbrev pub var_or : Host → String → String → String
var_or host name fallback = elim (host.var name) [ none ↦ fallback | some value ↦ value ]

unfoldable pub log_dir : Host → String
unfolding join
log_dir host =
    join
      (join (var_or host "XDG_STATE_HOME" (var_or host "HOME" "/tmp" ++ "/.local/state"))
        "bluecross")
      "logs"

unfoldable pub get_log_dir : Host → System → String × System
get_log_dir host s = (log_dir host, act (create_dir_all (log_dir host)) s)

unfoldable pub own_dir : Host → String
own_dir host = "/tmp/bluecross-" ++ decimal host.uid

unfoldable pub run_dir : Host → String
unfolding join own_dir
run_dir host = elim (host.var "XDG_RUNTIME_DIR") [
  | none ↦ own_dir host
  | some dir ↦ if not (is_empty dir) then join dir "bluecross" else own_dir host
]

-- The mode is 0o700.
unfoldable pub get_run_dir : Host → System → String × System
get_run_dir host s =
    (run_dir host, act (set_permissions (run_dir host) 448) (act (create_dir_all (run_dir host)) s))

abbrev pub pid_path : Host → String → String
pid_path host name = join (run_dir host) (name ++ ".pid")

unfoldable pub get_pid_file : Host → String → System → String × System
unfolding get_run_dir
get_pid_file host name s = let (dir, t) = get_run_dir host s in (join dir (name ++ ".pid"), t)

abbrev pub exists : Host → String → System → Bool
exists host path s = elim (lookup path s.files) [
  | none ↦ host.is_unreadable path
  | some content ↦ true
]

abbrev pub xdg_config_file : Host → String
xdg_config_file host =
    join
      (join (var_or host "XDG_CONFIG_HOME" (var_or host "HOME" "/tmp" ++ "/.config")) "bluecross")
      "bluecross.json"

unfoldable pub get_default_config : Host → System → String
get_default_config host s =
    if exists host "bluecross.json" s
    then "bluecross.json"
    else if exists host (xdg_config_file host) s
    then xdg_config_file host
    else "bluecross.json"
