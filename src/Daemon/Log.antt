-- ===== src/Daemon/Log.antt =====
-- src/daemon.rs: the logger and its files.
pub mod Kept
use Prim.Native.String.{◌++◌, len, slice}
use bluecross.Base.{
  ℕ, zero, suc, ◌+◌, ◌-◌, Bool, true, false, Option, none, some, List, [], ◌∷◌, String, leb,
  if◌then◌else◌,
}
use bluecross.Base.Decimal.{decimal}
use bluecross.Daemon.{Replies, Host, System, Ending, DaemonError, open_append, set_logger, or_fail}
use bluecross.Daemon.Paths.{join, get_log_dir}

-- `log::Level`; a filter lets through the levels up to its own.
pub data Level : Type 0 where
  error warn info debug trace : Level

abbrev pub rank : Level → ℕ
rank error = 1
rank warn = 2
rank info = 3
rank debug = 4
rank trace = 5

-- What was written so far to the two files and to the terminal.
pub record BlueCrossLogger : Type 0 where
  pub log_file : String
  pub error_file : String
  pub printed : String
  pub foreground : Bool
  pub level : Level

pub record Record : Type 0 where
  pub target : String
  pub level : Level
  pub message : String

abbrev pub level_name : Level → String
level_name error = "ERROR"
level_name warn = "WARN"
level_name info = "INFO"
level_name debug = "DEBUG"
level_name trace = "TRACE"

-- The part of `libc::tm` that is printed.
pub record Time : Type 0 where
  pub tm_year : ℕ
  pub tm_mon : ℕ
  pub tm_mday : ℕ
  pub tm_hour : ℕ
  pub tm_min : ℕ
  pub tm_sec : ℕ

abbrev zeros : ℕ → String
zeros zero = ""
zeros (suc n) = "0" ++ zeros n

-- `{:04}` and `{:02}`
unfoldable pub padded : ℕ → ℕ → String
padded width n = zeros (width - len (decimal n)) ++ decimal n

unfoldable pub format_timestamp : Time → String
unfolding padded
format_timestamp tm =
    padded 4 (tm.tm_year + 1900)
    ++ "-"
    ++ padded 2 (tm.tm_mon + 1)
    ++ "-"
    ++ padded 2 tm.tm_mday
    ++ " "
    ++ padded 2 tm.tm_hour
    ++ ":"
    ++ padded 2 tm.tm_min
    ++ ":"
    ++ padded 2 tm.tm_sec

unfoldable pub enabled : BlueCrossLogger → Level → Bool
enabled l level = leb (rank level) (rank l.level)

abbrev pub line : Time → Record → String
line now r =
    format_timestamp now
    ++ " - "
    ++ r.target
    ++ " - "
    ++ level_name r.level
    ++ " - "
    ++ r.message
    ++ "\n"

-- How many characters of a line are written before a file fails, where it does. `log` drops the
-- failure. A character that is cut in two is left out.
pub record Cuts : Type 0 where
  pub in_log : Option ℕ
  pub in_error : Option ℕ

abbrev pub cut_at : Option ℕ → String → String
cut_at none text = text
cut_at (some n) text = slice text 0 n

abbrev pub to_error_file : Level → String → BlueCrossLogger → BlueCrossLogger
to_error_file level msg l =
    if leb (rank level) (rank error) then record l { error_file = l.error_file ++ msg } else l

abbrev pub to_terminal : String → BlueCrossLogger → BlueCrossLogger
to_terminal msg l = if l.foreground then record l { printed = l.printed ++ msg } else l

unfoldable pub log : Cuts → Time → Record → BlueCrossLogger → BlueCrossLogger
unfolding enabled
log cuts now r l =
    if enabled l r.level
    then to_terminal (line now r) (
        to_error_file r.level (cut_at cuts.in_error (line now r))
          (record l { log_file = l.log_file ++ cut_at cuts.in_log (line now r) }))
    else l

unfoldable pub new_logger : Bool → Bool → BlueCrossLogger
new_logger verbose foreground = record {
  log_file = "";
  error_file = "";
  printed = "";
  foreground = foreground;
  level = if verbose then debug else info;
}

-- What goes on with the logger that is installed is an argument.
unfoldable pub setup_logging :
    Replies
    → Host
    → String
    → Bool
    → Bool
    → System
    → (BlueCrossLogger → System → Ending DaemonError × System)
    → Ending DaemonError × System
unfolding or_fail get_log_dir join new_logger
setup_logging replies host name verbose foreground s k =
    let (dir, t) = get_log_dir host s in
    or_fail replies (open_append (join dir (name ++ ".log"))) t λ u.
      or_fail replies (open_append (join dir (name ++ ".error.log"))) u
        λ v. or_fail replies set_logger v (k (new_logger verbose foreground))
