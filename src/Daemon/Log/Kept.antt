-- ===== src/Daemon/Log/Kept.antt =====
-- src/daemon.rs: what stands in the logger's files after any number of records.
use Prim.Native.String.{◌++◌}
use text.Mathlib.TextLemmas.{append_assoc, append-nil}
use bluecross.Base.{
  ℕ, ◌≡◌, refl, sym, ◌∙◌, ap, ap₂, Bool, true, false, Option, none, List, [], ◌∷◌, String, leb,
  arith, if◌then◌else◌,
}
use bluecross.Daemon.Log.{
  Level, error, warn, info, debug, trace, rank, BlueCrossLogger, Record, Time, line, Cuts, cut_at,
  log, to_terminal,
}

-- A record, the time at which it comes, and where the files fail on it.
abbrev pub Entry : Type 0
Entry = Cuts × Time × Record

abbrev pub log_each : List Entry → BlueCrossLogger → BlueCrossLogger
log_each [] l = l
log_each ((cuts, now, r) ∷ more) l = log_each more (log cuts now r l)

abbrev pub when : Bool → String → String
when true text = text
when false text = ""

-- The lines of the records up to a level, in order, each as far as it is written.
abbrev pub lines_up_to : (Cuts → Option ℕ) → ℕ → List Entry → String
lines_up_to at n [] = ""
lines_up_to at n ((cuts, now, r) ∷ more) =
    when (leb (rank r.level) n) (cut_at (at cuts) (line now r)) ++ lines_up_to at n more

abbrev pub whole : Cuts → Option ℕ
whole cuts = none

abbrev pub in_log_file : Cuts → Option ℕ
in_log_file cuts = cuts.in_log

abbrev pub in_error_file : Cuts → Option ℕ
in_error_file cuts = cuts.in_error

-- What a logger holds after it held `l` and took the lines of the records.
pub record IsAfter (records : List Entry) (l m : BlueCrossLogger) : Type 0 where
  pub log_file : m.log_file ≡ l.log_file ++ lines_up_to in_log_file (rank l.level) records
  pub error_file : m.error_file ≡ l.error_file ++ lines_up_to in_error_file (rank error) records
  pub printed :
      m.printed ≡ l.printed ++ when l.foreground (lines_up_to whole (rank l.level) records)

joined :
    (before text more after final : String)
    → after ≡ before ++ text
    → final ≡ after ++ more
    → final ≡ before ++ (text ++ more)
joined before text more after final e f = f ∙ ap (λ s. s ++ more) e ∙ append_assoc before text more

when_empty : (test : Bool) → when test "" ≡ ""
when_empty true = refl
when_empty false = refl

when-append : (test : Bool) (s t : String) → when test s ++ when test t ≡ when test (s ++ t)
when-append true s t = refl
when-append false s t = refl

low-rank : (level : Level) → leb (rank error) (rank level) ≡ true
low-rank error = refl
low-rank warn = refl
low-rank info = refl
low-rank debug = refl
low-rank trace = refl

low-enabled :
    (level filter : Level) → leb (rank level) (rank filter) ≡ false → leb (rank level) 1 ≡ false
low-enabled error filter h = absurd (ground (arith, low-rank filter))
low-enabled warn filter h = refl
low-enabled info filter h = refl
low-enabled debug filter h = refl
low-enabled trace filter h = refl

-- What a step of the logger with these answers of the two tests leaves, where `text` is its line, and
-- `in_log` and `in_error` what is written of it.
record IsStep (taken is_error : Bool) (text in_log in_error : String) (l m : BlueCrossLogger)
    : Type 0 where
  log_file : m.log_file ≡ l.log_file ++ when taken in_log
  error_file : m.error_file ≡ l.error_file ++ when is_error in_error
  printed : m.printed ≡ l.printed ++ when l.foreground (when taken text)
  level : m.level ≡ l.level
  foreground : m.foreground ≡ l.foreground

tests-IsStep :
    (taken is_error : Bool) (text in_log in_error : String) (l : BlueCrossLogger)
    → (taken ≡ false → is_error ≡ false)
    → IsStep taken is_error text in_log in_error l (
        if taken
        then to_terminal text (
            if is_error
            then record l { log_file = l.log_file ++ in_log; error_file = l.error_file ++ in_error }
            else record l { log_file = l.log_file ++ in_log })
        else l)
tests-IsStep true true text in_log in_error l h = ground (arith, append-nil l.printed)
tests-IsStep true false text in_log in_error l h =
    ground (arith, append-nil l.printed, append-nil l.error_file)
tests-IsStep false is_error text in_log in_error l h = ground (
  arith,
  append-nil l.printed,
  append-nil l.error_file,
  append-nil l.log_file,
  when_empty l.foreground,
)

log-IsStep :
    (cuts : Cuts) (now : Time) (r : Record) (l : BlueCrossLogger)
    → let text = line now r in
      IsStep
        (leb (rank r.level) (rank l.level))
        (leb (rank r.level) 1)
        text
        (cut_at cuts.in_log text)
        (cut_at cuts.in_error text)
        l
        (log cuts now r l)
unfolding log
log-IsStep cuts now r l =
    tests-IsStep (leb (rank r.level) (rank l.level)) (leb (rank r.level) 1) (line now r)
      (cut_at cuts.in_log (line now r)) (cut_at cuts.in_error (line now r)) l
      (low-enabled r.level l.level)

-- After any records, what was written to the log file is what was written before and then, in order,
-- the lines of the records up to the logger's level; to the error file the lines of every error. A
-- line whose write failed is there as far as it was written, the others are whole, and a failure on one
-- file or one line costs no other. What was printed grew by the whole lines of the records up to the
-- logger's level if it is in the foreground, and by nothing otherwise.
pub log_each-IsAfter :
    (records : List Entry) (l : BlueCrossLogger) → IsAfter records l (log_each records l)
log_each-IsAfter [] l = record {
  log_file = sym (append-nil l.log_file);
  error_file = sym (append-nil l.error_file);
  printed = sym (ap (λ s. l.printed ++ s) (when_empty l.foreground) ∙ append-nil l.printed);
}
log_each-IsAfter ((cuts, now, r) ∷ more) l =
    let m = log cuts now r l in
    let one = log-IsStep cuts now r l in
    let rest = log_each-IsAfter more m in
    let shown = when l.foreground (when (leb (rank r.level) (rank l.level)) (line now r)) in
    record {
      log_file =
          joined _ _ _ m.log_file _ one.log_file (
            rest.log_file
            ∙ ap (λ k. m.log_file ++ lines_up_to in_log_file (rank k) more) one.level);
      error_file = joined _ _ _ m.error_file _ one.error_file rest.error_file;
      printed =
          joined l.printed shown _ m.printed _ one.printed (
            rest.printed
            ∙ ap₂ (λ test n. m.printed ++ when test (lines_up_to whole n more)) one.foreground
                (ap rank one.level))
          ∙ ap (λ s. l.printed ++ s)
              (when-append l.foreground (when (leb (rank r.level) (rank l.level)) (line now r))
                (lines_up_to whole (rank l.level) more));
    }
