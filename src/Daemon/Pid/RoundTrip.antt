-- ===== src/Daemon/Pid/RoundTrip.antt =====
-- src/daemon.rs: a pid file that was written is read back.
use Prim.Native.String.{◌∷◌, []}
use text.Mathlib.TextPositions.{eq_refl}
use bluecross.Base.{
  ℕ, zero, suc, ◌+◌, ◌-◌, ◌*◌, ◌/◌, ◌%◌, ◌^◌, ◌<◌, ◌≡◌, refl, ◌∙◌, ap, true, false, some, inl, inr,
  Bool-cases, String, pos, arith, leb, ltb,
}
use bluecross.Base.Text.{is_empty}
use bluecross.Base.Decimal.{
  digit, print_digits, decimal, code-digit, IsDigits, print_digits-IsDigits, trim-IsDigits,
}
use bluecross.Base.Parse.{digits, positive, parse_i32}
use bluecross.Base.Maps.{lookup, lookup-insert}
use bluecross.Daemon.{Replies, Host, System, probe, act, write_path}
use bluecross.Daemon.Paths.{pid_path, get_pid_file, get_run_dir}
use bluecross.Daemon.Pid.{parsed, check_pid, write_pid_file, read_pid}

-- A text of digits has no sign.
unsigned :
    (text : String)
    → IsDigits text
    → is_empty text ≡ false
    → parse_i32 text ≡ positive (digits 0 text)
unfolding parse_i32
unsigned [] h k = cc
unsigned (c ∷ text) h k = ground arith

print_digits-filled :
    (fuel n : ℕ) (text : String)
    → is_empty text ≡ false
    → is_empty (print_digits fuel n text) ≡ false
unfolding print_digits
print_digits-filled zero n text h = h
print_digits-filled (suc fuel) n text h =
    ground (arith, print_digits-filled fuel (n / 10) (digit (n % 10) ∷ text) refl)

decimal-filled : (n : ℕ) → is_empty (decimal n) ≡ false
unfolding decimal print_digits
decimal-filled n = ground (arith, print_digits-filled n (n / 10) (digit (n % 10) ∷ "") refl)

digits-cons :
    (value d : ℕ) (text : String)
    → d < 10
    → digits value (digit d ∷ text) ≡ digits (value * 10 + d) text
unfolding digits
digits-cons value d text h =
    let low : leb 48 (48 + d) ≡ true = ground arith in
    let high : leb (48 + d) 57 ≡ true = ground arith in
    let drop : 48 + d - 48 ≡ d = omega arith in rw (code-digit d h, low, high, drop) refl

digits-print_digits :
    (fuel n : ℕ) (text : String) → n < fuel → digits 0 (print_digits fuel n text) ≡ digits n text
unfolding print_digits
digits-print_digits zero n text h = absurd (omega arith)
digits-print_digits (suc fuel) n text h =
    let tens = digits-print_digits fuel (n / 10) (digit (n % 10) ∷ text) in
    elim (Bool-cases (ltb n 10)) [
      | inl e ↦ rw (e, digits-cons 0 n text (ground arith)) (ap (λ m. digits m text) (omega arith))
      | inr e ↦
          rw (e, tens (ground arith), digits-cons (n / 10) (n % 10) text (omega arith))
            (ap (λ m. digits m text) (omega arith))
    ]

parsed-decimal : (n : ℕ) → n < 2 ^ 31 → parsed (some (decimal n)) ≡ some (pos n)
unfolding decimal digits
parsed-decimal n h =
    let all = print_digits-IsDigits (suc n) n "" tt in
    ap parse_i32 (trim-IsDigits (decimal n) all)
    ∙ unsigned (decimal n) all (decimal-filled n)
    ∙ ap positive (digits-print_digits (suc n) n "" (omega arith))
    ∙ ground arith

-- What reading finds at a path that holds such a number.
check_pid-decimal :
    (replies : Replies) (path : String) (n : ℕ) (s : System)
    → n < 2 ^ 31
    → lookup path s.files ≡ some (decimal n)
    → replies.succeeds (act (probe (pos n)) s).actions ≡ true
    → check_pid replies path (parsed (lookup path s.files)) s
      ≡ (some (pos n), act (probe (pos n)) s)
unfolding check_pid
check_pid-decimal replies path n s h e alive =
    let found : parsed (lookup path s.files) ≡ some (pos n) = rw e (parsed-decimal n h) in
    rw (found, alive) refl

-- What a write that succeeds leaves at its path.
write_path-lookup :
    (replies : Replies) (path content : String) (s : System)
    → (write_path replies path content s).0 ≡ true
    → lookup path (write_path replies path content s).1.files ≡ some content
write_path-lookup replies path content s h =
    rw (h, lookup-insert path path content s.files, eq_refl path) refl

-- A process that wrote its pid file and is still alive is found again: `write_pid_file` answered yes,
-- the number of the process is an `i32`, and `kill` with signal 0 finds the process. Then `read_pid`
-- of the same component returns that number and leaves the files as they are.
pub write_pid_file-read_pid :
    (replies : Replies) (host : Host) (name : String) (s : System)
    → host.process_id < 2 ^ 31
    → let t = write_pid_file replies host name s in
      t.0 ≡ true
      → let u = (get_run_dir host t.1).1 in
        replies.succeeds (act (probe (pos host.process_id)) u).actions ≡ true
        → ((read_pid replies host name t.1).0 ≡ some (pos host.process_id))
          × ((read_pid replies host name t.1).1.files ≡ t.1.files)
unfolding write_pid_file read_pid get_pid_file get_run_dir
write_pid_file-read_pid replies host name s h wrote alive =
    let path = pid_path host name in
    let r = (get_run_dir host s).1 in
    let t = write_path replies path (decimal host.process_id) r in
    let u = (get_run_dir host t.1).1 in
    let e =
      check_pid-decimal replies path host.process_id u h
        (write_path-lookup replies path (decimal host.process_id) r wrote) alive in
    (ap (λ x. x.0) e, ap (λ x. x.1.files) e)
