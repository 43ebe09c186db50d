-- ===== src/Tests/Daemon.antt =====
-- src/daemon.rs, and the starts of src/server.rs and src/client.rs, with processes that always or never
-- answer.
use bluecross.Base.{
  ◌≡◌, refl, ◌⊎◌, Bool, true, false, none, some, List, [], ◌∷◌, pos, ok, done, arith,
}
use bluecross.Daemon.{Replies, Host, System}
use bluecross.Daemon.Paths.{pid_path, get_run_dir, get_pid_file}
use bluecross.Daemon.Pid.{read_pid, write_pid_file}
use bluecross.Daemon.Pid.RoundTrip.{write_pid_file-read_pid}
use bluecross.Daemon.Log.{info, error, Time, new_logger}
use bluecross.Daemon.Log.Kept.{Entry, log_each, IsAfter, log_each-IsAfter}
use bluecross.Daemon.Start.{Main, run_component}
use bluecross.Daemon.Start.Leaves.{IsRefused, IsCut, IsKeptOrGone, run_component-IsKeptOrGone}

abbrev stubborn : Replies
stubborn = record {
  succeeds = λ actions. true;
  is_parent = λ actions. false;
  partly = λ actions. none;
  meanwhile = λ actions files. files;
}

abbrev host : Host
host = record {
  var = λ name. none;
  uid = 1000;
  process_id = 4242;
  current_exe = some "/usr/bin/bluecross";
  is_unreadable = λ path. false;
}

abbrev system : System
system = record { files = (pid_path host "server", "4242\n") ∷ []; actions = [] }

abbrev nothing : System
nothing = record { files = []; actions = [] }

write_pid_file-read_pid_example :
    let t = write_pid_file stubborn host "client" nothing in
    ((read_pid stubborn host "client" t.1).0 ≡ some (pos 4242))
    × ((read_pid stubborn host "client" t.1).1.files ≡ t.1.files)
write_pid_file-read_pid_example =
    write_pid_file-read_pid stubborn host "client" nothing (omega arith)
      (unfold write_pid_file get_pid_file get_run_dir in refl) refl

-- The main part of a server that ends without an error.
abbrev idle : Bool → Main
idle config s = (done true, s)

run_component-IsKeptOrGone_example :
    let r =
      run_component "server" "BlueCross Server" stubborn host (ok true) idle true false nothing in
    IsCut r.0
    ⊎ (IsKeptOrGone host "server" nothing r.1 ⊎ IsRefused stubborn (pid_path host "server") r.1)
run_component-IsKeptOrGone_example =
    run_component-IsKeptOrGone "server" "BlueCross Server" stubborn host (ok true) idle true false
      nothing

abbrev noon : Time
noon = record { tm_year = 126; tm_mon = 0; tm_mday = 5; tm_hour = 12; tm_min = 0; tm_sec = 9 }

abbrev records : List Entry
records =
    (
      record { in_log = none; in_error = none },
      noon,
      record { target = "bluecross"; level = info; message = "starting" },
    )
    ∷ (
      record { in_log = some 4; in_error = none },
      noon,
      record { target = "bluecross"; level = error; message = "no device" },
    )
    ∷ []

log_each-IsAfter_example :
    IsAfter records (new_logger false true) (log_each records (new_logger false true))
log_each-IsAfter_example = log_each-IsAfter records (new_logger false true)
