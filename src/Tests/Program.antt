-- ===== src/Tests/Program.antt =====
-- src/main.rs, src/screen.rs, src/input_capture.rs, src/clipboard.rs and src/config.rs at concrete inputs.
use mathlib.Core.List.Perm
use bluecross.Base.{◌≡◌, refl, true, false, Option, none, some, List, [], ◌∷◌, String, pos, ok}
use bluecross.Base.Text.{trim}
use bluecross.Main.{LegacyArgs, Commands, server, Parts, main}
use bluecross.Main.Names.{main-alias}
use bluecross.Screen.{Regex, Outputs, detect_screen_size}
use bluecross.Screen.Detected.{IsDetected, detect_screen_size-IsDetected}
use bluecross.Capture.Devices.{Device, start_capture}
use bluecross.Capture.Devices.Order.{start_capture-perm}
use bluecross.Clipboard.Watch.{line, quiet, eof, Reading}
use bluecross.Clipboard
use bluecross.Config.{
  left, ServerConfig, load_server_config, validate_psk, resolve_clients, resolve_dimensions,
  from_str,
}
use bluecross.Config.Raw.{
  ServerFields, RawConfig, File, parsed, load_raw, server_section, with_defaults, load_server,
}
use bluecross.Config.Raw.Section.{IsFilled, load_server-IsFilled}

-- A parser of options that knows these command lines.
abbrev legacy : List String → LegacyArgs
legacy args = record { config = "bluecross.json"; foreground = true; debug = false }

abbrev cli : List String → Commands
cli args = server "bluecross.json" true false

-- What would be run, as a text.
abbrev parts : Parts String
parts = record {
  run_server = λ config foreground debug. "server";
  run_client = λ config foreground debug. "client";
  handle_ctl = λ command args. "ctl";
}

main-alias_example :
    main legacy cli parts ("/usr/bin/bluecross-server" ∷ "-f" ∷ [])
    ≡ main legacy cli parts ("bluecross" ∷ "server" ∷ "-f" ∷ [])
main-alias_example =
    main-alias legacy cli parts (server "bluecross.json" true false) (some "/usr/bin") none
      ("-f" ∷ []) ("server" ∷ "-f" ∷ []) refl refl

-- A pattern that finds the same numbers wherever it is searched.
abbrev captures : Regex
captures pattern text = some ("2560", "1440")

abbrev outputs : Outputs
outputs = record {
  gdbus = some (false, "");
  wlr_randr = some (true, "DP-1\n  2560x1440 px, 60 Hz (preferred, current)\n");
  kscreen_doctor = none;
}

detect_screen_size-IsDetected_example :
    IsDetected captures outputs (detect_screen_size captures outputs)
detect_screen_size-IsDetected_example = detect_screen_size-IsDetected captures outputs

abbrev open_device : String → Option Device
open_device name =
    some (record { supported_keys = some (30 ∷ 272 ∷ []); supported_rel = none; stream = some 7 })

start_capture-perm_example :
    start_capture true (some (some "event3" ∷ some "mouse0" ∷ [])) open_device
    ≡ start_capture true (some (some "mouse0" ∷ some "event3" ∷ [])) open_device
start_capture-perm_example = start_capture-perm true open_device (Perm.swap _ _ _)

abbrev readings : List Reading
readings =
    line "one\n" ∷ quiet ∷ Reading.applied "two" ∷ line "two\n" ∷ quiet ∷ line "three\n" ∷ eof ∷ []

abbrev fields : ServerFields
fields = record {
  host = none;
  port = some 5678;
  screen_width = none;
  screen_height = some (pos 1440);
  edge_threshold = none;
  clipboard_sharing = none;
  psk = some " correct horse battery ";
  clients = some (("laptop", "left") ∷ []);
}

abbrev pub file : File
file = parsed (record { server = some fields; client = none })

abbrev pub loaded : ServerConfig
loaded = record {
  host = "127.0.0.1";
  port = 5678;
  screen_width = pos 1920;
  screen_height = pos 1440;
  edge_threshold = pos 5;
  clipboard_sharing = true;
  psk = "correct horse battery";
  clients = ("laptop", left) ∷ [];
}

pub loads : load_server file (pos 1920, pos 1080) ≡ ok loaded
unfolding load_server load_raw server_section with_defaults load_server_config validate_psk
    resolve_clients resolve_dimensions from_str trim
loads = refl

load_server-IsFilled_example :
    (raw : RawConfig) × (f : ServerFields) × (file ≡ parsed raw)
    × (raw.server ≡ some f)
    × IsFilled f (pos 1920, pos 1080) loaded
load_server-IsFilled_example = load_server-IsFilled file (pos 1920, pos 1080) loaded loads
