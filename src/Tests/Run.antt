-- ===== src/Tests/Run.antt =====
-- src/server.rs and src/client.rs: a server and a client from the configuration file to the end.
use bluecross.Base.{◌≡◌, refl, List, ok, true, none, some, [], ◌∷◌, pos, arith}
use bluecross.Base.Text.{trim}
use bluecross.Client.Run
use bluecross.Client.Run.{run_client_async}
use bluecross.Client.Run.Ends.{EndsBalanced, run_client_async-EndsBalanced}
use bluecross.Client.Session.{ClientEvent, heartbeat_tick, messages, signal}
use bluecross.Config.{ClientConfig, load_client_config, validate_psk, resolve_dimensions}
use bluecross.Config.Raw.{File, parsed, load_raw, client_section, with_client_defaults, load_client}
use bluecross.Protocol.{Message}
use bluecross.Protocol.Builders
use bluecross.Protocol.Reader.{send}
use bluecross.Secure.{closed}
use bluecross.Tests.Connection.{writer, after}
use bluecross.Tests.Plain.{plain}
use bluecross.Server.Run.{Surroundings, run_server_async}
use bluecross.Server.Run.Releases.{EndsReleased, run_server_async-EndsReleased}
use bluecross.Tests.Flat.{flat}
use bluecross.Tests.Program.{file, loaded, loads}
use bluecross.Tests.Server.{queues, events}

-- A keyboard that opens as descriptor 4.
abbrev around : Surroundings
around = record {
  has_dir = true;
  entries = some (some "event3" ∷ none ∷ some "mice" ∷ []);
  open_device = λ name.
      some (record { supported_keys = some (30 ∷ []); supported_rel = none; stream = some 4 });
  binds = λ host port. true;
  has_address = true;
  takes_sigterm = true;
  takes_sigint = true;
}

run_server_async-EndsReleased_example :
    EndsReleased around loaded (run_server_async flat around queues loaded 0 events)
run_server_async-EndsReleased_example =
    run_server_async-EndsReleased file (pos 1920, pos 1080) loaded around queues 0 events loads
      (record { low = omega arith; high = omega arith })
      (record { low = omega arith; high = omega arith })

-- The client's side: it joins, gets control, and pushes against its right edge.
abbrev client_file : File
client_file = parsed (record {
  server = none;
  client = some (record {
    server_host = some "10.0.0.1";
    server_port = none;
    screen_width = some (pos 1366);
    screen_height = some (pos 768);
    name = some "laptop";
    clipboard_sharing = none;
    psk = some "correct horse battery";
  });
})

abbrev client : ClientConfig
client = record {
  server_host = "10.0.0.1";
  server_port = 12345;
  screen_width = pos 1366;
  screen_height = pos 768;
  name = "laptop";
  clipboard_sharing = true;
  psk = "correct horse battery";
}

client_loads : load_client client_file (pos 1920, pos 1080) ≡ ok client
unfolding load_client load_raw client_section with_client_defaults load_client_config validate_psk
    resolve_dimensions trim
client_loads = refl

abbrev ack : Message flat.Value
ack = Builders.handshake_ack flat "right" (pos 1920) (pos 1080)

abbrev beside : Run.Surroundings
beside = record {
  build_keyboard = λ keys. true;
  build_mouse = λ buttons axes. true;
  connects = λ host port. some (record {
    incoming = 0 ∷ 0 ∷ (after (send flat plain writer ack)).written;
    ended_by = closed;
    written = [];
    accepts = λ before bytes. true;
  });
  takes_sigterm = true;
  takes_sigint = true;
}

abbrev arriving : List (ClientEvent flat)
arriving =
    heartbeat_tick true
    ∷ messages true (record { at_grace = 9; at_start = 9; at_elapsed = 9 }) 7
        (Builders.switch_to_client flat (pos 1300) (pos 300))
        ((8, Builders.mouse_move flat (pos 1300) (pos 300) (pos 90) (pos 0)) ∷ [])
    ∷ signal
    ∷ []

run_client_async-EndsBalanced_example :
    EndsBalanced flat plain arriving (run_client_async flat plain beside client 1 2 arriving)
run_client_async-EndsBalanced_example =
    run_client_async-EndsBalanced flat plain client_file (pos 1920, pos 1080) client beside 1 2
      arriving client_loads (record { low = omega arith; high = omega arith })
      (record { low = omega arith; high = omega arith })
