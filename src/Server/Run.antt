-- ===== src/Server/Run.antt =====
-- src/server.rs: `run_async`, from the capture of the devices to their release. The socket, the
-- directory of the devices and the registration of signals are outside: their answers are arguments.
pub mod Releases
use bluecross.Base.{
  ℕ, Bool, Option, List, String, Result, ok, err, Outcome, done, and_then, if◌then◌else◌,
}
use bluecross.Json.{Json}
use bluecross.Clipboard
use bluecross.Config.{ServerConfig}
use bluecross.Capture.Devices.{Device, DiscoverError, start_capture}
use bluecross.Server.State.{Server, Queues, new}
use bluecross.Server.Events.{ServerEvent, run_async}

-- What the outside answers to the calls before the loop.
pub record Surroundings : Type 0 where
  pub has_dir : Bool
  pub entries : Option (List (Option String))
  pub open_device : String → Option Device
  pub binds : String → ℕ → Bool
  pub has_address : Bool
  pub takes_sigterm : Bool
  pub takes_sigint : Bool

pub data SetUpError : Type 0 where
  not_captured : DiscoverError → SetUpError
  not_bound no_address no_signals : SetUpError

abbrev pub captured : {A : Type 0} → Result DiscoverError A → Result SetUpError A
captured (ok a) = ok a
captured (err e) = err (not_captured e)

-- A call that has to succeed before the rest is done.
abbrev pub required : {A : Type 0} → Bool → SetUpError → Result SetUpError A → Result SetUpError A
required succeeds e rest = if succeeds then rest else err e

module _ (j : Json) where
  -- The calls after the capture that may fail, and the server that the loop starts with.
  unfoldable pub opened : Surroundings → ServerConfig → ℕ → List ℕ → Result SetUpError (Server j)
  opened around config start device_fds =
      required (around.binds config.host config.port) not_bound (
        required around.has_address no_address (
          required around.takes_sigterm no_signals (
            required around.takes_sigint no_signals
              (ok (record (new j config Clipboard.new start) { device_fds = device_fds })))))

  unfoldable pub set_up : Surroundings → ServerConfig → ℕ → Result SetUpError (Server j)
  unfolding opened
  set_up around config start =
      elim (captured (start_capture around.has_dir around.entries around.open_device)) [
        | err e ↦ err e
        | ok device_fds ↦ opened around config start device_fds
      ]

  abbrev pub looped :
      Queues j
      → List (ℕ × ServerEvent j)
      → Result SetUpError (Server j)
      → Outcome (Result SetUpError (Server j))
  looped queues events (err e) = done (err e)
  looped queues events (ok s) = and_then (run_async j queues events s) (λ t. done (ok t))

  -- The whole function: an error of the set-up, or the server after the loop and the release.
  unfoldable pub run_server_async :
      Surroundings
      → Queues j
      → ServerConfig
      → ℕ
      → List (ℕ × ServerEvent j)
      → Outcome (Result SetUpError (Server j))
  unfolding set_up
  run_server_async around queues config start events =
      looped queues events (set_up around config start)
