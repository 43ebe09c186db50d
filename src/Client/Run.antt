-- ===== src/Client/Run.antt =====
-- src/client.rs: `run_async`, from its set-up over the rounds of its loop to its end.
pub mod Held
pub mod Balance
pub mod Ends
use bluecross.Base.{
  ℕ, Bool, true, false, Option, none, some, List, [], ◌∷◌, String, Result, ok, err, try, Outcome,
  done, and_then,
}
use bluecross.Base.Text.{as_bytes}
use bluecross.Json.{Json}
use bluecross.Secure.Snow.{Noise}
use bluecross.Secure.Handshake.{Socket, client_handshake}
use bluecross.Protocol.Reader.{ProtocolReader, Received, receive}
use bluecross.Inject.{InputInjector, setup, close}
use bluecross.Inject
use bluecross.Clipboard
use bluecross.Config.{ClientConfig}
use bluecross.Connection.{HandshakeError, join_server}
use bluecross.Connection.Accept.{or_secure_failed}
use bluecross.Client.State.{ClientState}
use bluecross.Client.Apply.{Client}
use bluecross.Client.Session.{Round, running, stopped, failed, ClientEvent, handle_event}

-- What the outside answers to the calls before the loop.
pub record Surroundings : Type 0 where
  pub build_keyboard : List ℕ → Bool
  pub build_mouse : List ℕ → List ℕ → Bool
  pub connects : String → ℕ → Option Socket
  pub takes_sigterm : Bool
  pub takes_sigint : Bool

pub data JoinError : Type 0 where
  no_device not_connected no_signals : JoinError
  refused : HandshakeError → JoinError

abbrev pub needs : {A : Type 0} → Bool → JoinError → Result JoinError A → Result JoinError A
needs true e rest = rest
needs false e rest = err e

abbrev pub or_refused : {A : Type 0} → Result HandshakeError A → Result JoinError A
or_refused (ok a) = ok a
or_refused (err e) = err (refused e)

module _ (j : Json) where
  -- After the loop.
  abbrev pub close_injector : Client j → Client j
  close_injector c = record c { injector = close c.injector }

  -- A round that leaves the loop is the last; one that fails returns its error.
  abbrev pub next_round : (Client j → Outcome (Round j)) → Round j → Outcome (Round j)
  next_round again (running c) = again c
  next_round again (stopped c) = done (stopped (close_injector c))
  next_round again (failed c) = done (failed c)

  -- The rounds of the loop, until one ends it or the events are used up.
  unfoldable pub client_rounds : List (ClientEvent j) → Client j → Outcome (Round j)
  client_rounds [] c = done (running c)
  client_rounds (event ∷ more) c =
      and_then (handle_event j event c) (next_round (λ d. client_rounds more d))

  -- The variables of the loop, as it starts.
  abbrev pub begin : ClientState → InputInjector → Client j
  begin state injector = record {
    state = state;
    injector = injector;
    clipboard = Clipboard.new;
    effects = [];
  }

  module _ (n : Noise) where
    -- `none` stands for a want of fuel.
    abbrev pub received : Option (Received j n) → Received j n
    received none = ok none
    received (some r) = r

    -- The encrypted channel, and the handshake on it.
    unfoldable pub joined :
        ClientConfig → ℕ → ℕ → Socket → Result HandshakeError (ClientState × ProtocolReader j n)
    joined config switch_now push_now socket =
        try (or_secure_failed (client_handshake n (as_bytes config.psk) socket)) λ halves.
          try
            (join_server j n config switch_now push_now halves.1
              (λ w. received (receive j n (record { reader = halves.0; buffer = [] }))))
            λ result. ok (result.0, result.1)

    abbrev pub with_socket :
        {A : Type 0} → Option Socket → (Socket → Result JoinError A) → Result JoinError A
    with_socket none k = err not_connected
    with_socket (some socket) k = k socket

    -- Up to the loop: what it starts with, and the reader for its task.
    unfoldable pub begin_session :
        Surroundings → ClientConfig → ℕ → ℕ → Result JoinError (Client j × ProtocolReader j n)
    unfolding joined
    begin_session around config switch_now push_now =
        let (made, injector) = setup around.build_keyboard around.build_mouse Inject.new in
        needs made no_device (
          with_socket (around.connects config.server_host config.server_port) λ socket.
            try (or_refused (joined config switch_now push_now socket)) λ result.
              needs around.takes_sigterm no_signals
                (needs around.takes_sigint no_signals (ok (begin result.0 injector, result.1))))

    -- The loop, after a set-up that succeeded.
    abbrev pub rounds_from :
        List (ClientEvent j)
        → Result JoinError (Client j × ProtocolReader j n)
        → Outcome (Result JoinError (Round j))
    rounds_from events (err e) = done (err e)
    rounds_from events (ok first) = and_then (client_rounds events first.0) λ r. done (ok r)

    -- The whole function: an error of the set-up, or the last round.
    unfoldable pub run_client_async :
        Surroundings
        → ClientConfig
        → ℕ
        → ℕ
        → List (ClientEvent j)
        → Outcome (Result JoinError (Round j))
    unfolding begin_session client_rounds
    run_client_async around config switch_now push_now events =
        rounds_from events (begin_session around config switch_now push_now)
