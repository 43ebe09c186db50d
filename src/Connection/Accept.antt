-- ===== src/Connection/Accept.antt =====
-- src/server.rs: `handle_new_connection`, from the socket to the registration.
use bluecross.Base.{ℕ, Bool, Option, none, some, [], Result, ok, err, try, if◌then◌else◌}
use bluecross.Base.Text.{as_bytes}
use bluecross.Json.{Json}
use bluecross.Secure.Snow.{Noise}
use bluecross.Secure.{SecureWriter, SecureError}
use bluecross.Secure.Handshake.{Socket, server_handshake}
use bluecross.Protocol.Reader.{ProtocolReader, receive}
use bluecross.Config.{ServerConfig}
use bluecross.Server.State.{ClientInfo}
use bluecross.Server.Tasks.{World, register_connection}
use bluecross.Connection.{
  HandshakeError, timed_out, secure_failed, Registration, or_else, accept_client,
}

-- A connection, and whether each of its two handshakes ends within HANDSHAKE_TIMEOUT.
pub record Arrival : Type 0 where
  pub socket : Socket
  pub secure_in_time : Bool
  pub message_in_time : Bool

-- `tokio::time::timeout`: the result, unless the time runs out first.
abbrev pub timeout {ℓ} : {A : Type ℓ} → Bool → Option A → Option A
timeout in_time result = if in_time then result else none

abbrev pub or_secure_failed : {A : Type 0} → Result SecureError A → Result HandshakeError A
or_secure_failed (ok a) = ok a
or_secure_failed (err e) = err (secure_failed e)

-- The registration as the event loop keeps it; `tx` stands for the queue made for the client.
abbrev pub client_info : ℕ → Registration → ClientInfo
client_info tx r = record {
  position = r.position;
  screen_width = r.screen_width;
  screen_height = r.screen_height;
  tx = tx;
}

module _ (j : Json) (n : Noise) where
  -- Up to the answer: the encrypted channel under the configured key, the first message on it, and
  -- the acknowledgement.
  unfoldable pub admit :
      ServerConfig
      → Arrival
      → Result HandshakeError (Registration × ProtocolReader j n × SecureWriter n)
  admit config arrival =
      try
        (or_else timed_out (
          timeout arrival.secure_in_time
            (some (server_handshake n (as_bytes config.psk) arrival.socket))))
        λ result. try (or_secure_failed result) λ halves.
          accept_client j n config
            (timeout arrival.message_in_time
              (receive j n (record { reader = halves.0; buffer = [] })))
            halves.1

  -- The whole handler. The channel of events is open, since the loop runs.
  unfoldable pub handle_new_connection :
      ServerConfig → Arrival → ℕ → World j → Result HandshakeError (World j)
  unfolding admit
  handle_new_connection config arrival tx w =
      try (admit config arrival)
        λ admitted. ok (register_connection j admitted.0.name (client_info tx admitted.0) w)
