-- ===== src/Client/Run/Ends.antt =====
-- src/client.rs and src/config.rs: a run of a client that was configured from a file.
use bluecross.Base.{
  ℕ, ◌+◌, ◌≤◌, ◌≡◌, refl, ap, ◌∙◌, subst, subst⁻¹, Bool, true, false, ◌⊎◌, inl, inr, Option, none,
  some, List, [], ℤ, arith, Result, ok, err, try-eq-ok, Result-cases, Outcome, done, and_then,
}
use bluecross.Base.Text.{as_bytes}
use bluecross.Base.Words.{InI32}
use bluecross.Json.{Json}
use bluecross.Secure.Snow.{Noise}
use bluecross.Secure.{SecureWriter}
use bluecross.Secure.Handshake.{Socket, client_handshake}
use bluecross.Protocol.{MessageType, handshake_ack}
use bluecross.Protocol.Builders
use bluecross.Protocol.Reader.{ProtocolReader, Received, receive, send}
use bluecross.Inject.{setup}
use bluecross.Inject
use bluecross.Config.{
  ClientConfig, ConfigError, load_client_config, validate_psk, resolve_dimensions,
}
use bluecross.Config.Load.{resolve_dimensions-positive}
use bluecross.Config.Raw.{File, load_client, load_raw, client_section}
use bluecross.Config.Raw.Section.{checked-eq-ok}
use bluecross.Connection.{HandshakeError, read_ack, first_message, join_server, or_send_failed}
use bluecross.Connection.Accept.{or_secure_failed}
use bluecross.Client.State.{ClientState, new}
use bluecross.Client.Apply.{Client}
use bluecross.Client.Session.{Round, ClientEvent}
use bluecross.Client.Release.{releases, client_of}
use bluecross.Client.Run.{
  Surroundings, JoinError, needs, or_refused, no_device, no_signals, received, with_socket, joined,
  begin_session, rounds_from, run_client_async,
}
use bluecross.Client.Run.Held.{count, entries}
use bluecross.Client.Run.Balance.{client_rounds-held}
use bluecross.Server.Invariant.{IsScreen}

client_config-IsScreen :
    (file : File) (detected : ℤ × ℤ) (config : ClientConfig)
    → load_client file detected ≡ ok config
    → InI32 config.screen_width
    → InI32 config.screen_height
    → IsScreen config.screen_width config.screen_height
unfolding load_client load_client_config
client_config-IsScreen file detected config e w h =
    let (raw, read, e₁) = try-eq-ok (load_raw file) _ e in
    let s = client_section raw.client in
    let e₂ = checked-eq-ok (load_client_config s detected) config e₁ in
    let (u, key, e₃) = try-eq-ok (validate_psk s.psk) _ e₂ in
    let (size, dims, e₄) =
      try-eq-ok (resolve_dimensions s.screen_width s.screen_height detected) _ e₃ in
    let (wide, high, width, height) =
      resolve_dimensions-positive s.screen_width s.screen_height detected size dims in
    let x : size.0 ≡ config.screen_width =
      ap
        (λ (r : Result ConfigError ClientConfig). elim r [ ok c ↦ c.screen_width | err f ↦ size.0 ])
        e₄ in
    let y : size.1 ≡ config.screen_height =
      ap
        (λ (r : Result ConfigError ClientConfig). elim r [
          | ok c ↦ c.screen_height
          | err f ↦ size.1
        ])
        e₄ in
    record { wide = rw x at wide; high = rw y at high; width_i32 = w; height_i32 = h }

needs-eq-ok :
    {A : Type 0} (b : Bool) (e : JoinError) (r : Result JoinError A) (a : A)
    → needs b e r ≡ ok a
    → r ≡ ok a
needs-eq-ok true e r a h = h
needs-eq-ok false e r a h = cc

or_refused-eq-ok :
    {A : Type 0} (r : Result HandshakeError A) (a : A) → or_refused r ≡ ok a → r ≡ ok a
or_refused-eq-ok (ok b) a h = cc
or_refused-eq-ok (err e) a h = cc

ok_inj : {E A : Type 0} (a b : A) → ◌≡◌ {A = Result E A} (ok a) (ok b) → a ≡ b
ok_inj a b e = cc

-- A state at the start of the loop.
record IsFirst (c : ClientConfig) (s : ClientState) : Type 0 where
  config : s.config ≡ c
  idle : s.active ≡ false

module _ (j : Json) (n : Noise) where
  read_ack-IsFirst :
      (config : ClientConfig) (t u : ℕ) (type : MessageType) (payload : j.Value) (s : ClientState)
      → read_ack j (new config t u) type payload ≡ ok s
      → IsFirst config s
  unfolding read_ack new
  read_ack-IsFirst config t u handshake_ack payload s e =
      subst (IsFirst config) (ok_inj _ s e) (record { config = refl; idle = refl })
  read_ack-IsFirst config t u _ payload s e = cc

  join_server-IsFirst :
      (config : ClientConfig) (t u : ℕ) (writer : SecureWriter n)
      (receive : SecureWriter n → Received j n)
      (s : ClientState × ProtocolReader j n × SecureWriter n)
      → join_server j n config t u writer receive ≡ ok s
      → IsFirst config s.0
  unfolding join_server
  join_server-IsFirst config t u writer receive s e =
      let hello = Builders.handshake j config.name config.screen_width config.screen_height in
      let (w, sent, e₁) = try-eq-ok (or_send_failed j n (send j n writer hello)) _ e in
      let (first, came, e₂) = try-eq-ok (first_message j n (receive w)) _ e₁ in
      let (state, read, e₃) =
        try-eq-ok (read_ack j (new config t u) first.0.msg_type first.0.payload) _ e₂ in
      subst (IsFirst config)
        (ap (λ (p : ClientState × ProtocolReader j n × SecureWriter n). p.0) (ok_inj _ s e₃))
        (read_ack-IsFirst config t u first.0.msg_type first.0.payload state read)

  joined-IsFirst :
      (config : ClientConfig) (t u : ℕ) (socket : Socket) (r : ClientState × ProtocolReader j n)
      → joined j n config t u socket ≡ ok r
      → IsFirst config r.0
  unfolding joined
  joined-IsFirst config t u socket r e =
      let (halves, opened, e₁) =
        try-eq-ok (or_secure_failed (client_handshake n (as_bytes config.psk) socket)) _ e in
      let (s, came, e₂) =
        try-eq-ok
          (join_server j n config t u halves.1
            (λ w. received j n (receive j n (record { reader = halves.0; buffer = [] }))))
          _ e₁ in
      subst (IsFirst config) (ap (λ (p : ClientState × ProtocolReader j n). p.0) (ok_inj _ r e₂))
        (join_server-IsFirst config t u halves.1 _ s came)

  with_socket-eq-ok :
      {A : Type 0} (o : Option Socket) (k : Socket → Result JoinError A) (a : A)
      → with_socket j n o k ≡ ok a
      → (s : Socket) × (k s ≡ ok a)
  with_socket-eq-ok none k a h = absurd (cc h)
  with_socket-eq-ok (some s) k a h = (s, h)

  -- The client at the start of the loop has done nothing and has no control.
  record IsFresh (config : ClientConfig) (c : Client j) : Type 0 where
    state : IsFirst config c.state
    silent : c.effects ≡ []

  begin_session-IsFresh :
      (around : Surroundings) (config : ClientConfig) (t u : ℕ) (r : Client j × ProtocolReader j n)
      → begin_session j n around config t u ≡ ok r
      → IsFresh config r.0
  unfolding begin_session
  begin_session-IsFresh around config t u r e =
      let set = setup around.build_keyboard around.build_mouse Inject.new in
      let (socket, e₁) =
        with_socket-eq-ok (around.connects config.server_host config.server_port) _ r
          (needs-eq-ok set.0 no_device _ r e) in
      let (s, came, e₂) = try-eq-ok (or_refused (joined j n config t u socket)) _ e₁ in
      let e₃ = needs-eq-ok around.takes_sigterm no_signals _ r e₂ in
      let e₄ = needs-eq-ok around.takes_sigint no_signals _ r e₃ in
      subst (IsFresh config) (ap (λ (p : Client j × ProtocolReader j n). p.0) (ok_inj _ r e₄))
        (record {
          state = joined-IsFirst config t u socket s (or_refused-eq-ok _ s came);
          silent = refl;
        })

  -- An end without a panic: an error of the set-up, or a last round up to which control was given
  -- back at most once for each `SwitchToClient` of the events, and once less if it is still held.
  abbrev pub EndsBalanced : List (ClientEvent j) → Outcome (Result JoinError (Round j)) → Type 0
  EndsBalanced events run =
      ((e : JoinError) × (run ≡ done (err e)))
      ⊎ ((r : Round j) × (run ≡ done (ok r))
          × (releases j (client_of j r).effects + count (client_of j r).state.active
              ≤ entries events))

  -- A client that is configured from a file never panics, whatever the server sends and in whatever
  -- order the events come. It fails in its set-up, or it runs to a last round, and then the
  -- `SwitchToServer` messages that it sent, and one more if it is still active, are no more than the
  -- `SwitchToClient` messages that it got. The screen's sizes are `i32`s.
  pub run_client_async-EndsBalanced :
      (file : File) (detected : ℤ × ℤ) (config : ClientConfig) (around : Surroundings)
      (switch_now push_now : ℕ) (events : List (ClientEvent j))
      → load_client file detected ≡ ok config
      → InI32 config.screen_width
      → InI32 config.screen_height
      → EndsBalanced events (run_client_async j n around config switch_now push_now events)
  unfolding run_client_async
  run_client_async-EndsBalanced file detected config around t u events e w h =
      let go = rounds_from j n events in
      elim (Result-cases (begin_session j n around config t u)) [
        | inl (f, failed) ↦ inl (f, ap go failed)
        | inr (first, came) ↦
            let fresh = begin_session-IsFresh around config t u first came in
            let (q, ended, bound) = client_rounds-held events first.0 (
              subst⁻¹ (λ (k : ClientConfig). IsScreen k.screen_width k.screen_height)
                fresh.state.config (client_config-IsScreen file detected config e w h)) in
            inr (
              q,
              ap go came ∙ ap (λ (o : Outcome (Round j)). and_then o (λ p. done (ok p))) ended,
              omega (arith, bound, ap (releases j) fresh.silent, ap count fresh.state.idle),
            )
      ]
