-- ===== src/Connection/Admission.antt =====
-- src/server.rs: who gets registered.
use bluecross.Base.{
  List, ℕ, ◌≡◌, refl, ◌∙◌, ap, Bool, true, false, Option, none, some, String, Result, ok, err,
  try-eq-ok, subst,
}
use bluecross.Base.Text.{as_bytes}
use bluecross.Base.Maps.{lookup}
use bluecross.Json.{Json}
use bluecross.Secure.Snow.{Noise}
use bluecross.Secure.{SecureReader, SecureWriter, SecureError}
use bluecross.Secure.Handshake.{server_handshake}
use bluecross.Protocol.Reader.{ProtocolReader, Received, send}
use bluecross.Clipboard.{ClipboardManager}
use bluecross.Config.{ServerConfig}
use bluecross.Server.State.{ClientInfo, Queues}
use bluecross.Server.Tasks.{World, start, Step, connects, Reach}
use bluecross.Server.Tasks.Admitted.{Reach-start-AreAdmitted}
use bluecross.Connection.{
  timed_out, Registration, or_else, first_message, register, ack_of, or_send_failed, accept_client,
}
use bluecross.Connection.Accept.{
  Arrival, timeout, or_secure_failed, client_info, admit, handle_new_connection,
}
use bluecross.Connection.Agreement.{or_else-eq-ok, register-lookup}

or_secure_failed-eq-ok :
    {A : Type 0} (m : Result SecureError A) (a : A) → or_secure_failed m ≡ ok a → m ≡ ok a
or_secure_failed-eq-ok (ok b) a e = cc
or_secure_failed-eq-ok (err f) a e = cc

timeout-eq-some : {A : Type 0} (b : Bool) (a c : A) → timeout b (some a) ≡ some c → a ≡ c
timeout-eq-some true a c e = cc
timeout-eq-some false a c e = cc

ok_first :
    {E A B C : Type 0} (a x : A) (b y : B) (c z : C)
    → ◌≡◌ {A = Result E (A × B × C)} (ok (a, b, c)) (ok (x, y, z))
    → a ≡ x
ok_first a x b y c z e = cc

module _ (j : Json) (n : Noise) (config : ServerConfig) where
  accept_client-lookup :
      (received : Option (Received j n)) (writer : SecureWriter n) (r : Registration)
      (reader : ProtocolReader j n) (rest : SecureWriter n)
      → accept_client j n config received writer ≡ ok (r, reader, rest)
      → lookup r.name config.clients ≡ some r.position
  unfolding accept_client
  accept_client-lookup received writer r reader rest e =
      let (result, came, e₁) = try-eq-ok (or_else timed_out received) _ e in
      let (first, read, e₂) = try-eq-ok (first_message j n result) _ e₁ in
      let (s, registered, e₃) = try-eq-ok (register j config first.0) _ e₂ in
      let (w, sent, e₄) =
        try-eq-ok (or_send_failed j n (send j n writer (ack_of j config s))) _ e₃ in
      let same : s ≡ r = ok_first s r first.1 reader w rest e₄ in
      subst (λ (t : Registration). lookup t.name config.clients ≡ some t.position) same
        (register-lookup j config first.0 s registered).1

  -- A connection that gets as far as this registration.
  pub record IsAdmitted (name : String) (info : ClientInfo) : Type 0 where
    pub arrival : Arrival
    pub registration : Registration
    pub reader : ProtocolReader j n
    pub writer : SecureWriter n
    pub admitted : admit j n config arrival ≡ ok (registration, reader, writer)
    pub named : registration.name ≡ name
    pub kept : client_info info.tx registration ≡ info

  -- Such a connection proved knowledge of the key.
  abbrev pub HasKey : Arrival → Type 0
  HasKey arrival =
      (halves : SecureReader n × SecureWriter n) × (server_handshake n (as_bytes config.psk)
          arrival.socket
        ≡ ok halves)

  admit-HasKey :
      (arrival : Arrival) (r : Registration) (reader : ProtocolReader j n) (rest : SecureWriter n)
      → admit j n config arrival ≡ ok (r, reader, rest)
      → HasKey arrival × (lookup r.name config.clients ≡ some r.position)
  unfolding admit
  admit-HasKey arrival r reader rest e =
      let secured = server_handshake n (as_bytes config.psk) arrival.socket in
      let in_time = timeout arrival.secure_in_time (some secured) in
      let (result, came, e₁) = try-eq-ok (or_else timed_out in_time) _ e in
      let (opened, held, e₂) = try-eq-ok (or_secure_failed result) _ e₁ in
      let same : secured ≡ result =
        timeout-eq-some arrival.secure_in_time secured result
          (or_else-eq-ok timed_out in_time result came) in
      (
        (opened, same ∙ or_secure_failed-eq-ok result opened held),
        accept_client-lookup _ opened.1 r reader rest e₂,
      )

  -- The handler is one step of the tasks.
  pub handle_new_connection-Step :
      (queues : Queues j) (arrival : Arrival) (tx : ℕ) (w v : World j)
      → w.writers tx ≡ none
      → handle_new_connection j n config arrival tx w ≡ ok v
      → Step j IsAdmitted queues w v
  unfolding handle_new_connection
  handle_new_connection-Step queues arrival tx w v fresh e =
      let ((r, reader, rest), passed, f) = try-eq-ok (admit j n config arrival) _ e in
      connects r.name (client_info tx r)
        (record {
          arrival = arrival;
          registration = r;
          reader = reader;
          writer = rest;
          admitted = passed;
          named = refl;
          kept = refl;
        })
        fresh cc

  -- In every state that the tasks reach, a client that is registered came over a connection whose
  -- encrypted handshake succeeded under the configured key, and it lies where the configuration
  -- places its name.
  pub Reach-HasKey :
      (queues : Queues j) (fds : List ℕ) (clipboard : ClipboardManager) (now : ℕ) (w : World j)
      (name : String) (info : ClientInfo)
      → Reach j IsAdmitted queues (start j config fds clipboard now) w
      → lookup name w.server.clients ≡ some info
      → (came : IsAdmitted name info) × HasKey came.arrival
        × (lookup name config.clients ≡ some info.position)
  Reach-HasKey queues fds clipboard now w name info reach found =
      let came : IsAdmitted name info =
        Reach-start-AreAdmitted IsAdmitted queues config fds clipboard now w reach name info
          found in
      let (key, placed) =
        admit-HasKey came.arrival came.registration came.reader came.writer came.admitted in
      (
        came,
        key,
        subst (λ m. lookup m config.clients ≡ some info.position) came.named
            (placed ∙ ap (λ (i : ClientInfo). some i.position) came.kept),
      )
