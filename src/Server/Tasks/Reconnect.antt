-- ===== src/Server/Tasks/Reconnect.antt =====
-- src/server.rs: a client that connects again while its old connection is still registered.
use text.Mathlib.TextPositions.{eq_refl}
use bluecross.Base.{
  ◌≡◌, refl, ◌∙◌, ap, false, none, some, [], ◌∷◌, String, ◌==◌, done, if◌then◌else◌,
}
use bluecross.Base.Maps.{lookup, insert, remove, lookup-insert, lookup-remove}
use bluecross.Json.{Json}
use bluecross.Server.State.{ClientInfo, Server, Queues}
use bluecross.Server.Events.{new_client, handle_event, handle_client_disconnect}
use bluecross.Server.Invariant.Parts.{deactivate-clients}
use bluecross.Server.Tasks.{
  World, writer_ends, handle_from, handle_next, Step, stops_writing, handles, Reach, here, next,
}

module _ {j : Json} where
  registered_again : String → ClientInfo → World j → World j
  registered_again name info w = record w {
    server = record w.server { clients = insert name info w.server.clients };
    events = [];
  }

  evicted : String → World j → World j
  evicted name w = record w { server = handle_client_disconnect j name w.server; events = [] }

  lookup-disconnect :
      (name : String) (s : Server j)
      → lookup name (handle_client_disconnect j name s).clients ≡ none
  unfolding handle_client_disconnect
  lookup-disconnect name s =
      ap (lookup name) (deactivate-clients name (record s { clients = remove name s.clients }))
      ∙ lookup-remove name name s.clients
      ∙ ap (λ b. if b then none else lookup name s.clients) (eq_refl name)

  -- When a client connects again and its registration is the one event that is queued, while the
  -- writer of an old connection of the same name still runs on another queue: the next round registers
  -- the new connection. From there the server can reach, by the end of the old writer and a round that
  -- handles the disconnect it sent, a state where the name is not registered although the writer of the
  -- new connection still runs.
  pub Reach-evicted :
      (Admits : String → ClientInfo → Type 0) (queues : Queues j) (w : World j) (name : String)
      (old info : ClientInfo)
      → w.events ≡ new_client name info ∷ []
      → w.writers old.tx ≡ some name
      → w.writers info.tx ≡ some name
      → (info.tx == old.tx) ≡ false
      → (t : World j) × (v : World j) × Step j Admits queues w t
        × (lookup name t.server.clients ≡ some info)
        × Reach j Admits queues t v
        × (lookup name v.server.clients ≡ none)
        × (v.writers info.tx ≡ some name)
  unfolding registered_again evicted writer_ends handle_next handle_from handle_event
  Reach-evicted Admits queues w name old info e runs again other =
      let t = registered_again name info w in
      let u = writer_ends j old.tx name t in
      let first : handle_next j queues 0 w ≡ done t =
        ap (handle_from j queues 0 w.server w.writers) e in
      let last : handle_next j queues 0 u ≡ done (evicted name u) = refl in
      (
        t,
        evicted name u,
        handles 0 first,
        lookup-insert name name info w.server.clients
            ∙ ap (λ b. if b then some info else lookup name w.server.clients) (eq_refl name),
        next (next here (stops_writing old.tx name runs refl refl)) (handles 0 last),
        lookup-disconnect name u.server,
        rw other again,
      )
