-- ===== src/Server/Relay.antt =====
-- src/server.rs: who gets a clipboard content.
use mathlib.Core.List.{append_assoc, append-nil}
use text.Mathlib.Text.{◌==◌ as str_eq}
use text.Mathlib.TextPositions.{eq_refl}
use bluecross.Base.{
  ℕ, ◌≡◌, refl, ◌∙◌, sym, ap, Bool, true, false, ◌||◌, none, some, List, [], ◌∷◌, ◌++◌, String,
  arith, if◌then◌else◌, Bool-cases, inl, inr, All, eq_iff,
}
use bluecross.Base.Text.{is_empty}
use bluecross.Base.Maps.{lookup}
use bluecross.Json.{Json, JsonLaws, HasDistinctKeys}
use bluecross.Protocol.{Message, clipboard_data}
use bluecross.Protocol.Builders
use bluecross.Clipboard
use bluecross.Server.Delivery.{delivered, HasRoom, taken}
use bluecross.Server.State.{ClientInfo, Call, try_send, wl_copy, Server, Queues, send_to}
use bluecross.Server.Events.{
  names, other_names, send_each, set_clipboard, apply_clipboard, handle_message_type, str_field,
  handle_client_message, broadcast_clipboard, has_no_clients,
}

-- The entry is the one that a lookup finds.
abbrev IsEntry : List (String × ClientInfo) → String × ClientInfo → Type 0
IsEntry clients entry = lookup entry.0 clients ≡ some entry.1

IsEntry-cons :
    (name : String) (info : ClientInfo) (clients entries : List (String × ClientInfo))
    → lookup name clients ≡ none
    → All (IsEntry clients) entries
    → All (IsEntry ((name, info) ∷ clients)) entries
unfolding lookup
IsEntry-cons name info clients [] h k = tt
IsEntry-cons name info clients ((n, i) ∷ entries) h (e, k) =
    (ground (arith, eq_iff name n), IsEntry-cons name info clients entries h k)

entries-IsEntry :
    (clients : List (String × ClientInfo)) → HasDistinctKeys clients → All (IsEntry clients) clients
entries-IsEntry [] h = tt
entries-IsEntry ((name, info) ∷ clients) (h, k) = (
  unfold lookup in rw (eq_refl name),
  IsEntry-cons name info clients clients h (entries-IsEntry clients k),
)

-- The clients with another name.
abbrev pub others : String → List (String × ClientInfo) → List (String × ClientInfo)
others name [] = []
others name ((n, info) ∷ more) =
    if str_eq n name then others name more else (n, info) ∷ others name more

-- The messages with their queues.
abbrev pub to_whom : {V : Type 0} → Message V → List (String × ClientInfo) → List (ℕ × Message V)
to_whom msg [] = []
to_whom msg ((name, info) ∷ more) = (info.tx, msg) ∷ to_whom msg more

module _ {j : Json} where
  -- One message to each of these clients, in order.
  abbrev pub to_each : Message j.Value → List (String × ClientInfo) → List (Call j)
  to_each msg [] = []
  to_each msg ((name, info) ∷ more) = try_send info.tx msg ∷ to_each msg more

  -- The queues of these clients are open and never full.
  abbrev pub HaveRoom : Queues j → List (String × ClientInfo) → Type 0
  HaveRoom queues clients = All (λ (c : String × ClientInfo). HasRoom queues c.1.tx) clients

  -- What applying a content writes.
  abbrev pub writes : String → List (Call j)
  writes content = if is_empty content then [] else wl_copy content ∷ []

module _ {j : Json} (queues : Queues j) where
  send_to-IsEntry :
      (msg : Message j.Value) (name : String) (info : ClientInfo) (s : Server j)
      → lookup name s.clients ≡ some info
      → (send_to j queues name msg s).1 ≡ record s { calls = s.calls ++ try_send info.tx msg ∷ [] }
  unfolding send_to
  send_to-IsEntry msg name info s e = ground (arith, e)

  send_each-to_each :
      (msg : Message j.Value) (entries : List (String × ClientInfo)) (s : Server j)
      → All (IsEntry s.clients) entries
      → send_each j queues msg (names j entries) s
        ≡ record s { calls = s.calls ++ to_each msg entries }
  unfolding send_each
  send_each-to_each msg [] s h =
      ap (λ (c : List (Call j)). record s { calls = c }) (sym (append-nil s.calls))
  send_each-to_each msg ((name, info) ∷ more) s (e, h) =
      let t = record s { calls = s.calls ++ try_send info.tx msg ∷ [] } in
      ap (send_each j queues msg (names j more)) (send_to-IsEntry msg name info s e)
      ∙ send_each-to_each msg more t h
      ∙ ap (λ (c : List (Call j)). record s { calls = c })
          (append_assoc s.calls (try_send info.tx msg ∷ []) (to_each msg more))

  delivered-to_each :
      (msg : Message j.Value) (before : List (Call j)) (entries : List (String × ClientInfo))
      → HaveRoom queues entries
      → delivered queues before (to_each msg entries) ≡ to_whom msg entries
  delivered-to_each msg before [] h = refl
  delivered-to_each msg before ((name, info) ∷ more) (h, k) =
      taken (queues before info.tx msg) (info.tx, msg) _ (to_whom msg more) (h before msg)
        (delivered-to_each msg (before ++ try_send info.tx msg ∷ []) more k)

  names-others :
      (name : String) (entries : List (String × ClientInfo))
      → other_names j name entries ≡ names j (others name entries)
  names-others name [] = refl
  names-others name ((n, info) ∷ more) = ground (arith, names-others name more)

  All-others :
      (P : String × ClientInfo → Type 0) (name : String) (entries : List (String × ClientInfo))
      → All P entries
      → All P (others name entries)
  All-others P name [] h = tt
  All-others P name ((n, info) ∷ more) (e, h) = elim (Bool-cases (str_eq n name)) [
    | inl same ↦ rw same (All-others P name more h)
    | inr other ↦ rw other (e, All-others P name more h)
  ]

  set_clipboard-writes :
      (content : String) (s : Server j)
      → set_clipboard j content s ≡ record s {
        clipboard = (Clipboard.set s.clipboard content).0;
        calls = s.calls ++ writes content;
      }
  unfolding set_clipboard Clipboard.set
  set_clipboard-writes content s = ground (arith, append-nil s.calls)

  field_reads :
      (payload v : j.Value) (content : String)
      → j.get payload "content" ≡ some v
      → j.as_str v ≡ some content
      → str_field j (record { msg_type = clipboard_data; payload = payload }) "content"
        ≡ some content
  unfolding str_field
  field_reads payload v content e f = ground (arith, e, f)

  content_field :
      (l : JsonLaws j) (content : String)
      → str_field j (Builders.clipboard_data j content) "content" ≡ some content
  unfolding Builders.clipboard_data lookup
  content_field l content =
      let fields : List (String × j.Value) = ("content", j.string content) ∷ [] in
      field_reads (j.object fields) (j.string content) content
        (l.get-object fields "content" (refl, tt)) (l.as_str-string content)

  handle_client_message-apply_clipboard :
      (content name : String) (s : Server j)
      → s.config.clipboard_sharing ≡ true
      → str_field j (Builders.clipboard_data j content) "content" ≡ some content
      → handle_client_message j queues name (Builders.clipboard_data j content) s
        ≡ send_each j queues
            (Builders.clipboard_data j content)
            (other_names j name s.clients)
            (set_clipboard j content s)
  unfolding handle_client_message handle_message_type apply_clipboard Builders.clipboard_data
  handle_client_message-apply_clipboard content name s e f = ground (arith, e, f)

  client_message-others :
      (content name : String) (s : Server j)
      → JsonLaws j
      → HasDistinctKeys s.clients
      → s.config.clipboard_sharing ≡ true
      → handle_client_message j queues name (Builders.clipboard_data j content) s ≡ record s {
        clipboard = (Clipboard.set s.clipboard content).0;
        calls =
            (s.calls ++ writes content)
            ++ to_each (Builders.clipboard_data j content) (others name s.clients);
      }
  client_message-others content name s l d e =
      let msg = Builders.clipboard_data j content in
      let t = record s {
        clipboard = (Clipboard.set s.clipboard content).0;
        calls = s.calls ++ writes content;
      } in
      handle_client_message-apply_clipboard content name s e (content_field l content)
      ∙ ap (λ u. send_each j queues msg (other_names j name s.clients) u)
          (set_clipboard-writes content s)
      ∙ ap (λ targets. send_each j queues msg targets t) (names-others name s.clients)
      ∙ send_each-to_each msg (others name s.clients) t
          (All-others (IsEntry s.clients) name s.clients (entries-IsEntry s.clients d))

  -- Where sharing is on, a content that a client sends is applied, unless it is empty, and handed on
  -- once for every client with another name, to its queue, in the order of the map, and not for its
  -- sender. Nothing else of the state changes. The queues of the other clients are open and never
  -- full, and each takes its message. The map has one entry for each name, and the JSON crate keeps
  -- its laws.
  pub handle_client_message-others :
      (content name : String) (s : Server j)
      → JsonLaws j
      → HasDistinctKeys s.clients
      → s.config.clipboard_sharing ≡ true
      → HaveRoom queues (others name s.clients)
      → let msg = Builders.clipboard_data j content in
        let targets = others name s.clients in
        (handle_client_message j queues name msg s ≡ record s {
          clipboard = (Clipboard.set s.clipboard content).0;
          calls = (s.calls ++ writes content) ++ to_each msg targets;
        })
        × (delivered queues (s.calls ++ writes content) (to_each msg targets) ≡ to_whom msg targets)
  handle_client_message-others content name s l d e room = (
    client_message-others content name s l d e,
    delivered-to_each (Builders.clipboard_data j content) (s.calls ++ writes content)
        (others name s.clients) room,
  )

  to_none :
      (msg : Message j.Value) (clients : List (String × ClientInfo)) (paused : Bool) (s : Server j)
      → (if (elim clients as (λ x. Bool) [ [] ↦ true | c ∷ more ↦ false ]) || paused
          then s
          else record s { calls = s.calls ++ to_each msg clients })
        ≡ record s { calls = s.calls ++ (if paused then [] else to_each msg clients) }
  to_none msg clients paused s = ground (arith, append-nil s.calls)

  delivered_unless :
      (msg : Message j.Value) (before : List (Call j)) (clients : List (String × ClientInfo))
      (paused : Bool)
      → HaveRoom queues clients
      → delivered queues before (if paused then [] else to_each msg clients)
        ≡ (if paused then [] else to_whom msg clients)
  delivered_unless msg before clients true room = refl
  delivered_unless msg before clients false room = delivered-to_each msg before clients room

  broadcast-to_each :
      (content : String) (s : Server j)
      → HasDistinctKeys s.clients
      → broadcast_clipboard j queues content s ≡ record s {
        calls =
            s.calls
            ++ (if s.clipboard_paused
                then []
                else to_each (Builders.clipboard_data j content) s.clients);
      }
  unfolding broadcast_clipboard
  broadcast-to_each content s d =
      let msg = Builders.clipboard_data j content in
      ap (λ u. if has_no_clients j s || s.clipboard_paused then s else u)
        (send_each-to_each msg s.clients s (entries-IsEntry s.clients d))
      ∙ to_none msg s.clients s.clipboard_paused s

  -- A local change is handed once to the queue of every client, unless the clipboard is paused; then
  -- to none. Nothing else of the state changes. The queues are open and never full, and each takes its
  -- message. The map has one entry for each name.
  pub broadcast_clipboard-to_each :
      (content : String) (s : Server j)
      → HasDistinctKeys s.clients
      → HaveRoom queues s.clients
      → let msg = Builders.clipboard_data j content in
        let calls = if s.clipboard_paused then [] else to_each msg s.clients in
        (broadcast_clipboard j queues content s ≡ record s { calls = s.calls ++ calls })
        × (delivered queues s.calls calls
            ≡ (if s.clipboard_paused then [] else to_whom msg s.clients))
  broadcast_clipboard-to_each content s d room = (
    broadcast-to_each content s d,
    delivered_unless (Builders.clipboard_data j content) s.calls s.clients s.clipboard_paused room,
  )
