-- ===== src/Server/Tasks/Admitted.antt =====
-- src/server.rs: every client that is registered came through `handle_new_connection`.
use text.Mathlib.Text.{◌==◌ as str_eq}
use bluecross.Base.{
  ℕ, ◌≡◌, sym, ◌∙◌, ap, subst, subst⁻¹, Bool, true, false, Bool-cases, inl, inr, Option, none, some,
  List, [], ◌∷◌, ◌++◌, String, eq_iff, done, and_then-eq-done, if◌then◌else◌,
}
use bluecross.Base.Maps.{lookup, insert, lookup-insert}
use bluecross.Json.{Json}
use bluecross.Clipboard.{ClipboardManager}
use bluecross.Config.{ServerConfig}
use bluecross.Server.State.{ClientInfo, Server, Queues, new}
use bluecross.Server.Events.{
  ServerEvent, input, new_client, client_message, client_disconnected, clipboard_changed,
  handle_event,
}
use bluecross.Server.Tasks.{
  World, start, register_connection, reader_message, reader_ends, writer_ends, handle_next,
  handle_from, by_device, by_clipboard, Step, connects, receives, loses, stops_writing, captures,
  handles, Reach, here, next,
}
use bluecross.Server.Tasks.Kept.{handle_event-clients}
use bluecross.Server.Tasks.Rounds.{done_inj, not_found, kept}

same_client :
    (Admits : String → ClientInfo → Type 0) (info i : ClientInfo) (name n : String)
    → ◌≡◌ {A = Option ClientInfo} (some info) (some i)
    → name ≡ n
    → Admits name info
    → Admits n i
same_client Admits info i name n e f h =
    subst (λ m. Admits m i) f
      (subst (Admits name) (ap (λ o. elim o [ none ↦ info | some k ↦ k ]) e) h)

kept_one :
    (b : Bool) (o : Option ClientInfo) (i : ClientInfo)
    → (if b then none else o) ≡ some i
    → o ≡ some i
kept_one true o i e = absurd (not_found i e)
kept_one false o i e = e

module _ {j : Json} (Admits : String → ClientInfo → Type 0) where
  abbrev Admissible : ServerEvent j → Type 0
  Admissible (new_client name info) = Admits name info
  Admissible _ = Unit

  abbrev AreAdmissible : List (ServerEvent j) → Type 0
  AreAdmissible [] = Unit
  AreAdmissible (event ∷ more) = Admissible event × AreAdmissible more

  abbrev AreAdmitted : Server j → Type 0
  AreAdmitted s =
      (name : String) (info : ClientInfo) → lookup name s.clients ≡ some info → Admits name info

  record IsGuarded (w : World j) : Type 0 where
    registered : AreAdmitted w.server
    pending : AreAdmissible w.events

  AreAdmissible-append :
      (events : List (ServerEvent j)) (event : ServerEvent j)
      → AreAdmissible events
      → Admissible event
      → AreAdmissible (events ++ event ∷ [])
  AreAdmissible-append [] event h k = (k, tt)
  AreAdmissible-append (e ∷ more) event h k = (h.0, AreAdmissible-append more event h.1 k)

  inserted-AreAdmitted :
      (name : String) (info : ClientInfo) (s : Server j)
      → Admits name info
      → AreAdmitted s
      → AreAdmitted (record s { clients = insert name info s.clients })
  inserted-AreAdmitted name info s a h n i found = elim (Bool-cases (str_eq name n)) [
    | inl same ↦
        same_client Admits info i name n
          (ap (λ b. if b then some info else lookup n s.clients) (sym same)
            ∙ sym (lookup-insert name n info s.clients)
            ∙ found)
          ((eq_iff name n).0 same) a
    | inr other ↦ h n i (
        ap (λ b. if b then some info else lookup n s.clients) (sym other)
        ∙ sym (lookup-insert name n info s.clients)
        ∙ found)
  ]

  module _ (queues : Queues j) (now : ℕ) where
    same_clients : (s t : Server j) → t.clients ≡ s.clients → AreAdmitted s → AreAdmitted t
    same_clients s t e h n i found = h n i (ap (lookup n) (sym e) ∙ found)

    handle_event-AreAdmitted :
        (event : ServerEvent j) (s t : Server j)
        → Admissible event
        → AreAdmitted s
        → handle_event j queues now event s ≡ done t
        → AreAdmitted t
    unfolding handle_event
    handle_event-AreAdmitted (new_client name info) s t a h e =
        subst AreAdmitted (done_inj _ t e) (inserted-AreAdmitted name info s a h)
    handle_event-AreAdmitted (client_disconnected name) s t a h e =
        subst AreAdmitted (done_inj _ t e) λ n i found.
          h n i (
            kept_one (str_eq name n) (lookup n s.clients) i (kept s (λ tx. none) [] name n i found))
    handle_event-AreAdmitted (input event) s t a h e =
        same_clients s t (handle_event-clients queues now (input event) s t tt e) h
    handle_event-AreAdmitted (client_message name msg) s t a h e =
        same_clients s t (handle_event-clients queues now (client_message name msg) s t tt e) h
    handle_event-AreAdmitted (clipboard_changed content) s t a h e =
        same_clients s t (handle_event-clients queues now (clipboard_changed content) s t tt e) h

    handle_from-IsGuarded :
        (server : Server j) (writers : ℕ → Option String) (events : List (ServerEvent j))
        (v : World j)
        → IsGuarded (record { server = server; writers = writers; events = events })
        → handle_from j queues now server writers events ≡ done v
        → IsGuarded v
    unfolding handle_from
    handle_from-IsGuarded server writers [] v h e = subst IsGuarded (done_inj _ v e) h
    handle_from-IsGuarded server writers (event ∷ more) v h e =
        let (t, handled, f) =
          and_then-eq-done (handle_event j queues now event server)
            (λ t. done (record { server = t; writers = writers; events = more })) e in
        subst IsGuarded (done_inj _ v f) (record {
          registered = handle_event-AreAdmitted event server t h.pending.0 h.registered handled;
          pending = h.pending.1;
        })

  -- A send into the channel; what happens to the writers does not matter.
  sent-IsGuarded :
      (event : ServerEvent j) (writers : ℕ → Option String) (w : World j)
      → Admissible event
      → IsGuarded w
      → IsGuarded (record w { writers = writers; events = w.events ++ event ∷ [] })
  sent-IsGuarded event writers w a h = record {
    registered = h.registered;
    pending = AreAdmissible-append w.events event h.pending a;
  }

  Step-IsGuarded :
      (queues : Queues j) {w v : World j} → Step j Admits queues w v → IsGuarded w → IsGuarded v
  unfolding register_connection reader_message reader_ends writer_ends handle_next
  Step-IsGuarded queues {w} {v} (connects name info admitted fresh e) h =
      subst⁻¹ IsGuarded e (sent-IsGuarded (new_client name info) _ w admitted h)
  Step-IsGuarded queues {w} {v} (receives name msg e) h =
      subst⁻¹ IsGuarded e (sent-IsGuarded (client_message name msg) w.writers w tt h)
  Step-IsGuarded queues {w} {v} (loses name e) h =
      subst⁻¹ IsGuarded e (sent-IsGuarded (client_disconnected name) w.writers w tt h)
  Step-IsGuarded queues {w} {v} (stops_writing tx name runs waits e) h =
      subst⁻¹ IsGuarded e (sent-IsGuarded (client_disconnected name) _ w tt h)
  Step-IsGuarded queues {w} {v} (captures _ (by_device event) e) h =
      subst⁻¹ IsGuarded e (sent-IsGuarded (input event) w.writers w tt h)
  Step-IsGuarded queues {w} {v} (captures _ (by_clipboard content) e) h =
      subst⁻¹ IsGuarded e (sent-IsGuarded (clipboard_changed content) w.writers w tt h)
  Step-IsGuarded queues {w} {v} (handles now e) h =
      handle_from-IsGuarded queues now w.server w.writers w.events v h e

  Reach-IsGuarded :
      (queues : Queues j) {w v : World j} → Reach j Admits queues w v → IsGuarded w → IsGuarded v
  Reach-IsGuarded queues here h = h
  Reach-IsGuarded queues (next r step) h = Step-IsGuarded queues step (Reach-IsGuarded queues r h)

  -- Whatever happens, a client that is registered was admitted with just this registration.
  pub Reach-start-AreAdmitted :
      (queues : Queues j) (config : ServerConfig) (fds : List ℕ) (clipboard : ClipboardManager)
      (now : ℕ) (w : World j)
      → Reach j Admits queues (start j config fds clipboard now) w
      → (name : String) (info : ClientInfo) → lookup name w.server.clients ≡ some info
      → Admits name info
  unfolding start new lookup
  Reach-start-AreAdmitted queues config fds clipboard now w r =
      (Reach-IsGuarded queues r
        (record { registered = λ name info e. absurd (not_found info e); pending = tt })).registered
