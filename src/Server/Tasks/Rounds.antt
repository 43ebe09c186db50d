-- ===== src/Server/Tasks/Rounds.antt =====
-- src/server.rs: what one event, one connection and the end of one writer do to the registrations.
use text.Mathlib.Text.{◌==◌ as str_eq}
use bluecross.Base.{
  ℕ, ◌≡◌, refl, sym, ◌∙◌, ap, subst, ◌⊎◌, inl, inr, true, false, Bool-cases, Option, none, some,
  List, ◌∷◌, String, ◌==◌, ◌||◌, arith, eq_iff, Outcome, done, if◌then◌else◌,
}
use bluecross.Base.Maps.{lookup, insert, remove, lookup-insert, lookup-remove}
use bluecross.Json.{Json}
use bluecross.Server.State.{ClientInfo, Server}
use bluecross.Server.Events.{
  ServerEvent, input, new_client, client_message, client_disconnected, clipboard_changed,
  handle_client_disconnect,
}
use bluecross.Server.Invariant.Parts.{deactivate-clients}
use bluecross.Server.Tasks.{World, register_connection, writer_ends, is_pending}
use bluecross.Server.Tasks.Queue.{
  with_writer, without_writer, with_writer_kept, one_name, is_ending, HasWriters, IsServed,
  is_ending-append, ending_of, HasWriters-append, HasWriters-with_writer, HasWriters-without_writer,
  emit-IsServed,
}
use bluecross.Server.Tasks.Kept.{IsOther}

pub done_inj : {A : Type 0} (a b : A) → ◌≡◌ {A = Outcome A} (done a) (done b) → a ≡ b
done_inj a b e = cc

pub not_found : (i : ClientInfo) → ◌≡◌ {A = Option ClientInfo} none (some i) → ⊥
not_found i e = cc

runs_for :
    (writers : ℕ → Option String) (info i : ClientInfo) (name n : String)
    → ◌≡◌ {A = Option ClientInfo} (some info) (some i)
    → name ≡ n
    → writers info.tx ≡ some name
    → writers i.tx ≡ some n
runs_for writers info i name n e f h = cc

module _ {j : Json} where
  pub register_connection-IsServed :
      (name : String) (info : ClientInfo) (w : World j)
      → w.writers info.tx ≡ none
      → IsServed w
      → IsServed (register_connection j name info w)
  unfolding register_connection
  register_connection-IsServed name info w e h =
      emit-IsServed (new_client name info)
        (record w { writers = with_writer info.tx name w.writers }) (ground arith, tt)
        (record {
          registered = λ n i found. elim (h.registered n i found) [
            | inl runs ↦ inl (with_writer_kept info.tx name w.writers i.tx n e runs)
            | inr ends ↦ inr ends
          ];
          pending = HasWriters-with_writer info.tx name w.writers w.events e h.pending;
        })

  pub writer_ends-IsServed :
      (ended : ℕ) (name : String) (w : World j)
      → w.writers ended ≡ some name
      → is_pending j ended w.events ≡ false
      → IsServed w
      → IsServed (writer_ends j ended name w)
  unfolding writer_ends
  writer_ends-IsServed ended name w e waits h = record {
    registered = λ n i found. elim (h.registered n i found) [
      | inr ends ↦ inr (is_ending-append n w.events (client_disconnected name) ends)
      | inl runs ↦ elim (Bool-cases (i.tx == ended)) [
        | inr other ↦ inl (rw other runs)
        | inl same ↦ inr (
            ending_of n name w.events
              (one_name w.writers i.tx ended n name (ground (arith, same)) runs e))
      ]
    ];
    pending =
        HasWriters-append (without_writer ended w.writers) w.events (client_disconnected name)
          (HasWriters-without_writer ended w.writers w.events waits h.pending) tt;
  }

  -- The world after a round whose event is no registration and no disconnect.
  is_ending_other :
      (name : String) (event : ServerEvent j) (more : List (ServerEvent j))
      → IsOther event
      → is_ending name (event ∷ more) ≡ is_ending name more
  is_ending_other name (input e) more o = refl
  is_ending_other name (client_message n msg) more o = refl
  is_ending_other name (clipboard_changed c) more o = refl
  is_ending_other name (new_client n info) more o = absurd o
  is_ending_other name (client_disconnected n) more o = absurd o

  HasWriters-IsOther :
      (writers : ℕ → Option String) (event : ServerEvent j) (more : List (ServerEvent j))
      → HasWriters writers (event ∷ more)
      → HasWriters writers more
  HasWriters-IsOther writers (input e) more h = h
  HasWriters-IsOther writers (client_message n msg) more h = h
  HasWriters-IsOther writers (clipboard_changed c) more h = h
  HasWriters-IsOther writers (new_client n info) more h = h.1
  HasWriters-IsOther writers (client_disconnected n) more h = h

  module _ (server : Server j) (writers : ℕ → Option String) (more : List (ServerEvent j)) where
    abbrev pub at : ServerEvent j → World j
    at event = record { server = server; writers = writers; events = event ∷ more }

    abbrev pub after : Server j → World j
    after t = record { server = t; writers = writers; events = more }

    pub other_handled :
        (event : ServerEvent j) (t : Server j)
        → IsOther event
        → t.clients ≡ server.clients
        → IsServed (at event)
        → IsServed (after t)
    other_handled event t o same h = record {
      registered = λ n i found.
          subst (λ b. (writers i.tx ≡ some n) ⊎ (b ≡ true)) (is_ending_other n event more o)
            (h.registered n i (ap (lookup n) (sym same) ∙ found));
      pending = HasWriters-IsOther writers event more h.pending;
    }

    pub client_handled :
        (name : String) (info : ClientInfo)
        → IsServed (at (new_client name info))
        → IsServed (after (record server { clients = insert name info server.clients }))
    client_handled name info h = record {
      registered = λ n i found. elim (Bool-cases (str_eq name n)) [
        | inl same ↦ inl (
            runs_for writers info i name n
              (ap (λ b. if b then some info else lookup n server.clients) (sym same)
                ∙ sym (lookup-insert name n info server.clients)
                ∙ found)
              ((eq_iff name n).0 same) h.pending.0)
        | inr other ↦ h.registered n i (
            ap (λ b. if b then some info else lookup n server.clients) (sym other)
            ∙ sym (lookup-insert name n info server.clients)
            ∙ found)
      ];
      pending = h.pending.1;
    }

    -- What is found after a disconnect.
    pub kept :
        (name n : String) (i : ClientInfo)
        → lookup n (handle_client_disconnect j name server).clients ≡ some i
        → (if str_eq name n then none else lookup n server.clients) ≡ some i
    unfolding handle_client_disconnect
    kept name n i found =
        sym (lookup-remove name n server.clients)
        ∙ ap (lookup n)
            (sym (deactivate-clients name (record server { clients = remove name server.clients })))
        ∙ found

    pub disconnect_handled :
        (name : String)
        → IsServed (at (client_disconnected name))
        → IsServed (after (handle_client_disconnect j name server))
    disconnect_handled name h = record {
      registered = λ n i found. elim (Bool-cases (str_eq name n)) [
        | inl same ↦ absurd (
            not_found i (
              ap (λ b. if b then none else lookup n server.clients) (sym same)
              ∙ kept name n i found))
        | inr other ↦
            subst (λ b. (writers i.tx ≡ some n) ⊎ ((b || is_ending n more) ≡ true)) other
              (h.registered n i (
                ap (λ b. if b then none else lookup n server.clients) (sym other)
                ∙ kept name n i found))
      ];
      pending = h.pending;
    }
