-- ===== src/Server/Tasks/Queue.antt =====
-- src/server.rs: what the queue of events tells of the connections.
use text.Mathlib.Text.{◌==◌ as str_eq}
use bluecross.Base.{
  ℕ, ◌≡◌, subst, ◌⊎◌, inl, inr, Bool, true, false, Bool-cases, Option, none, some, List, [], ◌∷◌,
  ◌++◌, String, ◌==◌, ◌||◌, arith, eq_iff, if◌then◌else◌,
}
use bluecross.Base.Maps.{lookup}
use bluecross.Json.{Json}
use bluecross.Server.State.{ClientInfo}
use bluecross.Server.Events.{
  ServerEvent, input, new_client, client_message, client_disconnected, clipboard_changed,
}
use bluecross.Server.Tasks.{World, emit, is_pending}

-- A task cannot run and not run, nor serve two clients.
both_ways :
    (writers : ℕ → Option String) (tx started : ℕ) (n : String)
    → tx ≡ started
    → writers tx ≡ some n
    → writers started ≡ none
    → ⊥
both_ways writers tx started n same h e = cc

pub one_name :
    (writers : ℕ → Option String) (tx ended : ℕ) (n name : String)
    → tx ≡ ended
    → writers tx ≡ some n
    → writers ended ≡ some name
    → n ≡ name
one_name writers tx ended n name same h e = cc

abbrev pub with_writer : ℕ → String → (ℕ → Option String) → ℕ → Option String
with_writer started name writers tx = if tx == started then some name else writers tx

abbrev pub without_writer : ℕ → (ℕ → Option String) → ℕ → Option String
without_writer ended writers tx = if tx == ended then none else writers tx

pub with_writer_kept :
    (started : ℕ) (name : String) (writers : ℕ → Option String) (tx : ℕ) (n : String)
    → writers started ≡ none
    → writers tx ≡ some n
    → with_writer started name writers tx ≡ some n
with_writer_kept started name writers tx n e h = elim (Bool-cases (tx == started)) [
  | inl same ↦ absurd (both_ways writers tx started n (ground (arith, same)) h e)
  | inr other ↦ rw other h
]

module _ {j : Json} where
  -- Whether the end of a client's connection is among the events.
  abbrev pub is_ending : String → List (ServerEvent j) → Bool
  is_ending name [] = false
  is_ending name (client_disconnected n ∷ more) = str_eq n name || is_ending name more
  is_ending name (_ ∷ more) = is_ending name more

  -- Every registration among the events has a writer that runs.
  abbrev pub HasWriters : (ℕ → Option String) → List (ServerEvent j) → Type 0
  HasWriters writers [] = Unit
  HasWriters writers (new_client name info ∷ more) =
      (writers info.tx ≡ some name) × HasWriters writers more
  HasWriters writers (_ ∷ more) = HasWriters writers more

  pub record IsServed (w : World j) : Type 0 where
    pub registered :
        (name : String) (info : ClientInfo)
        → lookup name w.server.clients ≡ some info
        → (w.writers info.tx ≡ some name) ⊎ (is_ending name w.events ≡ true)
    pub pending : HasWriters w.writers w.events

  pub is_ending-append :
      (name : String) (events : List (ServerEvent j)) (event : ServerEvent j)
      → is_ending name events ≡ true
      → is_ending name (events ++ event ∷ []) ≡ true
  is_ending-append name [] event h = cc
  is_ending-append name (client_disconnected n ∷ more) event h =
      ground (arith, is_ending-append name more event)
  is_ending-append name (input e ∷ more) event h = is_ending-append name more event h
  is_ending-append name (new_client n info ∷ more) event h = is_ending-append name more event h
  is_ending-append name (client_message n msg ∷ more) event h = is_ending-append name more event h
  is_ending-append name (clipboard_changed c ∷ more) event h = is_ending-append name more event h

  pub is_ending_last :
      (name : String) (events : List (ServerEvent j))
      → is_ending name (events ++ client_disconnected name ∷ []) ≡ true
  is_ending_last name [] = ground (arith, eq_iff name name)
  is_ending_last name (client_disconnected n ∷ more) = ground (arith, is_ending_last name more)
  is_ending_last name (input e ∷ more) = is_ending_last name more
  is_ending_last name (new_client n info ∷ more) = is_ending_last name more
  is_ending_last name (client_message n msg ∷ more) = is_ending_last name more
  is_ending_last name (clipboard_changed c ∷ more) = is_ending_last name more

  pub ending_of :
      (n name : String) (events : List (ServerEvent j))
      → n ≡ name
      → is_ending n (events ++ client_disconnected name ∷ []) ≡ true
  ending_of n name events e =
      subst (λ m. is_ending n (events ++ client_disconnected m ∷ []) ≡ true) e
        (is_ending_last n events)

  pub HasWriters-append :
      (writers : ℕ → Option String) (events : List (ServerEvent j)) (event : ServerEvent j)
      → HasWriters writers events
      → HasWriters writers (event ∷ [])
      → HasWriters writers (events ++ event ∷ [])
  HasWriters-append writers [] event h k = k
  HasWriters-append writers (new_client name info ∷ more) event h k =
      (h.0, HasWriters-append writers more event h.1 k)
  HasWriters-append writers (client_disconnected n ∷ more) event h k =
      HasWriters-append writers more event h k
  HasWriters-append writers (input e ∷ more) event h k = HasWriters-append writers more event h k
  HasWriters-append writers (client_message n msg ∷ more) event h k =
      HasWriters-append writers more event h k
  HasWriters-append writers (clipboard_changed c ∷ more) event h k =
      HasWriters-append writers more event h k

  -- An event that is no registration.
  pub emit-IsServed :
      (event : ServerEvent j) (w : World j)
      → HasWriters w.writers (event ∷ [])
      → IsServed w
      → IsServed (emit j event w)
  emit-IsServed event w k h = record {
    registered = λ name info e. elim (h.registered name info e) [
      | inl runs ↦ inl runs
      | inr ends ↦ inr (is_ending-append name w.events event ends)
    ];
    pending = HasWriters-append w.writers w.events event h.pending k;
  }

  pub HasWriters-with_writer :
      (started : ℕ) (name : String) (writers : ℕ → Option String) (events : List (ServerEvent j))
      → writers started ≡ none
      → HasWriters writers events
      → HasWriters (with_writer started name writers) events
  HasWriters-with_writer started name writers [] e h = tt
  HasWriters-with_writer started name writers (new_client n info ∷ more) e h = (
    with_writer_kept started name writers info.tx n e h.0,
    HasWriters-with_writer started name writers more e h.1,
  )
  HasWriters-with_writer started name writers (client_disconnected n ∷ more) e h =
      HasWriters-with_writer started name writers more e h
  HasWriters-with_writer started name writers (input i ∷ more) e h =
      HasWriters-with_writer started name writers more e h
  HasWriters-with_writer started name writers (client_message n msg ∷ more) e h =
      HasWriters-with_writer started name writers more e h
  HasWriters-with_writer started name writers (clipboard_changed c ∷ more) e h =
      HasWriters-with_writer started name writers more e h

  pub HasWriters-without_writer :
      (ended : ℕ) (writers : ℕ → Option String) (events : List (ServerEvent j))
      → is_pending j ended events ≡ false
      → HasWriters writers events
      → HasWriters (without_writer ended writers) events
  HasWriters-without_writer ended writers [] e h = tt
  HasWriters-without_writer ended writers (new_client n info ∷ more) e h =
      let first : (info.tx == ended) ≡ false = ground (arith, e) in
      (rw first h.0, HasWriters-without_writer ended writers more (ground (arith, e)) h.1)
  HasWriters-without_writer ended writers (client_disconnected n ∷ more) e h =
      HasWriters-without_writer ended writers more e h
  HasWriters-without_writer ended writers (input i ∷ more) e h =
      HasWriters-without_writer ended writers more e h
  HasWriters-without_writer ended writers (client_message n msg ∷ more) e h =
      HasWriters-without_writer ended writers more e h
  HasWriters-without_writer ended writers (clipboard_changed c ∷ more) e h =
      HasWriters-without_writer ended writers more e h
