-- ===== src/Server/Invariant/Parts.antt =====
-- src/server.rs: the parts of the handlers and the invariant.
use text.Mathlib.Text.{◌==◌ as str_eq}
use bluecross.Base.{
  ℕ, ◌≡◌, refl, ◌∙◌, Bool, true, false, Option, none, some, List, String, ℤ, pos, negsuc, ◌≤ℤ◌,
  ◌<ℤ◌, arith, eq_iff, inl, inr, Bool-cases, if◌then◌else◌,
}
use bluecross.Base.Words.{quot}
use bluecross.Base.Maps.{insert, remove, lookup-insert, lookup-remove}
use bluecross.Json.{Json}
use bluecross.Protocol.{Message}
use bluecross.Config.{ServerConfig}
use bluecross.Clipboard.{ClipboardManager}
use bluecross.Server.State.{ClientInfo, Server, Queues, new, grab_devices, deactivate, send_to}
use bluecross.Server.Events.{handle_client_disconnect}
use bluecross.Server.Invariant.{IsKnown, IsScreen, IsCoherent, Inv}

-- The middle of the screen is on the screen.
half-in : (w : ℤ) → pos 0 <ℤ w → (pos 0 ≤ℤ quot w (pos 2)) × (quot w (pos 2) <ℤ w)
half-in (pos n) h = (omega arith, omega arith)
half-in (negsuc n) h = absurd (omega arith)

pub insert-IsKnown :
    (name : String) (info : ClientInfo) (clients : List (String × ClientInfo))
    (active : Option String)
    → IsKnown active clients
    → IsKnown active (insert name info clients)
insert-IsKnown name info clients none k = tt
insert-IsKnown name info clients (some a) (known, k) = elim (Bool-cases (str_eq name a)) [
  | inl e ↦ (info, lookup-insert name a info clients ∙ rw e)
  | inr e ↦ (known, lookup-insert name a info clients ∙ rw e k)
]

module _ {j : Json} where
  pub if-Inv : (test : Bool) (s t : Server j) → Inv s → Inv t → Inv (if test then s else t)
  if-Inv true s t h k = h
  if-Inv false s t h k = k

  pub new-Inv :
      (config : ServerConfig) (clipboard : ClipboardManager) (now : ℕ)
      → IsScreen config.screen_width config.screen_height
      → Inv (new j config clipboard now)
  unfolding new
  new-Inv config clipboard now h =
      ground (arith, half-in config.screen_width h.wide, half-in config.screen_height h.high)

  pub deactivate-IsCoherent :
      (name : String) (s : Server j) → IsCoherent s → IsCoherent (deactivate j name s)
  unfolding deactivate
  deactivate-IsCoherent name s h = ground (
    arith,
    half-in s.config.screen_width h.screen.wide,
    half-in s.config.screen_height h.screen.high,
  )

  -- `send_to` adds to the calls and leaves all else as it was.
  pub send_to-same :
      (queues : Queues j) (name : String) (msg : Message j.Value) (s : Server j)
      → (send_to j queues name msg s).1 ≡ record s { calls = (send_to j queues name msg s).1.calls }
  unfolding send_to
  send_to-same queues name msg s = ground arith

  -- `grab_devices` changes the flag and adds to the calls.
  pub grab_devices-clients : (s : Server j) → (grab_devices j s).clients ≡ s.clients
  unfolding grab_devices
  grab_devices-clients s = ground arith

  pub grab_devices-active_client :
      (s : Server j) → (grab_devices j s).active_client ≡ s.active_client
  unfolding grab_devices
  grab_devices-active_client s = ground arith

  pub send_to-Inv :
      (queues : Queues j) (name : String) (msg : Message j.Value) (s : Server j)
      → Inv s
      → Inv (send_to j queues name msg s).1
  unfolding send_to
  send_to-Inv queues name msg s h = ground arith

  deactivate-IsKnown :
      (name : String) (s : Server j) (active : Option String)
      → s.active_client ≡ active
      → IsKnown active s.clients
      → IsKnown (deactivate j name s).active_client (deactivate j name s).clients
  unfolding deactivate
  deactivate-IsKnown name s none e k = ground arith
  deactivate-IsKnown name s (some a) e k = ground (arith, k.1)

  pub deactivate-Inv : (name : String) (s : Server j) → Inv s → Inv (deactivate j name s)
  deactivate-Inv name s h = record {
    coherent = deactivate-IsCoherent name s h.coherent;
    known = deactivate-IsKnown name s s.active_client refl h.known;
  }

  pub deactivate-clients :
      (name : String) (s : Server j) → (deactivate j name s).clients ≡ s.clients
  unfolding deactivate
  deactivate-clients name s = ground arith

  deactivate-active_client :
      (name a : String) (s : Server j)
      → s.active_client ≡ some a
      → (deactivate j name s).active_client ≡ (if str_eq a name then none else some a)
  unfolding deactivate
  deactivate-active_client name a s e = ground arith

  remove-IsKnown :
      (name : String) (s : Server j) (active : Option String)
      → s.active_client ≡ active
      → IsKnown active s.clients
      → let t = deactivate j name (record s { clients = remove name s.clients }) in
        IsKnown t.active_client (remove name s.clients)
  remove-IsKnown name s none e k = unfold deactivate in ground arith
  remove-IsKnown name s (some a) e (info, k) =
      let t = record s { clients = remove name s.clients } in
      elim (Bool-cases (str_eq a name)) [
        | inl same ↦ rw (deactivate-active_client name a t e, same) tt
        | inr other ↦
            rw (deactivate-active_client name a t e, other)
              (info, ground (arith, lookup-remove name a s.clients, eq_iff a name, eq_iff name a))
      ]

  pub disconnect-Inv :
      (name : String) (s : Server j) → Inv s → Inv (handle_client_disconnect j name s)
  unfolding handle_client_disconnect
  disconnect-Inv name s h =
      let t = record s { clients = remove name s.clients } in
      record {
        coherent = deactivate-IsCoherent name t (ground arith);
        known = rw (deactivate-clients name t) (remove-IsKnown name s s.active_client refl h.known);
      }
