-- ===== src/Server/Motion/Order.antt =====
-- src/server.rs: the order of keys, buttons and motion.
use bluecross.Base.{ℕ, Bool, List, [], ◌∷◌, ◌++◌, pos, if◌then◌else◌, eqb_ℤ, ◌||◌, not}
use bluecross.Json.{Json}
use bluecross.Protocol.{Message}
use bluecross.Server.State.{ClientInfo, Call, try_send, Server, Queues}
use bluecross.Server.Input.{pending_motion}

module _ {j : Json} (queues : Queues j) where
  abbrev pub is_pending : Server j → Bool
  is_pending s = not (eqb_ℤ s.pending_dx (pos 0)) || not (eqb_ℤ s.pending_dy (pos 0))

  -- The messages, by the pending motion, with their queue.
  abbrev pub messages_with : ClientInfo → Message j.Value → Server j → List (ℕ × Message j.Value)
  messages_with info msg s =
      if is_pending s
      then (info.tx, pending_motion j s) ∷ (info.tx, msg) ∷ []
      else (info.tx, msg) ∷ []

  -- The calls that hand them over.
  abbrev pub sent_with : ClientInfo → Message j.Value → Server j → List (Call j)
  sent_with info msg s =
      if is_pending s
      then try_send info.tx (pending_motion j s) ∷ try_send info.tx msg ∷ []
      else try_send info.tx msg ∷ []

  abbrev pub after_sending : ClientInfo → Message j.Value → Server j → Server j
  after_sending info msg s = record s {
    pending_dx = pos 0;
    pending_dy = pos 0;
    calls = s.calls ++ sent_with info msg s;
  }
