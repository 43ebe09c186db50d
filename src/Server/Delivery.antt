-- ===== src/Server/Delivery.antt =====
-- src/server.rs: which of the messages that the server hands to `try_send` get into the queues.
use bluecross.Base.{ℕ, ◌≡◌, refl, ap, Bool, true, false, List, [], ◌∷◌, ◌++◌, if◌then◌else◌}
use bluecross.Json.{Json}
use bluecross.Protocol.{Message}
use bluecross.Server.State.{SendStatus, sent, Call, try_send, ioctl, wl_copy, Queues, is_alive}

abbrev is_sent : SendStatus → Bool
is_sent sent = true
is_sent _ = false

-- A message that is taken, in front of the others.
pub taken :
    {M : Type 0} (status : SendStatus) (m : M) (rest all : List M)
    → status ≡ sent
    → rest ≡ all
    → (if is_sent status then m ∷ rest else rest) ≡ m ∷ all
taken status m rest all e f = rw (e, f) refl

module _ {j : Json} where
  -- The messages with their queues that are taken, where the calls of `before` came first.
  abbrev pub delivered : Queues j → List (Call j) → List (Call j) → List (ℕ × Message j.Value)
  delivered queues before [] = []
  delivered queues before (try_send tx msg ∷ more) =
      let rest = delivered queues (before ++ try_send tx msg ∷ []) more in
      if is_sent (queues before tx msg) then (tx, msg) ∷ rest else rest
  delivered queues before (ioctl i ∷ more) = delivered queues (before ++ ioctl i ∷ []) more
  delivered queues before (wl_copy text ∷ more) =
      delivered queues (before ++ wl_copy text ∷ []) more

  -- The queue is open and never full.
  abbrev pub HasRoom : Queues j → ℕ → Type 0
  HasRoom queues tx = (calls : List (Call j)) (msg : Message j.Value) → queues calls tx msg ≡ sent

  pub HasRoom-is_alive :
      (queues : Queues j) (tx : ℕ)
      → HasRoom queues tx
      → (calls : List (Call j)) (msg : Message j.Value) → is_alive j (queues calls tx msg) ≡ true
  HasRoom-is_alive queues tx h calls msg = ap (is_alive j) (h calls msg)
