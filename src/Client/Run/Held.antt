-- ===== src/Client/Run/Held.antt =====
-- src/client.rs: what messages do to the control that a client holds, and to the motion of a round.
use bluecross.Base.{
  ℕ, ◌+◌, ◌≤◌, ◌≡◌, refl, ap, Bool, true, false, Bool-cases, ◌⊎◌, inl, inr, List, [], Option, none,
  some, String, ◌∷◌, ℤ, pos, arith, ◌+ℤ◌, if◌then◌else◌,
}
use bluecross.Base.Words.{add_i32, as_i32}
use bluecross.Json.{Json}
use bluecross.Protocol.{
  Message, MessageType, key_event, mouse_button, mouse_scroll, switch_to_client, clipboard_data,
}
use bluecross.Client.State.{ClientState}
use bluecross.Client.Apply.{
  Client, apply_message, apply_type, apply_input, apply_clipboard, set_clipboard, apply_switch,
  str_field, no_motion,
}
use bluecross.Client.Session.{ClientEvent, messages, drain_queue, is_motion}
use bluecross.Client.Release.{releases, Keeps, apply_type-Keeps}

abbrev pub is_entry : MessageType → Bool
is_entry switch_to_client = true
is_entry _ = false

abbrev pub count : Bool → ℕ
count b = if b then 1 else 0

-- How many of the messages hand control to the client.
abbrev pub entry : {V : Type 0} → Message V → ℕ
entry msg = count (is_entry msg.msg_type)

abbrev pub entries_queued : {V : Type 0} → List (ℕ × Message V) → ℕ
entries_queued [] = 0
entries_queued ((now, msg) ∷ more) = entry msg + entries_queued more

same_count : (b d : Bool) (n : ℕ) → d ≡ b → count d ≤ count b + n
same_count b d n e = omega (arith, ap count e)

at_most_one : (b : Bool) → count true ≤ count b + 1
at_most_one b = ground arith

zero_total :
    (a b : ℤ × ℤ)
    → a ≡ (pos 0, pos 0)
    → b ≡ (pos 0, pos 0)
    → ◌≡◌ {A = ℤ × ℤ} (add_i32 a.0 b.0, add_i32 a.1 b.1) (pos 0, pos 0)
unfolding add_i32 as_i32 ◌+ℤ◌
zero_total a b e f = rw (e, f) refl

pub no_motion_still : (j : Json) (total : ℤ × ℤ) → total ≡ no_motion j → is_motion j total ≡ false
no_motion_still j total e = rw e refl

module _ {j : Json} where
  abbrev pub entries_of : ClientEvent j → ℕ
  entries_of (messages alive t now first queued) = entry first + entries_queued queued
  entries_of _ = 0

  abbrev pub entries : List (ClientEvent j) → ℕ
  entries [] = 0
  entries (event ∷ more) = entries_of event + entries more

  -- How often control was given back, and once more if the client has it.
  abbrev pub held : Client j → ℕ
  held c = releases j c.effects + count c.state.active

  -- A motion that is not zero is one of an active client.
  abbrev pub Moves : ℤ × ℤ → Client j → Type 0
  Moves total c = (total ≡ no_motion j) ⊎ (c.state.active ≡ true)

  still :
      (b : Bool) (r : (ℤ × ℤ) × Client j) (c : Client j)
      → b ≡ false
      → (if b then r else (no_motion j, c)).0 ≡ no_motion j
  still b r c e = rw e refl

  apply_type_still :
      (now : ℕ) (t : MessageType) (payload : j.Value) (c : Client j)
      → c.state.active ≡ false
      → (apply_type j now t payload c).0 ≡ no_motion j
  unfolding apply_type
  apply_type_still now switch_to_client payload c e = refl
  apply_type_still now clipboard_data payload c e = refl
  apply_type_still now t payload c e = still c.state.active (apply_input j t payload c) c e

  apply_input-state :
      (t : MessageType) (payload : j.Value) (c : Client j)
      → (apply_input j t payload c).1.state ≡ c.state
  unfolding apply_input
  apply_input-state key_event payload c = refl
  apply_input-state mouse_button payload c = refl
  apply_input-state mouse_scroll payload c = refl
  apply_input-state _ payload c = refl

  if-state : (b : Bool) (d c : Client j) → d.state ≡ c.state → (if b then d else c).state ≡ c.state
  if-state true d c e = e
  if-state false d c e = refl

  apply_clipboard-state :
      (content : Option String) (c : Client j) → (apply_clipboard j content c).state ≡ c.state
  unfolding apply_clipboard set_clipboard
  apply_clipboard-state none c = refl
  apply_clipboard-state (some content) c = if-state c.state.config.clipboard_sharing _ c refl

  if_motion-state :
      (b : Bool) (r : (ℤ × ℤ) × Client j) (m : ℤ × ℤ) (c : Client j)
      → r.1.state ≡ c.state
      → (if b then r else (m, c)).1.state ≡ c.state
  if_motion-state true r m c e = e
  if_motion-state false r m c e = refl

  apply_type-active :
      (now : ℕ) (t : MessageType) (payload : j.Value) (c : Client j)
      → count (apply_type j now t payload c).1.state.active
        ≤ count c.state.active + count (is_entry t)
  unfolding apply_type apply_switch
  apply_type-active now switch_to_client payload c = at_most_one c.state.active
  apply_type-active now clipboard_data payload c =
      same_count _ _ _ (
        ap (λ (s : ClientState). s.active)
          (apply_clipboard-state (str_field j payload "content") c))
  apply_type-active now t payload c = same_count _ _ _ (
      ap (λ (s : ClientState). s.active)
        (if_motion-state c.state.active (apply_input j t payload c) (no_motion j) c
          (apply_input-state t payload c)))

  pub apply_type-held :
      (now : ℕ) (msg : Message j.Value) (c : Client j)
      → held (apply_message j now msg c).1 ≤ held c + entry msg
  unfolding apply_message
  apply_type-held now msg c =
      let k = apply_type-Keeps j now msg.msg_type msg.payload c in
      omega (arith, k.quiet, apply_type-active now msg.msg_type msg.payload c)

  pub apply_message-Keeps :
      (now : ℕ) (msg : Message j.Value) (c : Client j) → Keeps j c (apply_message j now msg c).1
  unfolding apply_message
  apply_message-Keeps now msg c = apply_type-Keeps j now msg.msg_type msg.payload c

  pub apply_message-Moves :
      (now : ℕ) (msg : Message j.Value) (c : Client j)
      → Moves (apply_message j now msg c).0 (apply_message j now msg c).1
  unfolding apply_message
  apply_message-Moves now msg c = elim (Bool-cases c.state.active) [
    | inl a ↦ inr ((apply_type-Keeps j now msg.msg_type msg.payload c).active a)
    | inr idle ↦ inl (apply_type_still now msg.msg_type msg.payload c idle)
  ]

  Moves-add :
      (total d : ℤ × ℤ) (c t : Client j)
      → (c.state.active ≡ true → t.state.active ≡ true)
      → Moves total c
      → Moves d t
      → Moves (add_i32 total.0 d.0, add_i32 total.1 d.1) t
  Moves-add total d c t keeps (inr a) k = inr (keeps a)
  Moves-add total d c t keeps (inl e) (inr a) = inr a
  Moves-add total d c t keeps (inl e) (inl f) = inl (zero_total total d e f)

  pub drain_queue-held :
      (queued : List (ℕ × Message j.Value)) (total : ℤ × ℤ) (c : Client j)
      → Moves total c
      → let r = drain_queue j queued total c in
        Moves r.0 r.1 × (held r.1 ≤ held c + entries_queued queued)
  unfolding drain_queue
  drain_queue-held [] total c h = (h, omega arith)
  drain_queue-held ((now, msg) ∷ more) total c h =
      let r = apply_message j now msg c in
      let keeps : Keeps j c r.1 = apply_message-Keeps now msg c in
      let (moves, bound) =
        drain_queue-held more (add_i32 total.0 r.0.0, add_i32 total.1 r.0.1) r.1
          (Moves-add total r.0 c r.1 keeps.active h (apply_message-Moves now msg c)) in
      (moves, omega (arith, bound, apply_type-held now msg c))
