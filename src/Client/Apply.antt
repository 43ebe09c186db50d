-- ===== src/Client/Apply.antt =====
-- src/client.rs: `apply_message`.
use bluecross.Base.{
  ℕ, true, false, Option, none, some, List, [], ◌∷◌, ◌++◌, map, String, ℤ, pos, if◌then◌else◌,
}
use bluecross.Base.Words.{as_i32, as_u16, quot}
use bluecross.Json.{Json}
use bluecross.Protocol.{
  Message, MessageType, key_event, mouse_move, mouse_button, mouse_scroll, switch_to_client,
  clipboard_data,
}
use bluecross.Inject.{Emission, InputInjector, inject_key, inject_mouse_button, inject_mouse_scroll}
use bluecross.Clipboard.{ClipboardManager}
use bluecross.Clipboard
use bluecross.Client.State.{ClientState}

module _ (j : Json) where
  open j use {Value, get, as_str, as_i64}

  -- What the client does to the outside: emissions, writes to the clipboard, messages sent.
  pub data Effect : Type 0 where
    emit : Emission → Effect
    wl_copy : String → Effect
    send : Message Value → Effect

  -- The variables of `run_async` that messages change, and the effects so far, in order.
  pub record Client : Type 0 where
    pub state : ClientState
    pub injector : InputInjector
    pub clipboard : ClipboardManager
    pub effects : List Effect

  abbrev pub then_emit : List Emission → Client → Client
  then_emit emissions c = record c { effects = c.effects ++ map emit emissions }

  -- `msg.payload.get(key).and_then(|v| v.as_i64()).unwrap_or(default)`
  unfoldable pub i64_field : Value → String → ℤ → ℤ
  i64_field payload k default = elim (get payload k) [
    | none ↦ default
    | some v ↦ elim (as_i64 v) [ none ↦ default | some z ↦ z ]
  ]

  unfoldable pub str_field : Value → String → Option String
  str_field payload k = elim (get payload k) [ none ↦ none | some v ↦ as_str v ]

  abbrev pub no_motion : ℤ × ℤ
  no_motion = (pos 0, pos 0)

  unfoldable pub apply_switch : ℕ → Value → Client → Client
  unfolding i64_field
  apply_switch now payload c =
      let s = c.state in
      record c {
        state = record s {
          active = true;
          switch_time = now;
          edge_pushing = false;
          mouse_x = as_i32 (i64_field payload "entry_x" (quot s.config.screen_width (pos 2)));
          mouse_y = as_i32 (i64_field payload "entry_y" (quot s.config.screen_height (pos 2)));
        };
      }

  -- `clipboard.set(content)`: the new manager, and the write that it makes.
  unfoldable pub set_clipboard : String → Client → Client
  set_clipboard content c =
      let (clipboard, written) = Clipboard.set c.clipboard content in
      record c {
        clipboard = clipboard;
        effects = elim written [ none ↦ c.effects | some text ↦ c.effects ++ wl_copy text ∷ [] ];
      }

  unfoldable pub apply_clipboard : Option String → Client → Client
  unfolding set_clipboard
  apply_clipboard none c = c
  apply_clipboard (some content) c =
      if c.state.config.clipboard_sharing then set_clipboard content c else c

  -- The arms below `_ if !state.active`.
  unfoldable pub apply_input : MessageType → Value → Client → (ℤ × ℤ) × Client
  unfolding i64_field
  apply_input key_event payload c = (
    no_motion,
    then_emit
        (inject_key c.injector (as_u16 (i64_field payload "code" (pos 0)))
          (as_i32 (i64_field payload "value" (pos 0))))
        c,
  )
  apply_input mouse_move payload c =
      ((as_i32 (i64_field payload "dx" (pos 0)), as_i32 (i64_field payload "dy" (pos 0))), c)
  apply_input mouse_button payload c = (
    no_motion,
    then_emit
        (inject_mouse_button c.injector (as_u16 (i64_field payload "button" (pos 0)))
          (as_i32 (i64_field payload "value" (pos 0))))
        c,
  )
  apply_input mouse_scroll payload c = (
    no_motion,
    then_emit
        (inject_mouse_scroll c.injector (as_i32 (i64_field payload "dx" (pos 0)))
          (as_i32 (i64_field payload "dy" (pos 0))))
        c,
  )
  apply_input _ payload c = (no_motion, c)

  unfoldable pub apply_type : ℕ → MessageType → Value → Client → (ℤ × ℤ) × Client
  unfolding apply_switch apply_clipboard apply_input str_field
  apply_type now switch_to_client payload c = (no_motion, apply_switch now payload c)
  apply_type now clipboard_data payload c =
      (no_motion, apply_clipboard (str_field payload "content") c)
  apply_type now t payload c = if c.state.active then apply_input t payload c else (no_motion, c)

  -- `now` is the time at which the message is applied.
  unfoldable pub apply_message : ℕ → Message Value → Client → (ℤ × ℤ) × Client
  unfolding apply_type
  apply_message now msg c = apply_type now msg.msg_type msg.payload c
