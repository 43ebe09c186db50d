-- ===== src/Client/Release.antt =====
-- src/client.rs: the messages that give control back.
use bluecross.Base.{
  ℕ, suc, ◌+◌, ◌≡◌, refl, ◌∙◌, Bool, true, false, Option, none, some, List, [], ◌∷◌, ◌++◌, map,
  String, ℤ, arith, if◌then◌else◌,
}
use bluecross.Base.Words.{add_i32}
use bluecross.Json.{Json}
use bluecross.Protocol.{
  Message, MessageType, key_event, mouse_button, mouse_scroll, switch_to_client, switch_to_server,
  clipboard_data,
}
use bluecross.Clipboard
use bluecross.Inject.{Emission}
use bluecross.Client.Apply.{
  Effect, emit, wl_copy, send, Client, then_emit, apply_message, apply_type, apply_input,
  apply_switch, apply_clipboard, set_clipboard, str_field,
}
use bluecross.Client.Session.{Round, running, stopped, failed, drain_queue}

abbrev pub is_switch : MessageType → Bool
is_switch switch_to_server = true
is_switch _ = false

module _ (j : Json) where
  abbrev pub release : Effect j → ℕ
  release (send msg) = if is_switch msg.msg_type then 1 else 0
  release _ = 0

  -- How often control was given back.
  abbrev pub releases : List (Effect j) → ℕ
  releases [] = 0
  releases (e ∷ es) = release e + releases es

  pub releases-append : (xs ys : List (Effect j)) → releases (xs ++ ys) ≡ releases xs + releases ys
  releases-append [] ys = omega arith
  releases-append (x ∷ xs) ys = omega (arith, releases-append xs ys)

  releases-emit : (es : List Emission) → releases (map emit es) ≡ 0
  releases-emit [] = refl
  releases-emit (e ∷ es) = omega (arith, releases-emit es)

  abbrev pub client_of : Round j → Client j
  client_of (running c) = c
  client_of (stopped c) = c
  client_of (failed c) = c

  -- Nothing is given back, an active client stays active, and the configuration stays as it is.
  pub record Keeps (c d : Client j) : Type 0 where
    pub quiet : releases d.effects ≡ releases c.effects
    pub active : c.state.active ≡ true → d.state.active ≡ true
    pub config : d.state.config ≡ c.state.config

  -- Control is given back once, and the client is then inactive.
  pub record Releases (c d : Client j) : Type 0 where
    pub once : releases d.effects ≡ suc (releases c.effects)
    pub inactive : d.state.active ≡ false
    pub config : d.state.config ≡ c.state.config

  pub Keeps-refl : (c : Client j) → Keeps c c
  Keeps-refl c = record { quiet = refl; active = λ h. h; config = refl }

  pub Keeps-trans : (c d e : Client j) → Keeps c d → Keeps d e → Keeps c e
  Keeps-trans c d e h k = record {
    quiet = k.quiet ∙ h.quiet;
    active = λ a. k.active (h.active a);
    config = k.config ∙ h.config;
  }

  pub then_emit-Keeps : (es : List Emission) (c : Client j) → Keeps c (then_emit j es c)
  then_emit-Keeps es c = record {
    quiet = omega (arith, releases-append c.effects (map emit es), releases-emit es);
    active = λ h. h;
    config = refl;
  }

  apply_input-Keeps :
      (t : MessageType) (payload : j.Value) (c : Client j) → Keeps c (apply_input j t payload c).1
  unfolding apply_input
  apply_input-Keeps key_event payload c = then_emit-Keeps _ c
  apply_input-Keeps mouse_button payload c = then_emit-Keeps _ c
  apply_input-Keeps mouse_scroll payload c = then_emit-Keeps _ c
  apply_input-Keeps _ payload c = Keeps-refl c

  apply_clipboard-Keeps :
      (content : Option String) (c : Client j) → Keeps c (apply_clipboard j content c)
  unfolding apply_clipboard set_clipboard Clipboard.set
  apply_clipboard-Keeps none c = Keeps-refl c
  apply_clipboard-Keeps (some content) c = record {
    quiet = ground (arith, releases-append c.effects (wl_copy content ∷ []));
    active = λ h. ground arith;
    config = ground arith;
  }

  apply_switch-Keeps :
      (now : ℕ) (payload : j.Value) (c : Client j) → Keeps c (apply_switch j now payload c)
  unfolding apply_switch
  apply_switch-Keeps now payload c = record { quiet = refl; active = λ h. refl; config = refl }

  if_active-Keeps :
      (b : Bool) (r : (ℤ × ℤ) × Client j) (m : ℤ × ℤ) (c : Client j)
      → Keeps c r.1
      → Keeps c (if b then r else (m, c)).1
  if_active-Keeps true r m c h = h
  if_active-Keeps false r m c h = Keeps-refl c

  pub apply_type-Keeps :
      (now : ℕ) (t : MessageType) (payload : j.Value) (c : Client j)
      → Keeps c (apply_type j now t payload c).1
  unfolding apply_type
  apply_type-Keeps now switch_to_client payload c = apply_switch-Keeps now payload c
  apply_type-Keeps now clipboard_data payload c =
      apply_clipboard-Keeps (str_field j payload "content") c
  apply_type-Keeps now t payload c =
      if_active-Keeps c.state.active _ _ c (apply_input-Keeps t payload c)

  pub drain_queue-Keeps :
      (queued : List (ℕ × Message j.Value)) (total : ℤ × ℤ) (c : Client j)
      → Keeps c (drain_queue j queued total c).1
  unfolding drain_queue apply_message
  drain_queue-Keeps [] total c = Keeps-refl c
  drain_queue-Keeps ((now, msg) ∷ more) total c =
      let r = apply_type j now msg.msg_type msg.payload c in
      Keeps-trans c r.1 _ (apply_type-Keeps now msg.msg_type msg.payload c)
        (drain_queue-Keeps more (add_i32 total.0 r.0.0, add_i32 total.1 r.0.1) r.1)
