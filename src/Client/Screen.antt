-- ===== src/Client/Screen.antt =====
-- src/client.rs: the cursor and the client's screen.
use bluecross.Base.{◌-◌, negsuc, ◌≡◌, refl, ◌∙◌, Bool, true, false, ℤ, pos, ◌≤ℤ◌, ◌<ℤ◌, arith, done}
use bluecross.Base.Words.{
  InI32, add_i32, sub_i32, clamp, clamp_to, clamp_to-bounds, clamp-ordered, sub_i32-one,
}
use bluecross.Json.{Json}
use bluecross.Client.State.{ClientState, Readings, check_exit_edge, push_edge}
use bluecross.Client.Apply.{Client}
use bluecross.Client.Session.{Round, apply_motion, finish_motion}
use bluecross.Server.Invariant.{IsScreen}
use bluecross.Client.Release.{client_of}

module _ (j : Json) where
  -- The cursor lies on the client's screen.
  pub record IsOnScreen (c : Client j) : Type 0 where
    pub x_low : pos 0 ≤ℤ c.state.mouse_x
    pub x_high : c.state.mouse_x <ℤ c.state.config.screen_width
    pub y_low : pos 0 ≤ℤ c.state.mouse_y
    pub y_high : c.state.mouse_y <ℤ c.state.config.screen_height

  clamp_on_screen :
      (size x : ℤ)
      → pos 0 <ℤ size
      → InI32 size
      → (z : ℤ) × (clamp (pos 0) (sub_i32 size (pos 1)) x ≡ done z) × (pos 0 ≤ℤ z) × (z <ℤ size)
  clamp_on_screen (negsuc n) x h k = absurd (omega arith)
  clamp_on_screen (pos n) x h k =
      let top = pos (n - 1) in
      let (low, high) = clamp_to-bounds (pos 0) top x (omega arith) in
      (
        clamp_to (pos 0) top x,
        rw (sub_i32-one (pos n) h k) (clamp-ordered (pos 0) top x (omega arith)),
        low,
        omega arith,
      )

  check_exit_edge-mouse :
      (t : Readings) (x y dx dy : ℤ) (s : ClientState)
      → let q = (check_exit_edge t x y dx dy s).1 in
        (q.mouse_x ≡ s.mouse_x) × (q.mouse_y ≡ s.mouse_y) × (q.config ≡ s.config)
  unfolding check_exit_edge push_edge
  check_exit_edge-mouse t x y dx dy s = ground arith

  finish_motion-mouse :
      (alive : Bool) (total : ℤ × ℤ) (q : Bool × ClientState) (c : Client j)
      → let d = client_of j (finish_motion j alive total q c) in
        (d.state.mouse_x ≡ q.1.mouse_x)
        × (d.state.mouse_y ≡ q.1.mouse_y)
        × (d.state.config ≡ q.1.config)
  unfolding finish_motion
  finish_motion-mouse true total (true, s) c = (refl, refl, refl)
  finish_motion-mouse false total (true, s) c = (refl, refl, refl)
  finish_motion-mouse alive total (false, s) c = (refl, refl, refl)

  -- Applying motion never panics on a client with a valid screen, and leaves the cursor on it.
  pub apply_motion-IsOnScreen :
      (alive : Bool) (t : Readings) (total : ℤ × ℤ) (c : Client j)
      → IsScreen c.state.config.screen_width c.state.config.screen_height
      → (r : Round j) × (apply_motion j alive t total c ≡ done r) × IsOnScreen (client_of j r)
  unfolding apply_motion
  apply_motion-IsOnScreen alive t total c h =
      let s = c.state in
      let (x, d₁, x_low, x_high) =
        clamp_on_screen s.config.screen_width (add_i32 s.mouse_x total.0) h.wide h.width_i32 in
      let (y, d₂, y_low, y_high) =
        clamp_on_screen s.config.screen_height (add_i32 s.mouse_y total.1) h.high h.height_i32 in
      let u = record s { mouse_x = x; mouse_y = y } in
      let q = check_exit_edge t x y total.0 total.1 u in
      let (a₁, a₂, a₃) = check_exit_edge-mouse t x y total.0 total.1 u in
      let (b₁, b₂, b₃) = finish_motion-mouse alive total q c in
      (
        finish_motion j alive total q c,
        rw (d₁, d₂),
        record {
          x_low = rw (b₁ ∙ a₁) x_low;
          x_high = rw (b₁ ∙ a₁, b₃ ∙ a₃) x_high;
          y_low = rw (b₂ ∙ a₂) y_low;
          y_high = rw (b₂ ∙ a₂, b₃ ∙ a₃) y_high;
        },
      )
