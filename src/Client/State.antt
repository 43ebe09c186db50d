-- ===== src/Client/State.antt =====
-- src/client.rs: `ClientState` and `check_exit_edge`.
use bluecross.Base.{
  ℕ, ◌-◌, ◌*◌, Bool, true, false, Option, none, some, ℤ, pos, ltb, leb, ltb_ℤ, leb_ℤ, ◌&&◌, ◌||◌,
  not, if◌then◌else◌,
}
use bluecross.Base.Words.{sub_i32}
use bluecross.Config.{ScreenPosition, left, right, top, bottom, ClientConfig}

-- `Instant`s are nanoseconds of a monotonic clock.
pub record ClientState : Type 0 where
  pub config : ClientConfig
  pub position : Option ScreenPosition
  pub server_width : ℤ
  pub server_height : ℤ
  pub active : Bool
  pub mouse_x : ℤ
  pub mouse_y : ℤ
  pub switch_time : ℕ
  pub edge_push_start : ℕ
  pub edge_pushing : Bool

unfoldable pub new : ClientConfig → ℕ → ℕ → ClientState
new config switch_now push_now = record {
  config = config;
  position = none;
  server_width = pos 1920;
  server_height = pos 1080;
  active = false;
  mouse_x = pos 0;
  mouse_y = pos 0;
  switch_time = switch_now;
  edge_push_start = push_now;
  edge_pushing = false;
}

-- `Duration::from_millis`
abbrev pub millis : ℕ → ℕ
millis n = n * 1_000_000

-- The three times at which a call of `check_exit_edge` may read the clock, in that order.
pub record Readings : Type 0 where
  pub at_grace : ℕ
  pub at_start : ℕ
  pub at_elapsed : ℕ

pub record EdgeTest : Type 0 where
  pub at_edge : Bool
  pub pushing_exit : Bool
  pub moving_away : Bool

unfoldable pub edge_test : ClientConfig → ScreenPosition → ℤ → ℤ → ℤ → ℤ → EdgeTest
edge_test c left x y dx dy = record {
  at_edge = leb_ℤ (sub_i32 c.screen_width (pos 1)) x;
  pushing_exit = ltb_ℤ (pos 0) dx;
  moving_away = ltb_ℤ dx (pos 0);
}
edge_test c right x y dx dy = record {
  at_edge = leb_ℤ x (pos 0);
  pushing_exit = ltb_ℤ dx (pos 0);
  moving_away = ltb_ℤ (pos 0) dx;
}
edge_test c top x y dx dy = record {
  at_edge = leb_ℤ (sub_i32 c.screen_height (pos 1)) y;
  pushing_exit = ltb_ℤ (pos 0) dy;
  moving_away = ltb_ℤ dy (pos 0);
}
edge_test c bottom x y dx dy = record {
  at_edge = leb_ℤ y (pos 0);
  pushing_exit = ltb_ℤ dy (pos 0);
  moving_away = ltb_ℤ (pos 0) dy;
}

-- The timer of a push against the edge: started unless it runs.
abbrev pub start_push : ℕ → ClientState → ClientState
start_push now s =
    if s.edge_pushing then s else record s { edge_push_start = now; edge_pushing = true }

abbrev pub end_push : ℕ → ClientState → Bool × ClientState
end_push now s =
    if leb (millis 300) (now - s.edge_push_start)
    then (true, record s { edge_pushing = false })
    else (false, s)

unfoldable pub push_edge : Readings → EdgeTest → ClientState → Bool × ClientState
push_edge t e s =
    if e.at_edge && e.pushing_exit
    then end_push t.at_elapsed (start_push t.at_start s)
    else if e.moving_away || not e.at_edge
    then (false, record s { edge_pushing = false })
    else (false, s)

-- The first part is the answer: give control back.
unfoldable pub check_exit_edge : Readings → ℤ → ℤ → ℤ → ℤ → ClientState → Bool × ClientState
unfolding push_edge
check_exit_edge t x y dx dy s = elim s.position [
  | none ↦ (false, s)
  | some position ↦
      if ltb (t.at_grace - s.switch_time) (millis 200)
      then (false, s)
      else push_edge t (edge_test s.config position x y dx dy) s
]
