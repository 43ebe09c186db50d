-- ===== src/Server/Invariant.antt =====
-- src/server.rs: what holds of the server's state between two events.
pub mod Parts
pub mod Moves
pub mod Loop
use bluecross.Base.{
  ℕ, suc, ◌≤◌, ◌≡◌, refl, Bool, true, false, Option, none, some, List, String, ℤ, pos, ◌≤ℤ◌, ◌<ℤ◌,
  arith, ◌<◌,
}
use bluecross.Base.Words.{InI32}
use bluecross.Base.Maps.{lookup}
use bluecross.Json.{Json}
use bluecross.Server.State.{ClientInfo, Server}

abbrev pub is_some : Option String → Bool
is_some none = false
is_some (some name) = true

-- No motion is pending while no client is active.
abbrev pub AtRest : Option String → ℤ → ℤ → Type 0
AtRest none dx dy = (dx ≡ pos 0) × (dy ≡ pos 0)
AtRest (some name) dx dy = Unit

-- The active client is registered.
abbrev pub IsKnown : Option String → List (String × ClientInfo) → Type 0
IsKnown none clients = Unit
IsKnown (some name) clients = (info : ClientInfo) × (lookup name clients ≡ some info)

-- A screen with at least one pixel, whose sides are `i32`s.
pub record IsScreen (width height : ℤ) : Type 0 where
  pub wide : pos 0 <ℤ width
  pub high : pos 0 <ℤ height
  pub width_i32 : InI32 width
  pub height_i32 : InI32 height

module _ {j : Json} where
  -- The devices are grabbed, and the clipboard is paused, exactly while a client is active; the
  -- cursor is on the screen.
  pub record IsCoherent (s : Server j) : Type 0 where
    pub screen : IsScreen s.config.screen_width s.config.screen_height
    pub grabbed : s.grabbed ≡ is_some s.active_client
    pub paused : s.clipboard_paused ≡ is_some s.active_client
    pub x_low : pos 0 ≤ℤ s.mouse_x
    pub x_high : s.mouse_x <ℤ s.config.screen_width
    pub y_low : pos 0 ≤ℤ s.mouse_y
    pub y_high : s.mouse_y <ℤ s.config.screen_height
    pub at_rest : AtRest s.active_client s.pending_dx s.pending_dy

  pub record Inv (s : Server j) : Type 0 where
    pub coherent : IsCoherent s
    pub known : IsKnown s.active_client s.clients
