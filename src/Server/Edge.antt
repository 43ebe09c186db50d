-- ===== src/Server/Edge.antt =====
-- src/server.rs: `check_edge`, which finds the client behind the edge that the cursor touches.
pub mod Entry
pub mod Order
use bluecross.Base.{
  Option, none, some, List, [], ◌∷◌, String, ℤ, pos, leb_ℤ, Outcome, done, and_then, if◌then◌else◌,
}
use bluecross.Base.Words.{sub_i32, mul_i32, div_i32}
use bluecross.Json.{Json}
use bluecross.Config.{ScreenPosition, left, right, top, bottom, ServerConfig}
use bluecross.Server.State.{ClientInfo, Server}

abbrev pub entry_offset : ℤ
entry_offset = pos 100

-- A client's name and the point where the cursor enters its screen.
abbrev pub Entry : Type 0
Entry = String × ℤ × ℤ

-- The arms of the `match` of the loop; `none` goes on with the next client.
unfoldable pub try_edge :
    ServerConfig → ℤ → ℤ → String → ClientInfo → ScreenPosition → Outcome (Option Entry)
try_edge config x y name client left =
    if leb_ℤ x config.edge_threshold
    then and_then (div_i32 (mul_i32 y client.screen_height) config.screen_height)
        (λ entry_y. done (some (name, sub_i32 client.screen_width entry_offset, entry_y)))
    else done none
try_edge config x y name client right =
    if leb_ℤ (sub_i32 (sub_i32 config.screen_width config.edge_threshold) (pos 1)) x
    then and_then (div_i32 (mul_i32 y client.screen_height) config.screen_height)
        (λ entry_y. done (some (name, entry_offset, entry_y)))
    else done none
try_edge config x y name client top =
    if leb_ℤ y config.edge_threshold
    then and_then (div_i32 (mul_i32 x client.screen_width) config.screen_width)
        (λ entry_x. done (some (name, entry_x, sub_i32 client.screen_height entry_offset)))
    else done none
try_edge config x y name client bottom =
    if leb_ℤ (sub_i32 (sub_i32 config.screen_height config.edge_threshold) (pos 1)) y
    then and_then (div_i32 (mul_i32 x client.screen_width) config.screen_width)
        (λ entry_x. done (some (name, entry_x, entry_offset)))
    else done none

unfoldable pub check_clients :
    ServerConfig → ℤ → ℤ → List (String × ClientInfo) → Outcome (Option Entry)
check_clients config x y [] = done none
check_clients config x y ((name, client) ∷ more) =
    and_then (try_edge config x y name client client.position) (λ found. elim found [
      | none ↦ check_clients config x y more
      | some entry ↦ done (some entry)
    ])

module _ (j : Json) where
  unfoldable pub check_edge : Server j → ℤ → ℤ → Outcome (Option Entry)
  unfolding check_clients try_edge
  check_edge s x y = check_clients s.config x y s.clients
