-- ===== src/Server/Edge/Entry.antt =====
-- src/server.rs: `check_edge` against a description of the edges by position.
use bluecross.Base.{
  ℕ, ◌*◌, ◌/◌, ◌<◌, ◌≡◌, refl, Bool, Option, none, some, List, [], ◌∷◌, String, ℤ, pos, negsuc,
  leb_ℤ, ◌≤ℤ◌, ◌<ℤ◌, arith, inl, inr, Bool-cases, done, if◌then◌else◌, ◌*ℤ◌,
}
use bluecross.Base.Words.{quot, div_i32-pos, sub_i32, mul_i32, as_i32-fits, InI32}
use bluecross.Base.Maps.{lookup}
use text.Mathlib.Text.{◌==◌ as str_eq}
use text.Mathlib.TextPositions.{eq_refl}
use bluecross.Json.{Json}
use bluecross.Config.{ScreenPosition, left, right, top, bottom, ServerConfig}
use bluecross.Server.State.{ClientInfo, Server}
use bluecross.Server.Edge.{Entry, entry_offset, try_edge, check_clients, check_edge}

-- The cursor is at the edge behind which a client at this position lies.
abbrev pub touches : ServerConfig → ℤ → ℤ → ScreenPosition → Bool
touches c x y left = leb_ℤ x c.edge_threshold
touches c x y right = leb_ℤ (sub_i32 (sub_i32 c.screen_width c.edge_threshold) (pos 1)) x
touches c x y top = leb_ℤ y c.edge_threshold
touches c x y bottom = leb_ℤ (sub_i32 (sub_i32 c.screen_height c.edge_threshold) (pos 1)) y

-- A coordinate on the server's side `size` carried over to the client's side.
abbrev pub scale : ℤ → ℤ → ℤ → ℤ
scale z client_size size = quot (mul_i32 z client_size) size

-- The cursor enters `entry_offset` pixels inside the facing edge, at the scaled height or width.
abbrev pub entry_point : ServerConfig → ℤ → ℤ → ClientInfo → ScreenPosition → ℤ × ℤ
entry_point c x y i left =
    (sub_i32 i.screen_width entry_offset, scale y i.screen_height c.screen_height)
entry_point c x y i right = (entry_offset, scale y i.screen_height c.screen_height)
entry_point c x y i top =
    (scale x i.screen_width c.screen_width, sub_i32 i.screen_height entry_offset)
entry_point c x y i bottom = (scale x i.screen_width c.screen_width, entry_offset)

abbrev pub entry_of : ServerConfig → ℤ → ℤ → String → ClientInfo → Option Entry
entry_of c x y name i =
    if touches c x y i.position
    then (let p = entry_point c x y i i.position in some (name, p.0, p.1))
    else none

abbrev pub or_entry : Option Entry → Option Entry → Option Entry
or_entry none later = later
or_entry (some entry) later = some entry

-- The entry of the first client whose edge is touched.
abbrev pub first_entry : ServerConfig → ℤ → ℤ → List (String × ClientInfo) → Option Entry
first_entry c x y [] = none
first_entry c x y ((name, i) ∷ more) = or_entry (entry_of c x y name i) (first_entry c x y more)

-- The screen of a loaded configuration.
pub record HasScreen (c : ServerConfig) : Type 0 where
  pub wide : pos 0 <ℤ c.screen_width
  pub high : pos 0 <ℤ c.screen_height

abbrev by_position : ServerConfig → ℤ → ℤ → String → ClientInfo → ScreenPosition → Option Entry
by_position c x y name i p =
    if touches c x y p then (let q = entry_point c x y i p in some (name, q.0, q.1)) else none

try_edge-by_position :
    (c : ServerConfig) (x y : ℤ) (name : String) (i : ClientInfo) (p : ScreenPosition)
    → HasScreen c
    → try_edge c x y name i p ≡ done (by_position c x y name i p)
unfolding try_edge
try_edge-by_position c x y name i left h =
    rw (div_i32-pos (mul_i32 y i.screen_height) c.screen_height h.high) (ground arith)
try_edge-by_position c x y name i right h =
    rw (div_i32-pos (mul_i32 y i.screen_height) c.screen_height h.high) (ground arith)
try_edge-by_position c x y name i top h =
    rw (div_i32-pos (mul_i32 x i.screen_width) c.screen_width h.wide) (ground arith)
try_edge-by_position c x y name i bottom h =
    rw (div_i32-pos (mul_i32 x i.screen_width) c.screen_width h.wide) (ground arith)

pub check_clients-first_entry :
    (c : ServerConfig) (x y : ℤ) (clients : List (String × ClientInfo))
    → HasScreen c
    → check_clients c x y clients ≡ done (first_entry c x y clients)
unfolding check_clients
check_clients-first_entry c x y [] h = refl
check_clients-first_entry c x y ((name, i) ∷ more) h =
    rw (try_edge-by_position c x y name i i.position h)
      (ground (arith, check_clients-first_entry c x y more h))

-- On a server with a screen `check_edge` does not panic, and finds the first client in the map's
-- order whose edge the cursor touches, with the entry point that the description gives for it.
pub check_edge-first_entry :
    (j : Json) (s : Server j) (x y : ℤ)
    → HasScreen s.config
    → check_edge j s x y ≡ done (first_entry s.config x y s.clients)
unfolding check_edge
check_edge-first_entry j s x y h = check_clients-first_entry s.config x y s.clients h

abbrev pub IsFoundIn : Option Entry → List (String × ClientInfo) → Type 0
IsFoundIn none clients = Unit
IsFoundIn (some entry) clients = (info : ClientInfo) × (lookup entry.0 clients ≡ some info)

IsFoundIn-cons :
    (found : Option Entry) (name : String) (i : ClientInfo) (more : List (String × ClientInfo))
    → IsFoundIn found more
    → IsFoundIn found ((name, i) ∷ more)
unfolding lookup
IsFoundIn-cons none name i more h = tt
IsFoundIn-cons (some (n, x, y)) name i more (info, h) = elim (Bool-cases (str_eq name n)) [
  | inl e ↦ (i, rw e)
  | inr e ↦ (info, rw e h)
]

-- The client that was found is registered.
pub first_entry-IsFoundIn :
    (c : ServerConfig) (x y : ℤ) (clients : List (String × ClientInfo))
    → IsFoundIn (first_entry c x y clients) clients
first_entry-IsFoundIn c x y [] = tt
first_entry-IsFoundIn c x y ((name, i) ∷ more) = elim (Bool-cases (touches c x y i.position)) [
  | inl e ↦ rw e (i, unfold lookup in rw (eq_refl name))
  | inr e ↦
      rw e (IsFoundIn-cons (first_entry c x y more) name i more (first_entry-IsFoundIn c x y more))
]

quotient_below : (a b s : ℕ) → a < s → 0 < b → a * b / s < b
quotient_below a b s h k = grind arith

product_pos : (a b : ℕ) → pos a *ℤ pos b ≡ pos (a * b)
unfolding ◌*ℤ◌
product_pos a b = ground arith

-- A coordinate on the server's screen is carried over to one on the client's screen, as long as
-- the product of the coordinate and the client's size is an `i32`.
pub scale-bounds :
    (z client_size size : ℤ)
    → pos 0 ≤ℤ z
    → z <ℤ size
    → pos 0 <ℤ client_size
    → InI32 (z *ℤ client_size)
    → (pos 0 ≤ℤ scale z client_size size) × (scale z client_size size <ℤ client_size)
unfolding mul_i32
scale-bounds (pos a) (pos b) (pos s) h k l m =
    rw (as_i32-fits (pos a *ℤ pos b) m, product_pos a b) (ground (arith, quotient_below a b s))
scale-bounds (negsuc a) b s h k l m = absurd (omega arith)
scale-bounds (pos a) (negsuc b) s h k l m = absurd (omega arith)
scale-bounds (pos a) (pos b) (negsuc s) h k l m = absurd (omega arith)
