-- ===== src/Config.antt =====
-- src/config.rs: where a client's screen lies, the validated configurations, and how the raw
-- configuration is checked. `serde_json` reads the file: the raw configuration is an argument, as
-- is the result of the screen detection of src/screen.rs.
pub mod Position
pub mod Load
pub mod Raw
use Prim.Native.String.{len}
use text.Mathlib.Text.{◌==◌ as str_eq}
use bluecross.Base.{
  ℕ, Bool, Option, none, some, List, [], ◌∷◌, String, ℤ, pos, leb_ℤ, eqb_ℤ, ◌||◌, ltb, Result, ok,
  err, try, if◌then◌else◌,
}
use bluecross.Base.Text.{trim, is_empty}

pub data ScreenPosition : Type 0 where
  left right top bottom : ScreenPosition

unfoldable pub from_str : String → Option ScreenPosition
from_str s =
    if str_eq s "left"
    then some left
    else if str_eq s "right"
    then some right
    else if str_eq s "top"
    then some top
    else if str_eq s "bottom"
    then some bottom
    else none

unfoldable pub as_str : ScreenPosition → String
as_str left = "left"
as_str right = "right"
as_str top = "top"
as_str bottom = "bottom"

pub record ServerConfig : Type 0 where
  pub host : String
  pub port : ℕ
  pub screen_width : ℤ
  pub screen_height : ℤ
  pub edge_threshold : ℤ
  pub clipboard_sharing : Bool
  pub psk : String
  pub clients : List (String × ScreenPosition)

pub record ClientConfig : Type 0 where
  pub server_host : String
  pub server_port : ℕ
  pub screen_width : ℤ
  pub screen_height : ℤ
  pub name : String
  pub clipboard_sharing : Bool
  pub psk : String

pub record RawServerConfig : Type 0 where
  pub host : String
  pub port : ℕ
  pub screen_width : ℤ
  pub screen_height : ℤ
  pub edge_threshold : ℤ
  pub clipboard_sharing : Bool
  pub psk : String
  pub clients : List (String × String)

pub record RawClientConfig : Type 0 where
  pub server_host : String
  pub server_port : ℕ
  pub screen_width : ℤ
  pub screen_height : ℤ
  pub name : String
  pub clipboard_sharing : Bool
  pub psk : String

pub data ConfigError : Type 0 where
  no_psk psk_too_short : ConfigError
  invalid_dimensions : ℤ → ℤ → ConfigError
  invalid_position : String → String → ConfigError

abbrev pub min_psk_len : ℕ
min_psk_len = 16

unfoldable pub validate_psk : String → Result ConfigError (Unit {0})
validate_psk psk =
    if is_empty (trim psk)
    then err no_psk
    else if ltb (len (trim psk)) min_psk_len
    then err psk_too_short
    else ok tt

-- `detected` is what `detect_screen_size` returns; it is used for a size that is zero.
abbrev pub fill : ℤ → ℤ → ℤ
fill size detected = if eqb_ℤ size (pos 0) then detected else size

unfoldable pub resolve_dimensions : ℤ → ℤ → ℤ × ℤ → Result ConfigError (ℤ × ℤ)
resolve_dimensions width height detected =
    let w = fill width detected.0 in
    let h = fill height detected.1 in
    if leb_ℤ w (pos 0) || leb_ℤ h (pos 0) then err (invalid_dimensions w h) else ok (w, h)

-- The loop over the clients, in the order of the map.
unfoldable pub resolve_clients :
    List (String × String) → Result ConfigError (List (String × ScreenPosition))
resolve_clients [] = ok []
resolve_clients ((name, pos_str) ∷ more) = elim (from_str pos_str) [
  | none ↦ err (invalid_position pos_str name)
  | some position ↦ try (resolve_clients more) (λ rest. ok ((name, position) ∷ rest))
]

-- The fields that `load_server_config` copies, and those that it has checked.
abbrev pub server_config : RawServerConfig → ℤ × ℤ → List (String × ScreenPosition) → ServerConfig
server_config s size clients = record {
  host = s.host;
  port = s.port;
  screen_width = size.0;
  screen_height = size.1;
  edge_threshold = s.edge_threshold;
  clipboard_sharing = s.clipboard_sharing;
  psk = trim s.psk;
  clients = clients;
}

unfoldable pub load_server_config : RawServerConfig → ℤ × ℤ → Result ConfigError ServerConfig
load_server_config s detected = try (validate_psk s.psk) λ _.
    try (resolve_dimensions s.screen_width s.screen_height detected)
      λ size. try (resolve_clients s.clients) λ clients. ok (server_config s size clients)

unfoldable pub load_client_config : RawClientConfig → ℤ × ℤ → Result ConfigError ClientConfig
load_client_config c detected = try (validate_psk c.psk) λ _.
    try (resolve_dimensions c.screen_width c.screen_height detected) λ size. ok (record {
      server_host = c.server_host;
      server_port = c.server_port;
      screen_width = size.0;
      screen_height = size.1;
      name = c.name;
      clipboard_sharing = c.clipboard_sharing;
      psk = trim c.psk;
    })
