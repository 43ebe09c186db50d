-- ===== src/Config/Raw.antt =====
-- src/config.rs: the raw configuration, from the file to the checks. `serde_json` is outside: what it
-- finds in a text is an argument, with each field that the text does not give left out.
pub mod Section
use bluecross.Base.{
  ℕ, Bool, true, false, Option, none, some, List, [], String, ℤ, pos, Result, ok, err, try,
}
use bluecross.Config.{
  RawServerConfig, RawClientConfig, ServerConfig, ClientConfig, ConfigError, load_server_config,
  load_client_config,
}

pub record ServerFields : Type 0 where
  pub host : Option String
  pub port : Option ℕ
  pub screen_width : Option ℤ
  pub screen_height : Option ℤ
  pub edge_threshold : Option ℤ
  pub clipboard_sharing : Option Bool
  pub psk : Option String
  pub clients : Option (List (String × String))

pub record ClientFields : Type 0 where
  pub server_host : Option String
  pub server_port : Option ℕ
  pub screen_width : Option ℤ
  pub screen_height : Option ℤ
  pub name : Option String
  pub clipboard_sharing : Option Bool
  pub psk : Option String

-- The two sections.
pub record RawConfig : Type 0 where
  pub server : Option ServerFields
  pub client : Option ClientFields

abbrev pub or_default {ℓ} : {A : Type ℓ} → A → Option A → A
or_default default none = default
or_default default (some a) = a

abbrev pub default_host : String
default_host = "127.0.0.1"

abbrev pub default_localhost : String
default_localhost = "127.0.0.1"

abbrev pub default_port : ℕ
default_port = 12345

abbrev pub default_edge_threshold : ℤ
default_edge_threshold = pos 5

abbrev pub default_true : Bool
default_true = true

abbrev pub default_client_name : String
default_client_name = "client1"

-- The defaults of the fields, from the attributes `serde(default)`.
unfoldable pub with_defaults : ServerFields → RawServerConfig
with_defaults f = record {
  host = or_default default_host f.host;
  port = or_default default_port f.port;
  screen_width = or_default (pos 0) f.screen_width;
  screen_height = or_default (pos 0) f.screen_height;
  edge_threshold = or_default default_edge_threshold f.edge_threshold;
  clipboard_sharing = or_default default_true f.clipboard_sharing;
  psk = or_default "" f.psk;
  clients = or_default [] f.clients;
}

unfoldable pub with_client_defaults : ClientFields → RawClientConfig
with_client_defaults f = record {
  server_host = or_default default_localhost f.server_host;
  server_port = or_default default_port f.server_port;
  screen_width = or_default (pos 0) f.screen_width;
  screen_height = or_default (pos 0) f.screen_height;
  name = or_default default_client_name f.name;
  clipboard_sharing = or_default default_true f.clipboard_sharing;
  psk = or_default "" f.psk;
}

-- The derived `Default`, which does not know of the attributes.
unfoldable pub derived_server : RawServerConfig
derived_server = record {
  host = "";
  port = 0;
  screen_width = pos 0;
  screen_height = pos 0;
  edge_threshold = pos 0;
  clipboard_sharing = false;
  psk = "";
  clients = [];
}

unfoldable pub derived_client : RawClientConfig
derived_client = record {
  server_host = "";
  server_port = 0;
  screen_width = pos 0;
  screen_height = pos 0;
  name = "";
  clipboard_sharing = false;
  psk = "";
}

-- What stands at the path, and what the parser makes of it.
pub data File : Type 0 where
  absent unreadable malformed : File
  parsed : RawConfig → File

pub data LoadError : Type 0 where
  not_read not_parsed : LoadError
  refused : ConfigError → LoadError

unfoldable pub load_raw : File → Result LoadError RawConfig
load_raw absent = ok (record { server = none; client = none })
load_raw unreadable = err not_read
load_raw malformed = err not_parsed
load_raw (parsed raw) = ok raw

abbrev pub checked : {A : Type 0} → Result ConfigError A → Result LoadError A
checked (ok a) = ok a
checked (err e) = err (refused e)

unfoldable pub server_section : Option ServerFields → RawServerConfig
unfolding with_defaults derived_server
server_section none = derived_server
server_section (some f) = with_defaults f

unfoldable pub client_section : Option ClientFields → RawClientConfig
unfolding with_client_defaults derived_client
client_section none = derived_client
client_section (some f) = with_client_defaults f

-- `load_server_config` and `load_client_config` from the file on.
unfoldable pub load_server : File → ℤ × ℤ → Result LoadError ServerConfig
unfolding load_raw load_server_config server_section
load_server file detected =
    try (load_raw file) λ raw. checked (load_server_config (server_section raw.server) detected)

unfoldable pub load_client : File → ℤ × ℤ → Result LoadError ClientConfig
unfolding load_raw load_client_config client_section
load_client file detected =
    try (load_raw file) λ raw. checked (load_client_config (client_section raw.client) detected)
