-- ===== src/Config/Raw/Section.antt =====
-- src/config.rs: a configuration that loads comes from a file with its section.
use bluecross.Base.{
  ◌≡◌, refl, sym, ap, Option, none, some, List, String, ℤ, Result, ok, err, try-eq-ok,
}
use bluecross.Base.Text.{trim}
use bluecross.Config.{
  ServerConfig, RawServerConfig, ScreenPosition, ConfigError, no_psk, validate_psk,
  resolve_dimensions, resolve_clients, load_server_config, server_config,
}
use bluecross.Config.Load.{IsLoaded, load_server_config-IsLoaded}
use bluecross.Config.Raw.{
  ServerFields, RawConfig, File, absent, unreadable, malformed, parsed, load_raw, server_section,
  or_default, default_host, default_port, default_edge_threshold, default_true, with_defaults,
  derived_server, checked, load_server,
}

-- How the loaded configuration follows from the fields in the file.
pub record IsFilled (f : ServerFields) (detected : ℤ × ℤ) (c : ServerConfig) : Type 0 where
  pub host : c.host ≡ or_default default_host f.host
  pub port : c.port ≡ or_default default_port f.port
  pub edge_threshold : c.edge_threshold ≡ or_default default_edge_threshold f.edge_threshold
  pub clipboard_sharing : c.clipboard_sharing ≡ or_default default_true f.clipboard_sharing
  pub loaded : IsLoaded (with_defaults f) detected c

pub checked-eq-ok : {A : Type 0} (r : Result ConfigError A) (a : A) → checked r ≡ ok a → r ≡ ok a
checked-eq-ok (ok b) a h = cc
checked-eq-ok (err e) a h = cc

-- The derived defaults have no key, so they are refused.
derived_refused : (detected : ℤ × ℤ) → load_server_config derived_server detected ≡ err no_psk
unfolding load_server_config derived_server validate_psk trim
derived_refused detected = refl

copied :
    (raw : RawServerConfig) (detected : ℤ × ℤ) (c : ServerConfig)
    → load_server_config raw detected ≡ ok c
    → (size : ℤ × ℤ) × (clients : List (String × ScreenPosition)) × (server_config raw size clients
        ≡ c)
unfolding load_server_config
copied raw detected c h =
    let (u, key, h₁) = try-eq-ok (validate_psk raw.psk) _ h in
    let (size, dims, h₂) =
      try-eq-ok (resolve_dimensions raw.screen_width raw.screen_height detected) _ h₁ in
    let (clients, read, h₃) = try-eq-ok (resolve_clients raw.clients) _ h₂ in (size, clients, cc)

section-IsFilled :
    (section : Option ServerFields) (detected : ℤ × ℤ) (c : ServerConfig)
    → load_server_config (server_section section) detected ≡ ok c
    → (f : ServerFields) × (section ≡ some f) × IsFilled f detected c
unfolding server_section with_defaults
section-IsFilled none detected c h = absurd (cc (derived_refused detected, h))
section-IsFilled (some f) detected c h =
    let (size, clients, e) = copied (with_defaults f) detected c h in
    (
      f,
      refl,
      record {
        host = sym (ap (λ (d : ServerConfig). d.host) e);
        port = sym (ap (λ (d : ServerConfig). d.port) e);
        edge_threshold = sym (ap (λ (d : ServerConfig). d.edge_threshold) e);
        clipboard_sharing = sym (ap (λ (d : ServerConfig). d.clipboard_sharing) e);
        loaded = load_server_config-IsLoaded (with_defaults f) detected c h;
      },
    )

-- A server configuration loads only from a file that is there, is read and parses, with a section
-- "server": the derived defaults, which would listen on port 0, are never used. Each field is the one
-- in that section, or the default that its attribute names, and the rest is as
-- `load_server_config` checks it.
pub load_server-IsFilled :
    (file : File) (detected : ℤ × ℤ) (c : ServerConfig)
    → load_server file detected ≡ ok c
    → (raw : RawConfig) × (f : ServerFields) × (file ≡ parsed raw)
      × (raw.server ≡ some f)
      × IsFilled f detected c
unfolding load_server load_raw
load_server-IsFilled absent detected c h =
    let (f, e, filled) = section-IsFilled none detected c (checked-eq-ok _ c h) in absurd (cc e)
load_server-IsFilled unreadable detected c h = absurd (cc h)
load_server-IsFilled malformed detected c h = absurd (cc h)
load_server-IsFilled (parsed raw) detected c h =
    let (f, e, filled) = section-IsFilled raw.server detected c (checked-eq-ok _ c h) in
    (raw, f, refl, e, filled)
