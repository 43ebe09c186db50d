-- ===== src/Config/Load.antt =====
-- src/config.rs: what a configuration that loads is known to satisfy.
use Prim.Native.String.{len}
use bluecross.Base.{
  ◌≤◌, ◌≡◌, refl, Option, none, some, List, [], ◌∷◌, String, ℤ, pos, ◌<ℤ◌, arith, ◌↔◌, inl, inr,
  Option-cases, ok, try-eq-ok,
}
use bluecross.Base.Maps.{lookup}
use bluecross.Base.Text.{trim, is_empty-len}
use bluecross.Config.{
  ScreenPosition, ServerConfig, RawServerConfig, min_psk_len, from_str, validate_psk, fill,
  resolve_dimensions, resolve_clients, server_config, load_server_config,
}

-- Exactly the keys with at least `MIN_PSK_LEN` bytes between their outer spaces are accepted.
pub validate_psk_iff : (psk : String) → (validate_psk psk ≡ ok tt) ↔ (min_psk_len ≤ len (trim psk))
unfolding validate_psk
validate_psk_iff psk =
    (λ h. ground (arith, is_empty-len (trim psk)), λ h. ground (arith, is_empty-len (trim psk)))

pub resolve_dimensions-positive :
    (width height : ℤ) (detected size : ℤ × ℤ)
    → resolve_dimensions width height detected ≡ ok size
    → (pos 0 <ℤ size.0)
      × (pos 0 <ℤ size.1)
      × (size.0 ≡ fill width detected.0)
      × (size.1 ≡ fill height detected.1)
unfolding resolve_dimensions
resolve_dimensions-positive width height detected size h = ground arith

abbrev pub and_from_str : Option String → Option ScreenPosition
and_from_str none = none
and_from_str (some s) = from_str s

-- Every configured position is read, under its own name.
resolve_clients-lookup :
    (raw : List (String × String)) (clients : List (String × ScreenPosition)) (name : String)
    → resolve_clients raw ≡ ok clients
    → lookup name clients ≡ and_from_str (lookup name raw)
unfolding resolve_clients lookup
resolve_clients-lookup [] clients name h = ground arith
resolve_clients-lookup ((k, s) ∷ raw) clients name h = elim (Option-cases (from_str s)) [
  | inl e ↦ cc (rw (e, resolve_clients) at h)
  | inr (p, e) ↦
      let (rest, found, shape) =
        try-eq-ok (resolve_clients raw) (λ rest. ok ((k, p) ∷ rest))
          (rw (e, resolve_clients) at h) in
      let split : clients ≡ (k, p) ∷ rest = cc in
      rw split (ground (arith, e, resolve_clients-lookup raw rest name found))
]

-- What a configuration that loaded is known to be, field by field.
pub record IsLoaded (raw : RawServerConfig) (detected : ℤ × ℤ) (c : ServerConfig) : Type 0 where
  pub width : c.screen_width ≡ fill raw.screen_width detected.0
  pub height : c.screen_height ≡ fill raw.screen_height detected.1
  pub wide : pos 0 <ℤ c.screen_width
  pub high : pos 0 <ℤ c.screen_height
  pub psk : c.psk ≡ trim raw.psk
  pub long_psk : min_psk_len ≤ len c.psk
  pub clients : (name : String) → lookup name c.clients ≡ and_from_str (lookup name raw.clients)

server_config-IsLoaded :
    (raw : RawServerConfig) (detected size : ℤ × ℤ) (clients : List (String × ScreenPosition))
    → min_psk_len ≤ len (trim raw.psk)
    → resolve_dimensions raw.screen_width raw.screen_height detected ≡ ok size
    → resolve_clients raw.clients ≡ ok clients
    → IsLoaded raw detected (server_config raw size clients)
server_config-IsLoaded raw detected size clients key dims read =
    let (wide, high, width, height) =
      resolve_dimensions-positive raw.screen_width raw.screen_height detected size dims in
    record {
      width = width;
      height = height;
      wide = wide;
      high = high;
      psk = refl;
      long_psk = key;
      clients = λ name. resolve_clients-lookup raw.clients clients name read;
    }

-- A server configuration that loads has a positive screen size, which is the configured one where
-- that is not zero and the detected one elsewhere, the trimmed key of at least `MIN_PSK_LEN`
-- bytes, and for each client the position that its text names, and no other client.
pub load_server_config-IsLoaded :
    (raw : RawServerConfig) (detected : ℤ × ℤ) (c : ServerConfig)
    → load_server_config raw detected ≡ ok c
    → IsLoaded raw detected c
unfolding load_server_config
load_server_config-IsLoaded raw detected c h =
    let (u, key, h₁) = try-eq-ok (validate_psk raw.psk) _ h in
    let (size, dims, h₂) =
      try-eq-ok (resolve_dimensions raw.screen_width raw.screen_height detected) _ h₁ in
    let (clients, read, h₃) = try-eq-ok (resolve_clients raw.clients) _ h₂ in
    let same : server_config raw size clients ≡ c = cc in
    rw same at (
      server_config-IsLoaded raw detected size clients ((validate_psk_iff raw.psk).0 key) dims read)
