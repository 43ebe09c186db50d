-- ===== src/Capture/Devices.antt =====
-- src/input_capture.rs: the devices that `start_capture` listens to. The directory, the devices and
-- their event streams are outside: what they answer is an argument.
pub mod Order
use text.Mathlib.Text.{starts_with}
use bluecross.Base.{
  ℕ, ◌+◌, Bool, true, false, Option, none, some, List, [], ◌∷◌, String, ◌==◌, ◌||◌, ◌&&◌, not,
  Result, ok, err, try, if◌then◌else◌,
}
use bluecross.Base.Names.{sort_by_name}
use bluecross.Capture.{btn_left, rel_x, rel_y}

-- What a device supports, if it says so, and the file descriptor of its event stream, if it opens.
pub record Device : Type 0 where
  pub supported_keys : Option (List ℕ)
  pub supported_rel : Option (List ℕ)
  pub stream : Option ℕ

pub data DiscoverError : Type 0 where
  no_input_dir unreadable_dir : DiscoverError

abbrev pub key_a : ℕ
key_a = 30

abbrev pub contains : ℕ → List ℕ → Bool
contains code [] = false
contains code (c ∷ codes) = c == code || contains code codes

pub data Kind : Type 0 where
  keyboard mouse neither : Kind

-- The test on the axes, for a device that its keys have not decided.
abbrev pub kind_by_axes : Option (List ℕ) → Kind
kind_by_axes none = neither
kind_by_axes (some rel) = if contains rel_x rel || contains rel_y rel then mouse else neither

unfoldable pub kind_of : Device → Kind
kind_of device = elim device.supported_keys [
  | none ↦ kind_by_axes device.supported_rel
  | some keys ↦
      if contains key_a keys
      then keyboard
      else if contains btn_left keys
      then mouse
      else kind_by_axes device.supported_rel
]

-- The entries of the directory whose names are texts that start with "event".
unfoldable pub event_names : List (Option String) → List String
event_names [] = []
event_names (none ∷ entries) = event_names entries
event_names (some name ∷ entries) =
    let rest = event_names entries in if starts_with name "event" then name ∷ rest else rest

-- The devices kept, and how many keyboards and mice are among them.
pub record Discovered : Type 0 where
  pub devices : List Device
  pub keyboard_count : ℕ
  pub mouse_count : ℕ

abbrev pub keep : Device → Kind → Discovered → Discovered
keep device keyboard d = record d {
  devices = device ∷ d.devices;
  keyboard_count = 1 + d.keyboard_count;
}
keep device mouse d = record d { devices = device ∷ d.devices; mouse_count = 1 + d.mouse_count }
keep device neither d = d

-- The loop over the entries; a device that cannot be opened is passed over.
unfoldable pub classify : (String → Option Device) → List String → Discovered
unfolding kind_of
classify open_device [] = record { devices = []; keyboard_count = 0; mouse_count = 0 }
classify open_device (name ∷ more) =
    let rest = classify open_device more in
    elim (open_device name) [ none ↦ rest | some device ↦ keep device (kind_of device) rest ]

-- `entries` is the directory as it is read, if it exists and can be read.
unfoldable pub discover_devices :
    Bool
    → Option (List (Option String))
    → (String → Option Device)
    → Result DiscoverError Discovered
unfolding classify event_names sort_by_name
discover_devices has_dir entries open_device =
    if not has_dir then err no_input_dir else elim entries [
      | none ↦ err unreadable_dir
      | some names ↦ ok (classify open_device (sort_by_name (event_names names)))
    ]

-- The loop of `start_capture`: the file descriptors of the streams that open.
unfoldable pub raw_fds : List Device → List ℕ
raw_fds [] = []
raw_fds (device ∷ more) =
    let rest = raw_fds more in elim device.stream [ none ↦ rest | some fd ↦ fd ∷ rest ]

unfoldable pub start_capture :
    Bool → Option (List (Option String)) → (String → Option Device) → Result DiscoverError (List ℕ)
unfolding discover_devices raw_fds
start_capture has_dir entries open_device =
    try (discover_devices has_dir entries open_device) λ found. ok (raw_fds found.devices)
