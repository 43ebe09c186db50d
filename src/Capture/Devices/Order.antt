-- ===== src/Capture/Devices/Order.antt =====
-- src/input_capture.rs: the order in which the directory lists its entries does not matter.
use mathlib.Core.List.{Perm, foldr}
use mathlib.Core.List.Perm
use bluecross.Base.{
  ◌≡◌, refl, sym, ◌∙◌, ap, Bool, Option, none, some, List, [], ◌∷◌, String, arith, not, Result, ok,
  err, try, if◌then◌else◌,
}
use bluecross.Base.Names.{insert_by_name, insert_by_name_comm, sort_by_name}
use bluecross.Capture.Devices.{
  Device, DiscoverError, Discovered, no_input_dir, classify, raw_fds, event_names, discover_devices,
  start_capture,
}
use text.Mathlib.Text.{starts_with}
use text.Mathlib.TextEquality.{IsScalar-prop}

-- The sorted names, entry by entry.
step : Option String → List String → List String
step none names = names
step (some name) names = if starts_with name "event" then insert_by_name name names else names

step_comm :
    (a b : Option String) (names : List String) → step a (step b names) ≡ step b (step a names)
unfolding step
step_comm none b names = refl
step_comm (some a) none names = refl
step_comm (some a) (some b) names = ground (arith, insert_by_name_comm a b names)

foldr-step :
    (entries : List (Option String)) → sort_by_name (event_names entries) ≡ foldr step [] entries
unfolding step event_names sort_by_name
foldr-step [] = refl
foldr-step (none ∷ entries) = foldr-step entries
foldr-step (some name ∷ entries) = ground (arith, foldr-step entries)

sort_by_name-perm :
    {xs ys : List (Option String)}
    → Perm xs ys
    → sort_by_name (event_names xs) ≡ sort_by_name (event_names ys)
sort_by_name-perm {xs} {ys} p =
    foldr-step xs ∙ Perm.foldr-eq (hlevel IsScalar-prop) step step_comm p [] ∙ sym (foldr-step ys)

-- The list of the file descriptors that are captured does not depend on the order in which the
-- directory is read: two listings with the same entries give the same list.
pub start_capture-perm :
    (has_dir : Bool) (open_device : String → Option Device) {xs ys : List (Option String)}
    → Perm xs ys
    → start_capture has_dir (some xs) open_device ≡ start_capture has_dir (some ys) open_device
unfolding start_capture discover_devices
start_capture-perm has_dir open_device p =
    ap
      (λ names.
        try
          (if◌then◌else◌ {A = Result DiscoverError Discovered} (not has_dir) (err no_input_dir)
            (ok (classify open_device names)))
          (λ found. ok (raw_fds found.devices)))
      (sort_by_name-perm p)
