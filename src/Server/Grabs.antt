-- ===== src/Server/Grabs.antt =====
-- src/server.rs and the kernel: which devices are grabbed after the calls that the server made.
pub mod Kept
pub mod Released
use mathlib.Core.List.{append_assoc}
use bluecross.Base.{
  ℕ, ◌≡◌, refl, ◌∙◌, Bool, true, false, List, [], ◌∷◌, ◌++◌, map, arith, ◌==◌, ◌&&◌, ◌||◌, not,
  if◌then◌else◌,
}
use bluecross.Json.{Json}
use bluecross.Capture
use bluecross.Capture.{Ioctl}
use bluecross.Server.State.{Call, ioctl, Server, grab_devices, ungrab_devices}

abbrev pub is_in : ℕ → List ℕ → Bool
is_in fd [] = false
is_in fd (f ∷ fds) = f == fd || is_in fd fds

module _ (j : Json) where
  -- Whether the kernel has `fd` grabbed after one more call, and after more calls.
  abbrev pub grab_call : ℕ → Bool → Call j → Bool
  grab_call fd held (ioctl i) = if i.fd == fd then i.arg == 1 else held
  grab_call fd held _ = held

  abbrev pub grab_after : ℕ → Bool → List (Call j) → Bool
  grab_after fd held [] = held
  grab_after fd held (call ∷ more) = grab_after fd (grab_call fd held call) more

  pub grab_after-append :
      (fd : ℕ) (held : Bool) (xs ys : List (Call j))
      → grab_after fd held (xs ++ ys) ≡ grab_after fd (grab_after fd held xs) ys
  grab_after-append fd held [] ys = refl
  grab_after-append fd held (x ∷ xs) ys = grab_after-append fd (grab_call fd held x) xs ys

  grab_after-grab :
      (fd : ℕ) (held : Bool) (fds : List ℕ)
      → grab_after fd held (map ioctl (Capture.grab_devices fds)) ≡ (is_in fd fds || held)
  unfolding Capture.grab_devices
  grab_after-grab fd held [] = refl
  grab_after-grab fd held (f ∷ fds) =
      grab_after-grab fd (if f == fd then true else held) fds ∙ ground arith

  grab_after-ungrab :
      (fd : ℕ) (held : Bool) (fds : List ℕ)
      → grab_after fd held (map ioctl (Capture.ungrab_devices fds)) ≡ (not (is_in fd fds) && held)
  unfolding Capture.ungrab_devices
  grab_after-ungrab fd held [] = refl
  grab_after-ungrab fd held (f ∷ fds) =
      grab_after-ungrab fd (if f == fd then false else held) fds ∙ ground arith

  -- Exactly the captured devices are grabbed while the flag is set, and none otherwise.
  pub record IsFaithful (fds : List ℕ) (s : Server j) : Type 0 where
    pub device_fds : s.device_fds ≡ fds
    pub held : (fd : ℕ) → grab_after fd false s.calls ≡ (s.grabbed && is_in fd fds)

  pub grab_devices-IsFaithful :
      (fds : List ℕ) (s : Server j) → IsFaithful fds s → IsFaithful fds (grab_devices j s)
  unfolding grab_devices
  grab_devices-IsFaithful fds s h = record {
    device_fds = ground arith;
    held = λ fd. ground (
      arith,
      h.held fd,
      grab_after-append fd false s.calls (map ioctl (Capture.grab_devices s.device_fds)),
      grab_after-grab fd (grab_after fd false s.calls) s.device_fds,
    );
  }

  pub ungrab_devices-IsFaithful :
      (fds : List ℕ) (s : Server j) → IsFaithful fds s → IsFaithful fds (ungrab_devices j s)
  unfolding ungrab_devices
  ungrab_devices-IsFaithful fds s h = record {
    device_fds = ground arith;
    held = λ fd. ground (
      arith,
      h.held fd,
      grab_after-append fd false s.calls (map ioctl (Capture.ungrab_devices s.device_fds)),
      grab_after-ungrab fd (grab_after fd false s.calls) s.device_fds,
    );
  }
