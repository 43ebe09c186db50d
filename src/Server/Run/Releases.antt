-- ===== src/Server/Run/Releases.antt =====
-- src/server.rs and src/config.rs: what a server that was configured from a file leaves behind.
use bluecross.Base.{
  Result-cases, ℕ, ◌≡◌, refl, ◌⊎◌, inl, inr, Bool, true, false, List, ℤ, ap, ◌∙◌, subst⁻¹, ◌&&◌,
  Result, ok, err, Outcome, done, and_then,
}
use bluecross.Base.Words.{InI32}
use bluecross.Json.{Json}
use bluecross.Clipboard
use bluecross.Config.{ServerConfig}
use bluecross.Config.Raw.{File, load_server}
use bluecross.Config.Raw.Section.{load_server-IsFilled}
use bluecross.Capture.Devices.{start_capture, DiscoverError}
use bluecross.Server.State.{Server, Queues}
use bluecross.Server.Events.{ServerEvent}
use bluecross.Server.Invariant.{IsScreen}
use bluecross.Server.Grabs.{grab_after}
use bluecross.Server.Grabs.Released.{started, run_async-releases}
use bluecross.Server.Run.{
  not_captured, not_bound, no_address, no_signals, required, looped, Surroundings, SetUpError,
  captured, opened, set_up, run_server_async,
}

loaded-IsScreen :
    (file : File) (detected : ℤ × ℤ) (config : ServerConfig)
    → load_server file detected ≡ ok config
    → InI32 config.screen_width
    → InI32 config.screen_height
    → IsScreen config.screen_width config.screen_height
loaded-IsScreen file detected config e w h =
    let (raw, f, found, section, filled) = load_server-IsFilled file detected config e in
    record { wide = filled.loaded.wide; high = filled.loaded.high; width_i32 = w; height_i32 = h }

-- An error, after a refusal, or this value.
abbrev IsErrOr : {A : Type 0} → Bool → A → Result SetUpError A → Type 0
IsErrOr {A} taken a r = ((e : SetUpError) × (r ≡ err e) × (taken ≡ false)) ⊎ (r ≡ ok a)

required-IsErrOr :
    {A : Type 0} (b taken : Bool) (e : SetUpError) (a : A) (r : Result SetUpError A)
    → IsErrOr taken a r
    → IsErrOr (b && taken) a (required b e r)
required-IsErrOr true taken e a r h = h
required-IsErrOr false taken e a r h = inl (e, refl, refl)

-- Whether the socket and both signals can be had.
abbrev pub takes_all : Surroundings → ServerConfig → Bool
takes_all around config =
    around.binds config.host config.port
    && (around.has_address && (around.takes_sigterm && (around.takes_sigint && true)))

abbrev pub IsRefused : Surroundings → ServerConfig → Type 0
IsRefused around config =
    ((d : DiscoverError) × (start_capture around.has_dir around.entries around.open_device ≡ err d))
    ⊎ (takes_all around config ≡ false)

module _ {j : Json} where
  opened-IsErrOr :
      (around : Surroundings) (config : ServerConfig) (start : ℕ) (fds : List ℕ) (queues : Queues j)
      → IsErrOr
          (takes_all around config)
          (started queues fds config Clipboard.new start)
          (opened j around config start fds)
  unfolding opened
  opened-IsErrOr around config start fds queues =
      let s = started queues fds config Clipboard.new start in
      let last = required-IsErrOr around.takes_sigint true no_signals s (ok s) (inr refl) in
      let signals = required-IsErrOr around.takes_sigterm _ no_signals s _ last in
      let address = required-IsErrOr around.has_address _ no_address s _ signals in
      required-IsErrOr (around.binds config.host config.port) _ not_bound s _ address

  -- An end without a panic: an error of the set-up, after a refusal, or a server that has released
  -- every device.
  abbrev pub EndsReleased :
      Surroundings → ServerConfig → Outcome (Result SetUpError (Server j)) → Type 0
  EndsReleased around config r =
      ((e : SetUpError) × (r ≡ done (err e)) × IsRefused around config)
      ⊎ ((t : Server j) × (r ≡ done (ok t)) × ((fd : ℕ) → grab_after j fd false t.calls ≡ false))

  looped-EndsReleased :
      (around : Surroundings) (queues : Queues j) (config : ServerConfig) (start : ℕ)
      (events : List (ℕ × ServerEvent j)) (fds : List ℕ) (s : Result SetUpError (Server j))
      → IsScreen config.screen_width config.screen_height
      → IsErrOr (takes_all around config) (started queues fds config Clipboard.new start) s
      → EndsReleased around config (looped j queues events s)
  looped-EndsReleased around queues config start events fds s h (inl (e, failed, refused)) =
      inl (e, ap (looped j queues events) failed, inr refused)
  looped-EndsReleased around queues config start events fds s h (inr same) =
      let (t, ended, released) =
        run_async-releases queues fds config Clipboard.new start events h in
      inr (
        t,
        ap (looped j queues events) same
            ∙ ap (λ (o : Outcome (Server j)). and_then o (λ u. done (ok u))) ended,
        released,
      )

  -- A server that is configured from a file never panics. Its `run_async` fails before the loop only
  -- when the devices, the socket or a signal are refused; else it runs until it is told to stop,
  -- whatever the events and the queues' answers, and then every device is released. The screen's
  -- sizes are `i32`s.
  pub run_server_async-EndsReleased :
      (file : File) (detected : ℤ × ℤ) (config : ServerConfig) (around : Surroundings)
      (queues : Queues j) (start : ℕ) (events : List (ℕ × ServerEvent j))
      → load_server file detected ≡ ok config
      → InI32 config.screen_width
      → InI32 config.screen_height
      → EndsReleased around config (run_server_async j around queues config start events)
  unfolding run_server_async set_up
  run_server_async-EndsReleased file detected config around queues start events e w h =
      let found = start_capture around.has_dir around.entries around.open_device in
      let go = λ (r : Result DiscoverError (List ℕ)).
        looped j queues events
          (elim (captured r) [ err f ↦ err f | ok fds ↦ opened j around config start fds ]) in
      elim (Result-cases found) [
        | inl (d, failed) ↦ inl (not_captured d, ap go failed, inl (d, failed))
        | inr (fds, listed) ↦
            subst⁻¹ (λ r. EndsReleased around config (go r)) listed
              (looped-EndsReleased around queues config start events fds _
                (loaded-IsScreen file detected config e w h)
                (opened-IsErrOr around config start fds queues))
      ]
