-- ===== src/Clipboard/Watch.antt =====
-- src/clipboard.rs: `monitor` and the loops of both watchers. What the watching `wl-paste` delivers, the
-- values that are applied meanwhile through `set`, and whether the channel still takes a value are
-- arguments.
pub mod Fresh
use Prim.Native.String.{◌++◌}
use bluecross.Base.{Bool, true, false, Option, none, some, List, [], ◌∷◌, String, if◌then◌else◌}
use bluecross.Clipboard.{ClipboardManager, set, report, poll_round, watch_round}

-- What `read_line` answers, or that 20 ms passed without a line, or a value applied by another task.
pub data Reading : Type 0 where
  line : String → Reading
  eof failed quiet : Reading
  applied : String → Reading

-- What happens, in order: a value is sent to the channel, or written to the clipboard; or the content
-- that was first read is recorded as the last one seen.
pub data Effect : Type 0 where
  sent : String → Effect
  written : String → Effect
  recorded : String → Effect

-- Whether the channel takes a value.
abbrev pub Channel : Type 0
Channel = String → Bool

abbrev pub write_effect : Option String → List Effect → List Effect
write_effect none effects = effects
write_effect (some content) effects = written content ∷ effects

-- Outside the inner loop, or inside it with the lines so far.
pub data Mode : Type 0 where
  waiting : Mode
  gathering : String → Mode

-- The end of a round: what is reported, and whether the loop goes on.
unfoldable pub reported :
    Channel → Option String × ClipboardManager → (ClipboardManager → List Effect) → List Effect
reported takes (none, c) go_on = go_on c
reported takes (some content, c) go_on =
    let rest = go_on c in if takes content then sent content ∷ rest else []

-- The loop of `monitor_wayland`. An end of the stream that is met inside a round is met again behind it.
unfoldable pub watch : Channel → Mode → ClipboardManager → List Reading → List Effect
unfolding reported watch_round set
watch takes mode c [] = []
watch takes mode c (applied content ∷ more) =
    let (d, text) = set c content in write_effect text (watch takes mode d more)
watch takes waiting c (line text ∷ more) = watch takes (gathering text) c more
watch takes waiting c (quiet ∷ more) = watch takes waiting c more
watch takes waiting c (eof ∷ more) = []
watch takes waiting c (failed ∷ more) = []
watch takes (gathering content) c (line text ∷ more) =
    watch takes (gathering (content ++ text)) c more
watch takes (gathering content) c (quiet ∷ more) =
    reported takes (watch_round c content) (λ d. watch takes waiting d more)
watch takes (gathering content) c (failed ∷ more) =
    reported takes (watch_round c content) (λ d. watch takes waiting d more)
watch takes (gathering content) c (eof ∷ more) = reported takes (watch_round c content) (λ d. [])

-- A second passes and `wl-paste` answers, if it can be run whether it succeeded and what it printed; or
-- a value is applied by another task.
pub data Polling : Type 0 where
  tick : Option (Bool × String) → Polling
  applied : String → Polling

unfoldable pub get_clipboard : Option (Bool × String) → String
get_clipboard none = ""
get_clipboard (some (success, text)) = if success then text else ""

unfoldable pub poll : Channel → ClipboardManager → List Polling → List Effect
unfolding reported poll_round set get_clipboard
poll takes c [] = []
poll takes c (applied content ∷ more) =
    let (d, text) = set c content in write_effect text (poll takes d more)
poll takes c (tick output ∷ more) =
    reported takes (poll_round c (get_clipboard output)) (λ d. poll takes d more)

-- What the watcher delivers, or, where it cannot be started, what polling meets.
pub data Watching : Type 0 where
  watches : List Reading → Watching
  falls_back : List Polling → Watching

abbrev pub watched : Channel → Watching → ClipboardManager → List Effect
watched takes (watches readings) c = watch takes waiting c readings
watched takes (falls_back pollings) c = poll takes c pollings

-- Values that other tasks apply, one after the other, and what follows.
unfoldable pub applied_each :
    List String → (ClipboardManager → List Effect) → ClipboardManager → List Effect
unfolding set
applied_each [] go_on c = go_on c
applied_each (content ∷ more) go_on c =
    let (d, text) = set c content in write_effect text (applied_each more go_on d)

-- While the clipboard is first read, other tasks may apply values. What was read is recorded in any
-- case.
unfoldable pub monitor :
    Channel → ClipboardManager → List String → Option (Bool × String) → Watching → List Effect
unfolding watch poll get_clipboard applied_each
monitor takes c meanwhile output watching =
    let initial = get_clipboard output in
    applied_each meanwhile
      (λ d. recorded initial ∷ watched takes watching (record d { last_content = initial })) c
