-- ===== src/Clipboard.antt =====
-- src/clipboard.rs: the last-seen value that a manager keeps, and the tests on it. The commands
-- `wl-copy` and `wl-paste` are outside: a write is a value of `set`, and what they print is an
-- argument. No thread panics while it holds the lock, so locking never fails.
pub mod Echo
pub mod Watch
use text.Mathlib.Text.{◌==◌ as str_eq}
use bluecross.Base.{Bool, true, false, Option, none, some, String, if◌then◌else◌}
use bluecross.Base.Text.{is_empty, trim_end_newlines}

pub record ClipboardManager : Type 0 where
  pub last_content : String

unfoldable pub new : ClipboardManager
new = record { last_content = "" }

-- The second part is what is handed to `wl-copy`.
unfoldable pub set : ClipboardManager → String → ClipboardManager × Option String
set c content =
    if is_empty content then (c, none) else (record { last_content = content }, some content)

-- The first part is the answer.
unfoldable pub take_if_changed : ClipboardManager → String → Bool × ClipboardManager
take_if_changed c content =
    if is_empty content
    then (false, c)
    else if str_eq c.last_content content
    then (false, c)
    else (true, record { last_content = content })

-- A round of either watcher: the content that it sends to its channel, if it does.
unfoldable pub report : ClipboardManager → String → Option String × ClipboardManager
unfolding take_if_changed
report c content =
    let (changed, d) = take_if_changed c content in (if changed then some content else none, d)

-- `monitor_polling` reports what `wl-paste --no-newline` prints.
unfoldable pub poll_round : ClipboardManager → String → Option String × ClipboardManager
poll_round c content = report c content

-- `monitor_wayland` cuts the newlines off the end of what the watching `wl-paste` prints.
unfoldable pub watch_round : ClipboardManager → String → Option String × ClipboardManager
watch_round c content = report c (trim_end_newlines content)
