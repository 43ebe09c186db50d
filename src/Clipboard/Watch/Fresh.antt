-- ===== src/Clipboard/Watch/Fresh.antt =====
-- src/clipboard.rs: what the monitor sends is news.
use text.Mathlib.Text.{◌==◌ as str_eq}
use bluecross.Base.{
  ◌≡◌, ◌≢◌, Bool, true, false, Option, none, some, List, [], ◌∷◌, String, if◌then◌else◌,
}
use bluecross.Base.Text.{is_empty}
use bluecross.Clipboard.{ClipboardManager}
use bluecross.Clipboard.Watch.{Effect, sent, written, recorded}

-- Each value that is sent is filled and differs from the one that was sent, written or recorded before
-- it, or, if it is the first, from the given one.
abbrev pub IsFresh : String → List Effect → Type 0
IsFresh last [] = Unit
IsFresh last (sent content ∷ more) =
    (content ≢ last) × (is_empty content ≡ false) × IsFresh content more
IsFresh last (written content ∷ more) = IsFresh content more
IsFresh last (recorded content ∷ more) = IsFresh content more

-- A report, by the two tests of `take_if_changed`.
abbrev taken : Bool → Bool → ClipboardManager → String → Bool × ClipboardManager
taken no_text same c content =
    if no_text
    then (false, c)
    else if same
    then (false, c)
    else (true, record { last_content = content })

abbrev report_of : String → Bool × ClipboardManager → Option String × ClipboardManager
report_of content (changed, d) = (if changed then some content else none, d)
