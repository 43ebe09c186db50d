-- ===== src/Clipboard/Echo.antt =====
-- src/clipboard.rs: when a value that was applied from the network goes out again.
use text.Mathlib.TextPositions.{eq_refl}
use bluecross.Base.{◌≡◌, ◌≢◌, false, none, some, String, arith, eq_iff, ◌↔◌}
use bluecross.Base.Text.{is_empty, trim_end_newlines, is_empty-trim_end_newlines}
use bluecross.Clipboard.{ClipboardManager, set, report, poll_round, watch_round}

-- The polling watcher never sends out the value that was just applied, and keeps it as last seen.
pub poll_round-set :
    (c : ClipboardManager) (content : String)
    → poll_round (set c content).0 content ≡ (none, (set c content).0)
unfolding poll_round set report
poll_round-set c content = ground (arith, eq_refl content)

-- The value that was just applied comes back from the Wayland watcher, and is sent out again,
-- exactly when it ends in newlines and is more than newlines: the watcher cuts them off and takes
-- the rest for a change.
pub watch_round-set_iff :
    (c : ClipboardManager) (content : String)
    → ((watch_round (set c content).0 content).0 ≡ some (trim_end_newlines content))
      ↔ ((is_empty (trim_end_newlines content) ≡ false) × (content ≢ trim_end_newlines content))
unfolding watch_round set report
watch_round-set_iff c content =
    let trimmed = trim_end_newlines content in
    (
      λ h. (
        ground (arith, eq_iff content trimmed, is_empty-trim_end_newlines content),
        λ e. ground (arith, eq_iff content trimmed, is_empty-trim_end_newlines content),
      ),
      λ h. ground (arith, eq_iff content trimmed, is_empty-trim_end_newlines content, h.1),
    )
