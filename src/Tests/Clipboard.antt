-- ===== src/Tests/Clipboard.antt =====
-- src/clipboard.rs at concrete contents.
use bluecross.Base.{◌≡◌, ◌≢◌, false, some, ◌↔◌}
use bluecross.Base.Text.{is_empty, trim_end_newlines}
use bluecross.Clipboard.{new, set, watch_round}
use bluecross.Clipboard.Echo.{watch_round-set_iff}

watch_round-set_iff_example :
    ((watch_round (set new "hello\n").0 "hello\n").0 ≡ some (trim_end_newlines "hello\n"))
    ↔ ((is_empty (trim_end_newlines "hello\n") ≡ false) × ("hello\n" ≢ trim_end_newlines "hello\n"))
watch_round-set_iff_example = watch_round-set_iff new "hello\n"
