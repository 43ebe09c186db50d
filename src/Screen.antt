-- ===== src/Screen.antt =====
-- src/screen.rs: the size of the screen, from what the compositors' commands print. The commands and
-- the crate `regex` are outside: their answers are arguments.
pub mod Detected
use bluecross.Base.{Bool, Option, none, some, List, [], ◌∷◌, String, ℤ, pos, if◌then◌else◌}
use bluecross.Base.Text.{contains, lines}
use bluecross.Base.Parse.{parse_i32}

-- The texts that the two groups of a pattern take, at its first match in a text.
abbrev pub Regex : Type 0
Regex = String → String → Option (String × String)

-- What a command answered, if it could be run: whether it succeeded, and what it printed.
abbrev pub Output : Type 0
Output = Option (Bool × String)

abbrev pub Size : Type 0
Size = ℤ × ℤ

abbrev pub both : Option ℤ → Option ℤ → Option Size
both (some w) (some h) = some (w, h)
both _ _ = none

unfoldable pub match_dims : Regex → String → String → Option Size
match_dims captures pattern text = elim (captures pattern text) [
  | none ↦ none
  | some groups ↦ both (parse_i32 groups.0) (parse_i32 groups.1)
]

-- The loop over the lines.
unfoldable pub search_lines : Regex → String → String → List String → Option Size
unfolding match_dims
search_lines captures word pattern [] = none
search_lines captures word pattern (line ∷ more) =
    let rest = search_lines captures word pattern more in
    if contains line word
    then elim (match_dims captures pattern line) [ none ↦ rest | some size ↦ some size ]
    else rest

abbrev pub when_success : Output → (String → Option Size) → Option Size
when_success none f = none
when_success (some (success, text)) f = if success then f text else none

abbrev pub gnome_pattern : String
gnome_pattern = "\\('(\\d+)x(\\d+)@[\\d.]+',[^)]*'is-current':\\s*<true>"

unfoldable pub detect_gnome_mutter : Regex → Output → Option Size
unfolding match_dims
detect_gnome_mutter captures gdbus = when_success gdbus (match_dims captures gnome_pattern)

abbrev pub wlr_pattern : String
wlr_pattern = "(\\d+)x(\\d+)\\s+px"

unfoldable pub detect_wlr_randr : Regex → Output → Option Size
unfolding search_lines lines
detect_wlr_randr captures wlr_randr =
    when_success wlr_randr (λ text. search_lines captures "current" wlr_pattern (lines text))

abbrev pub kde_pattern : String
kde_pattern = "Geometry:\\s*\\d+,\\d+\\s+(\\d+)x(\\d+)"

unfoldable pub detect_kde_wayland : Regex → Output → Option Size
unfolding search_lines lines
detect_kde_wayland captures kscreen =
    when_success kscreen (λ text. search_lines captures "Geometry:" kde_pattern (lines text))

-- The answers of `gdbus`, `wlr-randr` and `kscreen-doctor`.
pub record Outputs : Type 0 where
  pub gdbus : Output
  pub wlr_randr : Output
  pub kscreen_doctor : Output

abbrev pub or_next : Option Size → Size → Size
or_next none next = next
or_next (some size) next = size

unfoldable pub detect_screen_size : Regex → Outputs → Size
unfolding detect_gnome_mutter detect_wlr_randr detect_kde_wayland
detect_screen_size captures out = or_next (detect_gnome_mutter captures out.gdbus) (
    or_next (detect_wlr_randr captures out.wlr_randr)
      (or_next (detect_kde_wayland captures out.kscreen_doctor) (pos 1920, pos 1080)))
