-- ===== src/Screen/Detected.antt =====
-- src/screen.rs: where the size of the screen comes from.
use bluecross.Base.{
  ◌≡◌, refl, subst, true, false, Bool-cases, Option, none, some, List, [], ◌∷◌, ◌⊎◌, inl, inr,
  String, pos,
}
use bluecross.Base.Text.{contains, lines}
use bluecross.Screen.{
  Regex, Output, Outputs, Size, match_dims, search_lines, detect_gnome_mutter, detect_wlr_randr,
  detect_kde_wayland, detect_screen_size, gnome_pattern, wlr_pattern, kde_pattern, or_next,
  when_success,
}

-- A line gives a size: it has the word, and the pattern takes two numbers from it.
pub record Gives (captures : Regex) (word pattern line : String) (size : Size) : Type 0 where
  pub has_word : contains line word ≡ true
  pub matches : match_dims captures pattern line ≡ some size

-- A line without a size: it has not the word, or the pattern takes no two numbers from it.
abbrev pub IsSkipped : Regex → String → String → String → Type 0
IsSkipped captures word pattern line =
    (contains line word ≡ false) ⊎ (match_dims captures pattern line ≡ none)

-- The first line of a text that gives a size gives this one.
pub data IsFirst (captures : Regex) (word pattern : String) (size : Size)
    : List String → Type 0 where
  here :
      (line : String) (more : List String)
      → Gives captures word pattern line size
      → IsFirst captures word pattern size (line ∷ more)
  later :
      (line : String) (more : List String)
      → IsSkipped captures word pattern line
      → IsFirst captures word pattern size more
      → IsFirst captures word pattern size (line ∷ more)

pub data HasNone (captures : Regex) (word pattern : String) : List String → Type 0 where
  nothing : HasNone captures word pattern []
  skipped :
      (line : String) (more : List String)
      → IsSkipped captures word pattern line
      → HasNone captures word pattern more
      → HasNone captures word pattern (line ∷ more)

data IsSearched (captures : Regex) (word pattern : String) (text : List String)
    : Option Size → Type 0 where
  found :
      (size : Size)
      → IsFirst captures word pattern size text
      → IsSearched captures word pattern text (some size)
  missing : HasNone captures word pattern text → IsSearched captures word pattern text none

module _ (captures : Regex) (word pattern : String) where
  -- A line that is skipped goes in front of a search.
  skip :
      (line : String) (more : List String) (r : Option Size)
      → IsSkipped captures word pattern line
      → IsSearched captures word pattern more r
      → IsSearched captures word pattern (line ∷ more) r
  skip line more r s (found size h) = found size (later line more s h)
  skip line more r s (missing h) = missing (skipped line more s h)

  take :
      (line : String) (more : List String) (r dims : Option Size)
      → contains line word ≡ true
      → match_dims captures pattern line ≡ dims
      → IsSearched captures word pattern more r
      → IsSearched captures word pattern
          (line ∷ more)
          (elim dims [ none ↦ r | some size ↦ some size ])
  take line more r none w e h = skip line more r (inr e) h
  take line more r (some size) w e h =
      found size (here line more (record { has_word = w; matches = e }))

  search_lines-IsSearched :
      (text : List String)
      → IsSearched captures word pattern text (search_lines captures word pattern text)
  unfolding search_lines
  search_lines-IsSearched [] = missing nothing
  search_lines-IsSearched (line ∷ more) =
      let h = search_lines-IsSearched more in
      elim (Bool-cases (contains line word)) [
        | inl e ↦ rw e (take line more _ _ e refl h)
        | inr e ↦ rw e (skip line more _ (inl e) h)
      ]

-- What a command that succeeded printed holds no size.
abbrev pub HasNoSize : Regex → String → String → Output → Type 0
HasNoSize captures word pattern output =
    (text : String) → output ≡ some (true, text) → HasNone captures word pattern (lines text)

abbrev pub HasNoCurrent : Regex → Output → Type 0
HasNoCurrent captures output =
    (text : String) → output ≡ some (true, text) → match_dims captures gnome_pattern text ≡ none

-- The first line with a size in what a command that succeeded printed.
pub record IsPrinted (captures : Regex) (word pattern : String) (output : Output) (size : Size)
    : Type 0 where
  pub text : String
  pub succeeded : output ≡ some (true, text)
  pub first : IsFirst captures word pattern size (lines text)

-- The order of the sources.
pub data IsDetected (captures : Regex) (out : Outputs) : Size → Type 0 where
  gnome :
      (text : String) (size : Size)
      → out.gdbus ≡ some (true, text)
      → match_dims captures gnome_pattern text ≡ some size
      → IsDetected captures out size
  wlr :
      (size : Size)
      → HasNoCurrent captures out.gdbus
      → IsPrinted captures "current" wlr_pattern out.wlr_randr size
      → IsDetected captures out size
  kde :
      (size : Size)
      → HasNoCurrent captures out.gdbus
      → HasNoSize captures "current" wlr_pattern out.wlr_randr
      → IsPrinted captures "Geometry:" kde_pattern out.kscreen_doctor size
      → IsDetected captures out size
  fallback :
      HasNoCurrent captures out.gdbus
      → HasNoSize captures "current" wlr_pattern out.wlr_randr
      → HasNoSize captures "Geometry:" kde_pattern out.kscreen_doctor
      → IsDetected captures out (pos 1920, pos 1080)

-- A search of what a command printed.
abbrev Answer : Regex → String → String → Output → Option Size → Type 0
Answer captures word pattern output none = HasNoSize captures word pattern output
Answer captures word pattern output (some size) = IsPrinted captures word pattern output size

printed : (s t : String) → ◌≡◌ {A = Output} (some (true, s)) (some (true, t)) → s ≡ t
printed s t e = cc

Answer-success :
    (captures : Regex) (word pattern text : String) (r : Option Size)
    → IsSearched captures word pattern (lines text) r
    → Answer captures word pattern (some (true, text)) r
Answer-success captures word pattern text (some _) (found size h) = record {
  text = text;
  succeeded = refl;
  first = h;
}
Answer-success captures word pattern text none (missing h) =
    λ t e. subst (λ u. HasNone captures word pattern (lines u)) (printed text t e) h

when_success-Answer :
    (captures : Regex) (word pattern : String) (output : Output)
    → Answer captures word pattern output
        (when_success output (λ text. search_lines captures word pattern (lines text)))
when_success-Answer captures word pattern none = λ t e. cc
when_success-Answer captures word pattern (some (false, text)) = λ t e. cc
when_success-Answer captures word pattern (some (true, text)) =
    Answer-success captures word pattern text _
      (search_lines-IsSearched captures word pattern (lines text))

GnomeAnswer : Regex → Output → Option Size → Type 0
GnomeAnswer captures output none = HasNoCurrent captures output
GnomeAnswer captures output (some size) =
    (text : String) × (output ≡ some (true, text))
    × (match_dims captures gnome_pattern text ≡ some size)

gnome_matched :
    (captures : Regex) (text : String) (r : Option Size)
    → match_dims captures gnome_pattern text ≡ r
    → GnomeAnswer captures (some (true, text)) r
unfolding GnomeAnswer
gnome_matched captures text none e =
    λ t p. subst (λ u. match_dims captures gnome_pattern u ≡ none) (printed text t p) e
gnome_matched captures text (some size) e = (text, refl, e)

detect_gnome_mutter-GnomeAnswer :
    (captures : Regex) (output : Output)
    → GnomeAnswer captures output (detect_gnome_mutter captures output)
unfolding detect_gnome_mutter GnomeAnswer
detect_gnome_mutter-GnomeAnswer captures none = λ t e. cc
detect_gnome_mutter-GnomeAnswer captures (some (false, text)) = λ t e. cc
detect_gnome_mutter-GnomeAnswer captures (some (true, text)) = gnome_matched captures text _ refl

-- The three answers, in the order of the source.
IsDetected-or_next :
    (captures : Regex) (out : Outputs) (g w k : Option Size)
    → GnomeAnswer captures out.gdbus g
    → Answer captures "current" wlr_pattern out.wlr_randr w
    → Answer captures "Geometry:" kde_pattern out.kscreen_doctor k
    → IsDetected captures out (or_next g (or_next w (or_next k (pos 1920, pos 1080))))
unfolding GnomeAnswer
IsDetected-or_next captures out (some size) w k (text, e, m) hw hk = gnome text size e m
IsDetected-or_next captures out none (some size) k hg hw hk = wlr size hg hw
IsDetected-or_next captures out none none (some size) hg hw hk = kde size hg hw hk
IsDetected-or_next captures out none none none hg hw hk = fallback hg hw hk

-- The size is that of the mode that GNOME marks as current, else that of the first line of `wlr-randr`
-- with the word "current" and two numbers that are `i32`, else that of the first such line of
-- `kscreen-doctor` with "Geometry:", and 1920 x 1080 when none of the three commands succeeds and
-- prints one.
pub detect_screen_size-IsDetected :
    (captures : Regex) (out : Outputs) → IsDetected captures out (detect_screen_size captures out)
unfolding detect_screen_size detect_wlr_randr detect_kde_wayland
detect_screen_size-IsDetected captures out =
    IsDetected-or_next captures out _ _ _ (detect_gnome_mutter-GnomeAnswer captures out.gdbus)
      (when_success-Answer captures "current" wlr_pattern out.wlr_randr)
      (when_success-Answer captures "Geometry:" kde_pattern out.kscreen_doctor)
