-- ===== src/Base/Text.antt =====
-- The parts of `str` that the program calls: `trim`, `trim_end_matches` with one character, and
-- `is_empty`. `len` of the native texts counts bytes, as `str::len` does.
use Prim.Native.Char.{code}
use Prim.Native.String.{String, ◌∷◌, [], ◌++◌, len, slice, find}
use Prim.Native.String.len
use mathlib.Core.Path.{◌≡◌, refl}
use mathlib.Core.List.{List, ◌++◌ as append}
use mathlib.Core.Bool.{Bool, true, false, ◌&&◌, ◌||◌}
use native.Mathlib.Omega.{arith}
use Prim.Native.Nat.{ℕ, ◌-◌, ◌+◌, ◌/◌, ◌%◌}
use text.Mathlib.Text.{◌==◌ as str_eq}
use bluecross.Base.Tests.{ltb, leb, ◌==◌, if◌then◌else◌}

abbrev pub is_empty : String → Bool
is_empty [] = true
is_empty (c ∷ s) = false

-- `char::is_whitespace`: the code points with Unicode's property White_Space.
unfoldable pub is_whitespace : ℕ → Bool
is_whitespace c =
    (leb 9 c && leb c 13)
    || c == 32
    || c == 0x85
    || c == 0xa0
    || c == 0x1680
    || (leb 0x2000 c && leb c 0x200a)
    || c == 0x2028
    || c == 0x2029
    || c == 0x202f
    || c == 0x205f
    || c == 0x3000

unfoldable pub trim_start : String → String
trim_start [] = []
trim_start (c ∷ s) = if is_whitespace (code c) then trim_start s else c ∷ s

-- Drops the longest end whose characters all pass the test.
unfoldable pub trim_end_where : (ℕ → Bool) → String → String
trim_end_where p [] = []
trim_end_where p (c ∷ s) =
    let rest = trim_end_where p s in if is_empty rest && p (code c) then [] else c ∷ rest

unfoldable pub trim : String → String
unfolding trim_start trim_end_where is_whitespace
trim s = trim_end_where is_whitespace (trim_start s)

abbrev pub newline : ℕ
newline = 10

unfoldable pub trim_end_newlines : String → String
unfolding trim_end_where
trim_end_newlines s = trim_end_where (λ c. c == newline) s

-- `str::ends_with` with a text.
unfoldable pub ends_with : String → String → Bool
ends_with s t = leb (len t) (len s) && str_eq (slice s (len s - len t) (len s)) t

unfoldable pub without_return : String → String
without_return s = if ends_with s "\r" then slice s 0 (len s - 1) else s

-- `str::contains` with a text.
unfoldable pub contains : String → String → Bool
contains s t = leb (find s t) (len s)

-- `str::lines`: the parts between line feeds, a carriage return before one left out, as is an empty
-- last part. The first argument is the line so far.
unfoldable pub lines_from : String → String → List String
lines_from line [] = if is_empty line then List.[] else List.◌∷◌ line List.[]
lines_from line (c ∷ s) =
    let ended = lines_from "" s in
    let longer = lines_from (line ++ (c ∷ [])) s in
    if code c == newline then List.◌∷◌ (without_return line) ended else longer

unfoldable pub lines : String → List String
unfolding lines_from
lines s = lines_from "" s

-- `str::as_bytes` of one character, and of a text: UTF-8.
unfoldable pub char_to_bytes : ℕ → List ℕ
char_to_bytes c =
    let last = List.◌∷◌ (0x80 + c % 64) List.[] in
    let third = List.◌∷◌ (0x80 + c / 64 % 64) last in
    if ltb c 0x80
    then List.◌∷◌ c List.[]
    else if ltb c 0x800
    then List.◌∷◌ (0xc0 + c / 64) last
    else if ltb c 0x10000
    then List.◌∷◌ (0xe0 + c / 4096) third
    else List.◌∷◌ (0xf0 + c / 262144) (List.◌∷◌ (0x80 + c / 4096 % 64) third)

unfoldable pub as_bytes : String → List ℕ
unfolding char_to_bytes
as_bytes [] = List.[]
as_bytes (c ∷ s) = append (char_to_bytes (code c)) (as_bytes s)

pub trim_end_where_idem :
    (p : ℕ → Bool) (s : String) → trim_end_where p (trim_end_where p s) ≡ trim_end_where p s
unfolding trim_end_where
trim_end_where_idem p [] = refl
trim_end_where_idem p (c ∷ s) = ground (arith, trim_end_where_idem p s)

pub is_empty-len : (s : String) → is_empty s ≡ true → len s ≡ 0
is_empty-len [] h = len.nil
is_empty-len (c ∷ s) h = cc

pub is_empty-trim_end_newlines :
    (s : String) → is_empty s ≡ true → is_empty (trim_end_newlines s) ≡ true
unfolding trim_end_newlines
is_empty-trim_end_newlines [] h = refl
is_empty-trim_end_newlines (c ∷ s) h = cc
