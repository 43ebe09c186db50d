-- ===== src/Base/Parse.antt =====
-- `str::parse` for whole numbers.
use Prim.Native.Char.{code}
use Prim.Native.String.{String}
use Prim.Native.Nat.{ℕ, zero, suc, ◌+◌, ◌-◌, ◌*◌, ◌^◌}
use mathlib.Core.Bool.{◌&&◌}
use mathlib.Core.Option.{Option, none, some}
use bluecross.Base.Int.{ℤ, pos, negsuc}
use bluecross.Base.Tests.{leb, ltb, ◌==◌, if◌then◌else◌}

-- `str::parse::<i32>`: a sign, then digits, at least one, within the range.
unfoldable pub digits : ℕ → String → Option ℕ
digits value String.[] = some value
digits value (String.◌∷◌ c more) =
    let rest = digits (value * 10 + (code c - 48)) more in
    if leb 48 (code c) && leb (code c) 57 then rest else none

abbrev pub some_digits : String → Option ℕ
some_digits String.[] = none
some_digits (String.◌∷◌ c more) = digits 0 (String.◌∷◌ c more)

abbrev pub positive : Option ℕ → Option ℤ
positive none = none
positive (some n) = if ltb n (2 ^ 31) then some (pos n) else none

abbrev pub negative : Option ℕ → Option ℤ
negative none = none
negative (some zero) = some (pos 0)
negative (some (suc n)) = if ltb n (2 ^ 31) then some (negsuc n) else none

unfoldable pub parse_i32 : String → Option ℤ
unfolding digits
parse_i32 String.[] = none
parse_i32 (String.◌∷◌ c more) =
    if code c == 43
    then positive (some_digits more)
    else if code c == 45
    then negative (some_digits more)
    else positive (digits 0 (String.◌∷◌ c more))

abbrev pub in_usize : Option ℕ → Option ℕ
in_usize none = none
in_usize (some n) = if ltb n (2 ^ 64) then some n else none

-- `str::parse::<usize>`
unfoldable pub parse_usize : String → Option ℕ
unfolding digits
parse_usize String.[] = none
parse_usize (String.◌∷◌ c more) =
    if code c == 43 then in_usize (some_digits more) else in_usize (digits 0 (String.◌∷◌ c more))
