-- ===== src/Base/Words.antt =====
-- Rust's fixed-width integers. An `i32` or an `i64` is the integer that it stands for; arithmetic
-- on `i32` wraps, as it does in the release profile, and `as` casts keep the low bits.
use Prim.Native.Nat.{ℕ, suc, ◌-◌, ◌/◌, ◌%◌, ◌^◌, ◌<◌}
use mathlib.Core.Path.{◌≡◌}
use mathlib.Core.Bool.{◌||◌, ◌&&◌}
use native.Mathlib.Omega.{arith}
use bluecross.Base.Tests.{ltb, if◌then◌else◌}
use bluecross.Base.Int.{ℤ, pos, negsuc, pos_part, ◌+ℤ◌, ◌-ℤ◌, ◌*ℤ◌, ◌≤ℤ◌, ◌<ℤ◌, ltb_ℤ, eqb_ℤ}
use bluecross.Base.Results.{Outcome, done, panic}

-- The low 32 bits of an integer, and the `i32` that a bit pattern stands for.
abbrev pub to_u32 : ℤ → ℕ
to_u32 (pos n) = n % 2 ^ 32
to_u32 (negsuc n) = 2 ^ 32 - 1 - n % 2 ^ 32

abbrev pub signed32 : ℕ → ℤ
signed32 w = if ltb w (2 ^ 31) then pos w else negsuc (2 ^ 32 - 1 - w)

unfoldable pub as_i32 : ℤ → ℤ
as_i32 z = signed32 (to_u32 z)

unfoldable pub as_u16 : ℤ → ℕ
as_u16 (pos n) = n % 2 ^ 16
as_u16 (negsuc n) = 2 ^ 16 - 1 - n % 2 ^ 16

pub record InI32 (z : ℤ) : Type 0 where
  pub low : negsuc (2 ^ 31 - 1) ≤ℤ z
  pub high : z ≤ℤ pos (2 ^ 31 - 1)

pub as_i32-InI32 : (z : ℤ) → InI32 (as_i32 z)
unfolding as_i32
as_i32-InI32 z = record { low = ground arith; high = ground arith }

pub as_i32-fits : (z : ℤ) → InI32 z → as_i32 z ≡ z
unfolding as_i32
as_i32-fits (pos n) h = ground arith
as_i32-fits (negsuc n) h = ground arith

pub as_u16-fits : (n : ℕ) → n < 2 ^ 16 → as_u16 (pos n) ≡ n
unfolding as_u16
as_u16-fits n h = omega arith

unfoldable pub add_i32 : ℤ → ℤ → ℤ
add_i32 a b = as_i32 (a +ℤ b)

unfoldable pub sub_i32 : ℤ → ℤ → ℤ
sub_i32 a b = as_i32 (a -ℤ b)

unfoldable pub mul_i32 : ℤ → ℤ → ℤ
mul_i32 a b = as_i32 (a *ℤ b)

-- Division rounds towards zero, and panics on a zero divisor and on the one overflow.
abbrev pub quot : ℤ → ℤ → ℤ
quot (pos a) (pos b) = pos (a / b)
quot (pos a) (negsuc b) = pos 0 -ℤ pos (a / suc b)
quot (negsuc a) (pos b) = pos 0 -ℤ pos (suc a / b)
quot (negsuc a) (negsuc b) = pos (suc a / suc b)

unfoldable pub div_i32 : ℤ → ℤ → Outcome ℤ
div_i32 a b =
    if eqb_ℤ b (pos 0) || (eqb_ℤ a (negsuc (2 ^ 31 - 1)) && eqb_ℤ b (negsuc 0))
    then panic
    else done (quot a b)

pub div_i32-pos : (a b : ℤ) → pos 0 <ℤ b → div_i32 a b ≡ done (quot a b)
unfolding div_i32
div_i32-pos a b h = ground arith

-- `Ord::clamp` asserts that its bounds are in order.
abbrev pub clamp_to : ℤ → ℤ → ℤ → ℤ
clamp_to lo hi x = if ltb_ℤ x lo then lo else if ltb_ℤ hi x then hi else x

unfoldable pub clamp : ℤ → ℤ → ℤ → Outcome ℤ
clamp lo hi x = if ltb_ℤ hi lo then panic else done (clamp_to lo hi x)

pub clamp-ordered : (lo hi x : ℤ) → lo ≤ℤ hi → clamp lo hi x ≡ done (clamp_to lo hi x)
unfolding clamp
clamp-ordered lo hi x h = ground arith

pub clamp_to-bounds : (lo hi x : ℤ) → lo ≤ℤ hi → (lo ≤ℤ clamp_to lo hi x) × (clamp_to lo hi x ≤ℤ hi)
clamp_to-bounds lo hi x h = ground arith

-- The largest index of a screen `w` pixels wide.
pub sub_i32-one : (w : ℤ) → pos 0 <ℤ w → InI32 w → sub_i32 w (pos 1) ≡ pos (pos_part w - 1)
unfolding sub_i32 ◌-ℤ◌ as_i32
sub_i32-one (pos n) h k = ground arith
sub_i32-one (negsuc n) h k = ground arith
