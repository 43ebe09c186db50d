-- ===== src/Base/Wrap.antt =====
-- Sums that wrap do not depend on where they wrap.
use Prim.Native.Nat.{◌+◌, ◌%◌, ◌^◌, ◌<◌}
use mathlib.Core.Path.{◌≡◌, ap}
use native.Mathlib.Omega.{arith}
use bluecross.Base.Int.{ℤ, pos, negsuc, ◌+ℤ◌}
use bluecross.Base.Words.{as_i32, to_u32, signed32}

to_u32_add : (a b : ℤ) → to_u32 (a +ℤ b) ≡ (to_u32 a + to_u32 b) % 2 ^ 32
unfolding ◌+ℤ◌
to_u32_add (pos a) (pos b) = ground arith
to_u32_add (pos a) (negsuc b) = ground arith
to_u32_add (negsuc a) (pos b) = ground arith
to_u32_add (negsuc a) (negsuc b) = ground arith

to_u32_lt : (a : ℤ) → to_u32 a < 2 ^ 32
to_u32_lt (pos a) = omega arith
to_u32_lt (negsuc a) = omega arith

to_u32-as_i32 : (a : ℤ) → to_u32 (as_i32 a) ≡ to_u32 a
unfolding as_i32
to_u32-as_i32 a = ground (arith, to_u32_lt a)

pub as_i32_add : (a b : ℤ) → as_i32 (as_i32 a +ℤ b) ≡ as_i32 (a +ℤ b)
as_i32_add a b =
    let same : to_u32 (as_i32 a +ℤ b) ≡ to_u32 (a +ℤ b) =
      rw (to_u32_add (as_i32 a) b, to_u32_add a b, to_u32-as_i32 a) in
    (unfold as_i32 in ap signed32 same)
