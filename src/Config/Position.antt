-- ===== src/Config/Position.antt =====
-- src/config.rs: the names of the four positions.
use bluecross.Base.{◌≡◌, refl, some, String, arith, eq_iff, ◌↔◌}
use bluecross.Config.{ScreenPosition, left, right, top, bottom, from_str, as_str}

pub from_str-as_str : (p : ScreenPosition) → from_str (as_str p) ≡ some p
unfolding from_str as_str
from_str-as_str left = refl
from_str-as_str right = refl
from_str-as_str top = refl
from_str-as_str bottom = refl

from_str-some : (s : String) (p : ScreenPosition) → from_str s ≡ some p → s ≡ as_str p
unfolding from_str as_str
from_str-some s left h = ground (arith, eq_iff s "left")
from_str-some s right h = ground (arith, eq_iff s "right")
from_str-some s top h = ground (arith, eq_iff s "top")
from_str-some s bottom h = ground (arith, eq_iff s "bottom")

-- A text is read as a position exactly when it is the name that `as_str` writes for it.
pub from_str_iff : (s : String) (p : ScreenPosition) → (from_str s ≡ some p) ↔ (s ≡ as_str p)
from_str_iff s p = (from_str-some s p, λ e. rw e (from_str-as_str p))
