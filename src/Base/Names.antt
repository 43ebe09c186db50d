-- ===== src/Base/Names.antt =====
-- `OsString` ordered by its bytes, which is the order of the code points, and a stable sort by it.
use Prim.Native.Char.{code}
use Prim.Native.String.{String, [], ◌∷◌}
use mathlib.Core.Path.{◌≡◌, refl, ap₂}
use mathlib.Core.Bool.{Bool, true, false}
use mathlib.Core.List.{List}
use native.Mathlib.Omega.{arith}
use text.Mathlib.TextEquality.{Char-path}
use bluecross.Base.Tests.{ltb, ◌==◌, if◌then◌else◌}

unfoldable pub name_leb : String → String → Bool
name_leb [] t = true
name_leb (c ∷ s) [] = false
name_leb (c ∷ s) (d ∷ t) =
    let rest = name_leb s t in if code c == code d then rest else ltb (code c) (code d)

unfoldable pub insert_by_name : String → List String → List String
insert_by_name name List.[] = List.◌∷◌ name List.[]
insert_by_name name (List.◌∷◌ other more) =
    let rest = insert_by_name name more in
    if name_leb name other then List.◌∷◌ name (List.◌∷◌ other more) else List.◌∷◌ other rest

unfoldable pub sort_by_name : List String → List String
unfolding insert_by_name
sort_by_name List.[] = List.[]
sort_by_name (List.◌∷◌ name more) = insert_by_name name (sort_by_name more)

name_leb-total : (s t : String) → name_leb s t ≡ false → name_leb t s ≡ true
unfolding name_leb
name_leb-total [] t h = cc
name_leb-total (c ∷ s) [] h = refl
name_leb-total (c ∷ s) (d ∷ t) h = ground (arith, name_leb-total s t)

name_leb_antisym : (s t : String) → name_leb s t ≡ true → name_leb t s ≡ true → s ≡ t
unfolding name_leb
name_leb_antisym [] [] h k = refl
name_leb_antisym [] (d ∷ t) h k = cc
name_leb_antisym (c ∷ s) [] h k = cc
name_leb_antisym (c ∷ s) (d ∷ t) h k =
    ap₂ (λ e u. e ∷ u) (Char-path c d (ground (arith, h, k)))
      (name_leb_antisym s t (ground (arith, h, k)) (ground (arith, h, k)))

name_leb_trans : (s t u : String) → name_leb s t ≡ true → name_leb t u ≡ true → name_leb s u ≡ true
unfolding name_leb
name_leb_trans [] t u h k = refl
name_leb_trans (c ∷ s) [] u h k = cc
name_leb_trans (c ∷ s) (d ∷ t) [] h k = cc
name_leb_trans (c ∷ s) (d ∷ t) (e ∷ u) h k = ground (arith, name_leb_trans s t u)

pub insert_by_name_comm :
    (a b : String) (l : List String)
    → insert_by_name a (insert_by_name b l) ≡ insert_by_name b (insert_by_name a l)
unfolding insert_by_name
insert_by_name_comm a b List.[] = ground (arith, name_leb-total a b, name_leb_antisym a b)
insert_by_name_comm a b (List.◌∷◌ x l) = ground (
  arith,
  insert_by_name_comm a b l,
  name_leb-total a b,
  name_leb-total a x,
  name_leb-total b x,
  name_leb_antisym a b,
  name_leb_trans a b x,
  name_leb_trans b a x,
)
