-- ===== src/Tests/Flat.antt =====
-- A small JSON of objects, texts and integers. The words that it can parse stand in a table, and
-- are written by their place; any other text, and an object in an object, is written as something
-- that it does not parse.
use text.Mathlib.Text.{◌==◌ as str_eq}
use mathlib.Core.Option
use bluecross.Base.{
  ℕ, zero, suc, ◌+◌, ◌≡◌, refl, Option, none, some, List, [], ◌∷◌, String, ℤ, pos, negsuc, ap,
  if◌then◌else◌, ◌==◌,
}
use bluecross.Base.Maps.{lookup}
use bluecross.Json.{Json, JsonLaws}

mutual
  pub data Value : Type 0 where
    null : Value
    word : String → Value
    num : ℤ → Value
    obj : Fields → Value

  pub data Fields : Type 0 where
    end : Fields
    field : String → Value → Fields → Fields

abbrev fields : List (String × Value) → Fields
fields [] = end
fields ((k, v) ∷ more) = field k v (fields more)

abbrev get_field : Fields → String → Option Value
get_field end k = none
get_field (field j v more) k = if str_eq j k then some v else get_field more k

abbrev get : Value → String → Option Value
get (obj fs) k = get_field fs k
get _ k = none

abbrev as_str : Value → Option String
as_str (word s) = some s
as_str _ = none

abbrev as_i64 : Value → Option ℤ
as_i64 (num z) = some z
as_i64 _ = none

abbrev words : List String
words =
    "code" ∷ "value" ∷ "x" ∷ "y" ∷ "dx" ∷ "dy" ∷ "button" ∷ "entry_x" ∷ "entry_y" ∷ "content"
    ∷ "name" ∷ "screen_width" ∷ "screen_height" ∷ "laptop" ∷ "hello" ∷ "position" ∷ "right"
    ∷ "server_width" ∷ "server_height" ∷ []

-- The place of a word, counted from 1, or 0.
abbrev place_in : List String → ℕ → String → ℕ
place_in [] i s = 0
place_in (w ∷ ws) i s = let rest = place_in ws (i + 1) s in if str_eq w s then i else rest

abbrev word_at : List String → ℕ → Option String
word_at [] i = none
word_at (w ∷ ws) zero = none
word_at (w ∷ ws) (suc zero) = some w
word_at (w ∷ ws) (suc (suc i)) = word_at ws (suc i)

abbrev place : String → ℕ
place s = place_in words 1 s

-- A field is three numbers: its key, the kind of its value, and the value.
abbrev print_fields : Fields → List ℕ
print_fields end = []
print_fields (field k (num (pos n)) more) = place k ∷ 1 ∷ n ∷ print_fields more
print_fields (field k (num (negsuc n)) more) = place k ∷ 2 ∷ n ∷ print_fields more
print_fields (field k (word s) more) = place k ∷ 3 ∷ place s ∷ print_fields more
print_fields (field k _ more) = 0 ∷ print_fields more

abbrev to_vec : Value → List ℕ
to_vec (obj fs) = b'{' ∷ print_fields fs
to_vec _ = []

abbrev scalar : ℕ → ℕ → Option Value
scalar kind n =
    if kind == 1
    then some (num (pos n))
    else if kind == 2
    then some (num (negsuc n))
    else if kind == 3
    then Option.map word (word_at words n)
    else none

abbrev with_field : Option String → Option Value → Option Fields → Option Fields
with_field (some k) (some v) (some more) = some (field k v more)
with_field _ _ _ = none

abbrev parse_fields : List ℕ → Option Fields
parse_fields [] = some end
parse_fields (k ∷ kind ∷ n ∷ more) =
    with_field (word_at words k) (scalar kind n) (parse_fields more)
parse_fields _ = none

abbrev from_slice : List ℕ → Option Value
from_slice [] = none
from_slice (b ∷ bytes) = if b == b'{' then Option.map obj (parse_fields bytes) else none

abbrev pub flat : Json
flat = record {
  Value = Value;
  object = λ fs. obj (fields fs);
  string = word;
  number = num;
  get = get;
  as_str = as_str;
  as_i64 = as_i64;
  to_vec = to_vec;
  from_slice = from_slice;
}

get_field-fields : (fs : List (String × Value)) (k : String) → get_field (fields fs) k ≡ lookup k fs
unfolding lookup
get_field-fields [] k = refl
get_field-fields ((j, v) ∷ more) k =
    ap (λ (r : Option Value). if str_eq j k then some v else r) (get_field-fields more k)

pub flat-JsonLaws : JsonLaws flat
flat-JsonLaws = record {
  get-object = λ fs k _. get_field-fields fs k;
  as_str-string = λ s. refl;
  as_i64-number = λ z _. refl;
}
