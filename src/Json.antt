-- ===== src/Json.antt =====
-- The part of `serde_json` that the program calls, as an interface: the crate is not part of the
-- repository. The tests have a small implementation of it.
use bluecross.Base.{
  ℕ, ◌^◌, ◌≡◌, Option, none, some, List, [], ◌∷◌, String, ℤ, pos, negsuc, ◌≤ℤ◌, ◌-◌,
}
use bluecross.Base.Maps.{lookup}

-- `Value`, the literals that `json!` builds, the accessors, and the two conversions to bytes.
pub record Json : Type 1 where
  pub Value : Type 0
  pub object : List (String × Value) → Value
  pub string : String → Value
  pub number : ℤ → Value
  pub get : Value → String → Option Value
  pub as_str : Value → Option String
  pub as_i64 : Value → Option ℤ
  pub to_vec : Value → List ℕ
  pub from_slice : List ℕ → Option Value

-- No key stands twice.
abbrev pub HasDistinctKeys {ℓ} : {V : Type ℓ} → List (String × V) → Type ℓ
HasDistinctKeys [] = Unit
HasDistinctKeys ((k, v) ∷ fields) = (lookup k fields ≡ none) × HasDistinctKeys fields

pub record InI64 (z : ℤ) : Type 0 where
  pub low : negsuc (2 ^ 63 - 1) ≤ℤ z
  pub high : z ≤ℤ pos (2 ^ 63 - 1)

-- What `serde_json` documents of the accessors.
pub record JsonLaws (j : Json) : Type 0 where
  pub get-object :
      (fields : List (String × j.Value)) (k : String)
      → HasDistinctKeys fields
      → j.get (j.object fields) k ≡ lookup k fields
  pub as_str-string : (s : String) → j.as_str (j.string s) ≡ some s
  pub as_i64-number : (z : ℤ) → InI64 z → j.as_i64 (j.number z) ≡ some z

-- The parser reads this value back from what the printer writes for it.
abbrev pub Survives : (j : Json) → j.Value → Type 0
Survives j v = j.from_slice (j.to_vec v) ≡ some v
