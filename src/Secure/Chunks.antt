-- ===== src/Secure/Chunks.antt =====
-- `slice::chunks` of the standard library, as `SecureWriter::write_all` uses it.
use mathlib.Core.List.{append_assoc}
use bluecross.Base.{
  ℕ, zero, suc, ◌≤◌, ◌<◌, ◌≡◌, refl, sym, ap, ◌∙◌, List, [], ◌∷◌, ◌++◌, length, take, drop, arith,
  All, take-append-drop, length-drop, length-take,
}

module _ {ℓ} {A : Type ℓ} where
  unfoldable pub chunks_loop : ℕ → ℕ → List A → List (List A)
  chunks_loop size zero xs = []
  chunks_loop size (suc fuel) [] = []
  chunks_loop size (suc fuel) (x ∷ xs) =
      take size (x ∷ xs) ∷ chunks_loop size fuel (drop size (x ∷ xs))

  unfoldable pub chunks : ℕ → List A → List (List A)
  unfolding chunks_loop
  chunks size xs = chunks_loop size (length xs) xs

  abbrev pub concat : List (List A) → List A
  concat [] = []
  concat (xs ∷ xss) = xs ++ concat xss

  pub concat-append : (xss yss : List (List A)) → concat (xss ++ yss) ≡ concat xss ++ concat yss
  concat-append [] yss = refl
  concat-append (xs ∷ xss) yss =
      ap (◌++◌ xs) (concat-append xss yss) ∙ sym (append_assoc xs (concat xss) (concat yss))

  concat-chunks_loop :
      (size fuel : ℕ) (xs : List A)
      → 0 < size
      → length xs ≤ fuel
      → concat (chunks_loop size fuel xs) ≡ xs
  unfolding chunks_loop
  concat-chunks_loop size zero [] h k = refl
  concat-chunks_loop size zero (x ∷ xs) h k = absurd (omega arith)
  concat-chunks_loop size (suc fuel) [] h k = refl
  concat-chunks_loop size (suc fuel) (x ∷ xs) h k =
      ap (◌++◌ (take size (x ∷ xs))) (
        concat-chunks_loop size fuel (drop size (x ∷ xs)) h
          (omega (arith, length-drop size (x ∷ xs))))
      ∙ take-append-drop size (x ∷ xs)

  pub concat-chunks : (size : ℕ) (xs : List A) → 0 < size → concat (chunks size xs) ≡ xs
  unfolding chunks
  concat-chunks size xs h = concat-chunks_loop size (length xs) xs h (omega arith)

  abbrev pub IsChunk : ℕ → List A → Type 0
  IsChunk size xs = (0 < length xs) × (length xs ≤ size)

  chunks_loop-IsChunk :
      (size fuel : ℕ) (xs : List A) → 0 < size → All (IsChunk size) (chunks_loop size fuel xs)
  unfolding chunks_loop
  chunks_loop-IsChunk size zero xs h = tt
  chunks_loop-IsChunk size (suc fuel) [] h = tt
  chunks_loop-IsChunk size (suc fuel) (x ∷ xs) h = (
    (omega (arith, length-take size (x ∷ xs)), omega (arith, length-take size (x ∷ xs))),
    chunks_loop-IsChunk size fuel (drop size (x ∷ xs)) h,
  )

  pub chunks-IsChunk : (size : ℕ) (xs : List A) → 0 < size → All (IsChunk size) (chunks size xs)
  unfolding chunks
  chunks-IsChunk size xs h = chunks_loop-IsChunk size (length xs) xs h
