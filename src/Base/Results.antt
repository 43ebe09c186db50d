-- ===== src/Base/Results.antt =====
-- What a call may end in besides a value: an error that the caller sees (`Result`, for
-- `anyhow::Result`), or a Rust panic, which ends the process (`Outcome`).
use mathlib.Core.Path.{◌≡◌, refl}
use mathlib.Core.Logic.{◌⊎◌, inl, inr}

pub data Result {ℓ} (E : Type ℓ) (A : Type ℓ) : Type ℓ where
  ok : A → Result E A
  err : E → Result E A

pub data Outcome {ℓ} (A : Type ℓ) : Type ℓ where
  done : A → Outcome A
  panic : Outcome A

abbrev pub and_then {ℓ} : {A B : Type ℓ} → Outcome A → (A → Outcome B) → Outcome B
and_then (done a) f = f a
and_then panic f = panic

abbrev pub try {ℓ} : {E A B : Type ℓ} → Result E A → (A → Result E B) → Result E B
try (ok a) f = f a
try (err e) f = err e

-- Inversion of a successful chain.
pub try-eq-ok {ℓ} :
    {E A B : Type ℓ} (m : Result E A) (f : A → Result E B) {b : B}
    → try m f ≡ ok b
    → (a : A) × (m ≡ ok a) × (f a ≡ ok b)
try-eq-ok (ok a) f h = (a, refl, h)
try-eq-ok (err e) f h = cc

pub and_then-eq-done {ℓ} :
    {A B : Type ℓ} (m : Outcome A) (f : A → Outcome B) {b : B}
    → and_then m f ≡ done b
    → (a : A) × (m ≡ done a) × (f a ≡ done b)
and_then-eq-done (done a) f h = (a, refl, h)
and_then-eq-done panic f h = cc

pub try_assoc {ℓ} :
    {E A B C : Type ℓ} (m : Result E A) (f : A → Result E B) (g : B → Result E C)
    → try (try m f) g ≡ try m (λ a. try (f a) g)
try_assoc (ok a) f g = refl
try_assoc (err e) f g = refl

pub Result-cases {ℓ} :
    {E A : Type ℓ} (r : Result E A) → ((e : E) × (r ≡ err e)) ⊎ ((a : A) × (r ≡ ok a))
Result-cases (err e) = inl (e, refl)
Result-cases (ok a) = inr (a, refl)
