-- ===== src/Base/Decimal.antt =====
-- `format!("{}", n)` for a whole number, and what the parsers of the program need to know of it.
use Prim.Native.Char.{Char, code}
use Prim.Native.String.{String, ◌∷◌, [], ◌++◌}
use mathlib.Core.Path.{◌≡◌, refl}
use mathlib.Core.Bool.{Bool, true, false}
use native.Mathlib.Omega.{arith}
use Prim.Native.Nat.{ℕ, zero, suc, ◌+◌, ◌/◌, ◌%◌, ◌≤◌, ◌<◌}
use bluecross.Base.Tests.{ltb, if◌then◌else◌}
use bluecross.Base.Int.{ℤ, pos, negsuc}
use bluecross.Base.Text.{is_whitespace, trim, trim_start, trim_end_where}

unfoldable pub digit : ℕ → Char
digit zero = "0"
digit (suc zero) = "1"
digit (suc (suc zero)) = "2"
digit (suc (suc (suc zero))) = "3"
digit (suc (suc (suc (suc zero)))) = "4"
digit (suc (suc (suc (suc (suc zero))))) = "5"
digit (suc (suc (suc (suc (suc (suc zero)))))) = "6"
digit (suc (suc (suc (suc (suc (suc (suc zero))))))) = "7"
digit (suc (suc (suc (suc (suc (suc (suc (suc zero)))))))) = "8"
digit _ = "9"

-- The digits of `n` in front of a text; each round of the fuel takes one digit.
unfoldable pub print_digits : ℕ → ℕ → String → String
print_digits zero n text = text
print_digits (suc fuel) n text =
    let more = print_digits fuel (n / 10) (digit (n % 10) ∷ text) in
    if ltb n 10 then digit n ∷ text else more

unfoldable pub decimal : ℕ → String
unfolding print_digits
decimal n = print_digits (suc n) n ""

pub code-digit : (d : ℕ) → d < 10 → code (digit d) ≡ 48 + d
unfolding digit
code-digit zero h = refl
code-digit (suc zero) h = refl
code-digit (suc (suc zero)) h = refl
code-digit (suc (suc (suc zero))) h = refl
code-digit (suc (suc (suc (suc zero)))) h = refl
code-digit (suc (suc (suc (suc (suc zero))))) h = refl
code-digit (suc (suc (suc (suc (suc (suc zero)))))) h = refl
code-digit (suc (suc (suc (suc (suc (suc (suc zero))))))) h = refl
code-digit (suc (suc (suc (suc (suc (suc (suc (suc zero)))))))) h = refl
code-digit (suc (suc (suc (suc (suc (suc (suc (suc (suc zero))))))))) h = refl
code-digit (suc (suc (suc (suc (suc (suc (suc (suc (suc (suc d)))))))))) h = absurd (omega arith)

-- A text of digits and nothing else.
abbrev pub IsDigits : String → Type 0
IsDigits [] = Unit
IsDigits (c ∷ s) = (48 ≤ code c) × (code c < 58) × IsDigits s

if-IsDigits :
    (test : Bool) (s t : String)
    → (test ≡ true → IsDigits s)
    → (test ≡ false → IsDigits t)
    → IsDigits (if test then s else t)
if-IsDigits true s t h k = h refl
if-IsDigits false s t h k = k refl

pub print_digits-IsDigits :
    (fuel n : ℕ) (text : String) → IsDigits text → IsDigits (print_digits fuel n text)
unfolding print_digits
print_digits-IsDigits zero n text h = h
print_digits-IsDigits (suc fuel) n text h =
    if-IsDigits (ltb n 10) _ _ (λ e. ground (arith, code-digit n))
      (λ e.
        print_digits-IsDigits fuel (n / 10) (digit (n % 10) ∷ text)
          (ground (arith, code-digit (n % 10))))

not_space : (c : ℕ) → 48 ≤ c → c < 58 → is_whitespace c ≡ false
unfolding is_whitespace
not_space c h k = ground arith

trim_end-IsDigits : (s : String) → IsDigits s → trim_end_where is_whitespace s ≡ s
unfolding trim_end_where
trim_end-IsDigits [] h = refl
trim_end-IsDigits (c ∷ s) h =
    rw (trim_end-IsDigits s h.2, not_space (code c) h.0 h.1) (ground arith)

pub trim-IsDigits : (s : String) → IsDigits s → trim s ≡ s
unfolding trim trim_start
trim-IsDigits [] h = refl
trim-IsDigits (c ∷ s) h = rw (not_space (code c) h.0 h.1) (trim_end-IsDigits (c ∷ s) h)

abbrev pub decimal_ℤ : ℤ → String
decimal_ℤ (pos n) = decimal n
decimal_ℤ (negsuc n) = "-" ++ decimal (suc n)
