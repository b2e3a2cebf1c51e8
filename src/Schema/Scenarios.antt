-- ===== src/Schema/Scenarios.antt =====
-- Scenarios of the validation of settings, with conversions that write a number as that many marks.
use Prim.Native.Char.{code}
use craftcontrol.Base.{
  ℕ, zero, suc, ◌≡◌, refl, ap, Option, none, some, String, ◌==◌, if◌then◌else◌, arith,
}
use craftcontrol.Base.Int.{ℤ, pos, negsuc}
use craftcontrol.Base.Value.{Value, text}
use craftcontrol.Schema.{Conversions, valid, chars, validate_value, validate_kind, validate_number}
use craftcontrol.Schema.Tables.{range}
use craftcontrol.Schema.Stable.{validate_value_again}

unfoldable marks : ℕ → String
marks zero = String.[]
marks (suc n) = String.◌∷◌ "|" (marks n)

abbrev write : ℤ → String
write (pos n) = marks n
write (negsuc n) = String.◌∷◌ "-" (marks n)

abbrev read_text : String → ℤ
read_text String.[] = pos 0
read_text (String.◌∷◌ c s) = if code c == 45 then negsuc (chars s) else pos (suc (chars s))

abbrev text_of : Value → String
text_of (text s) = s
text_of _ = "other"

abbrev read : Value → Option ℤ
read (text s) = some (read_text s)
read _ = none

abbrev conversions : Conversions
conversions = record { str = text_of; int_of = read; str_int = write }

chars-marks : (n : ℕ) → chars (marks n) ≡ n
unfolding chars marks
chars-marks zero = refl
chars-marks (suc n) = ground (arith, chars-marks n)

read-write : (n : ℤ) → read (text (write n)) ≡ some n
unfolding marks
read-write (pos zero) = refl
read-write (pos (suc n)) = ap (λ m. some (pos (suc m))) (chars-marks n)
read-write (negsuc n) = ap (λ m. some (negsuc m)) (chars-marks n)

validated : validate_value conversions (range 1 100) (text "||||") ≡ valid "||||"
unfolding validate_value validate_kind validate_number chars marks
validated = refl

validate_value_again_example : validate_value conversions (range 1 100) (text "||||") ≡ valid "||||"
validate_value_again_example =
    validate_value_again conversions (λ s. refl) read-write (range 1 100) (text "||||") "||||"
      validated
