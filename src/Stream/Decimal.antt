-- ===== src/Stream/Decimal.antt =====
-- The decimal text of a number, as a template of src/stream.ts writes it.
use Prim.Native.Nat.{◌/◌, ◌%◌}
use cantelop_sdk.Prelude.{
  ℕ, zero, suc, ◌+◌, ◌-◌, ◌*◌, ◌≤◌, ◌<◌, ◌≡◌, sym, ap, ◌∙◌, inl, inr, [], ◌∷◌, ltb, if◌then◌else◌,
  arith, Bool-cases, max_safe_integer,
}
use cantelop_sdk.Stream.{Text}

-- The decimal digits of a number below ten to the fuel, before the digits given.
decimal_digits : ℕ → ℕ → Text → Text
decimal_digits zero n digits = digits
decimal_digits (suc fuel) n digits =
    let more = decimal_digits fuel (n / 10) ((48 + n % 10) ∷ digits) in
    if ltb n 10 then (48 + n) ∷ digits else more

-- A safe integer has at most sixteen digits.
unfoldable pub decimal : ℕ → Text
unfolding decimal_digits
decimal n = decimal_digits 16 n []

-- The number that digits behind a number make.
digits_value : ℕ → Text → ℕ
digits_value n [] = n
digits_value n (d ∷ ds) = digits_value (10 * n + (d - 48)) ds

power_of_ten : ℕ → ℕ
power_of_ten zero = 1
power_of_ten (suc f) = 10 * power_of_ten f

digits_value-decimal :
    (fuel n : ℕ) (ds : Text)
    → n < power_of_ten fuel
    → digits_value 0 (decimal_digits fuel n ds) ≡ digits_value n ds
unfolding digits_value power_of_ten decimal_digits
digits_value-decimal zero n ds h = let e : n ≡ 0 = omega arith in rw e
digits_value-decimal (suc f) n ds h = elim (Bool-cases (ltb n 10)) [
  | inl small ↦ rw small (ap (λ k. digits_value k ds) (omega arith))
  | inr big ↦ rw big (
      digits_value-decimal f (n / 10) ((48 + n % 10) ∷ ds) (omega arith)
      ∙ ap (λ k. digits_value k ds) (omega arith))
]

-- Two safe integers with the same digits are equal.
pub decimal_inj :
    (m n : ℕ) → m ≤ max_safe_integer → n ≤ max_safe_integer → decimal m ≡ decimal n → m ≡ n
unfolding decimal power_of_ten digits_value
decimal_inj m n hm hn e =
    sym (digits_value-decimal 16 m [] (omega arith))
    ∙ ap (digits_value 0) e
    ∙ digits_value-decimal 16 n [] (omega arith)
