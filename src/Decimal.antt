-- ===== src/Decimal.antt =====
-- Python's `str` and `int` between integers and decimal text, and the facts that make them inverse.
pub mod Padding
use mock_sim.Base.{
  ℕ, zero, suc, ◌+◌, ◌-◌, ◌*◌, ◌/◌, ◌%◌, ◌^◌, ◌≤◌, ◌<◌, ◌≡◌, refl, ap, ◌∙◌, inl, inr, Bool, true,
  false, ◌&&◌, List, [], ◌∷◌, ◌++◌, Text, arith, ltb, ◌==◌, if◌then◌else◌, is_digit, length,
  length-append, Bool-cases, ltb→lt,
}
use mock_sim.Base.Int.{ℤ, pos, negsuc, neg_ℤ}
use mock_sim.Session.{Result, ok, err}
use mock_sim.Errors.{python_error}

-- The last digit is peeled off until the number is below ten; the fuel is the number itself.
unfoldable pub to_digits : ℕ → ℕ → Text → Text
to_digits zero n acc = acc
to_digits (suc f) n acc =
    let rest = to_digits f (n / 10) ((b'0' + n % 10) ∷ acc) in
    if ltb n 10 then (b'0' + n) ∷ acc else rest

unfoldable pub str_nat : ℕ → Text
unfolding to_digits
str_nat n = to_digits (suc n) n []

-- `str` of an int
unfoldable pub str_int : ℤ → Text
unfolding str_nat
str_int (pos n) = str_nat n
str_int (negsuc n) = b'-' ∷ str_nat (suc n)

unfoldable pub digits_value : ℕ → Text → ℕ
digits_value acc [] = acc
digits_value acc (c ∷ s) = digits_value (acc * 10 + (c - b'0')) s

unfoldable pub all_digits : Text → Bool
unfolding is_digit
all_digits [] = true
all_digits (c ∷ s) = is_digit c && all_digits s

-- `str.isdigit`: false of the empty text
unfoldable pub is_digits : Text → Bool
unfolding all_digits
is_digits [] = false
is_digits (c ∷ s) = all_digits (c ∷ s)

-- `str.lstrip("-")`
unfoldable pub lstrip_minus : Text → Text
lstrip_minus [] = []
lstrip_minus (c ∷ s) = if c == b'-' then lstrip_minus s else c ∷ s

-- `int` of a text of minus signs and digits, which is all that the program hands to it
unfoldable pub int_text : Text → Result ℤ
unfolding is_digits digits_value
int_text [] = err python_error
int_text (c ∷ s) =
    if c == b'-'
    then (if is_digits s then ok (neg_ℤ (pos (digits_value 0 s))) else err python_error)
    else if is_digits (c ∷ s)
    then ok (pos (digits_value 0 (c ∷ s)))
    else err python_error

-- `f"{n:0{w}d}"`
unfoldable pub zeros : ℕ → Text → Text
zeros zero s = s
zeros (suc k) s = b'0' ∷ zeros k s

unfoldable pub zero_pad : ℕ → Text → Text
unfolding zeros
zero_pad w s = zeros (w - length s) s

digits_value-to_digits :
    (f n : ℕ) (acc : Text) → n < f → digits_value 0 (to_digits f n acc) ≡ digits_value n acc
unfolding to_digits digits_value
digits_value-to_digits zero n acc h = elim h [ ]
digits_value-to_digits (suc f) n acc h = elim (Bool-cases (ltb n 10)) [
  | inl small ↦ rw small (ap (λ t. digits_value t acc) (omega arith))
  | inr large ↦ rw large (
      digits_value-to_digits f (n / 10) _ (ground arith)
      ∙ ap (λ t. digits_value t acc) (omega arith))
]

pub digits_value-str_nat : (n : ℕ) → digits_value 0 (str_nat n) ≡ n
unfolding str_nat digits_value
digits_value-str_nat n = digits_value-to_digits (suc n) n [] (omega arith)

-- What was written first ends as the accumulator does.
to_digits-is_digits :
    (f n : ℕ) (acc : Text) → n < f → all_digits acc ≡ true → is_digits (to_digits f n acc) ≡ true
unfolding to_digits is_digits
to_digits-is_digits zero n acc h a = elim h [ ]
to_digits-is_digits (suc f) n acc h a = elim (Bool-cases (ltb n 10)) [
  | inl small ↦ rw small (ground arith)
  | inr large ↦ rw large (to_digits-is_digits f (n / 10) _ (ground arith) (ground arith))
]

pub is_digits-str_nat : (n : ℕ) → is_digits (str_nat n) ≡ true
unfolding str_nat
is_digits-str_nat n = to_digits-is_digits (suc n) n [] (omega arith) (unfold all_digits in refl)

pub str_int-pos : (n : ℕ) → str_int (pos n) ≡ str_nat n
unfolding str_int
str_int-pos n = refl

pub str_int-negsuc : (n : ℕ) → str_int (negsuc n) ≡ b'-' ∷ str_nat (suc n)
unfolding str_int
str_int-negsuc n = refl
