-- ===== src/Iban/Checksum.antt =====
-- The check digits of an IBAN (core/identifiers.py): what `_iban_checksum` writes, `validate_iban`
-- accepts.
use mock_sim.Base.{
  ℕ, ◌+◌, ◌-◌, ◌*◌, ◌%◌, ◌^◌, ◌≡◌, refl, ◌∙◌, Bool, true, false, ◌&&◌, ◌||◌, Option, none, some, [],
  ◌∷◌, ◌++◌, Text, codes, arith, is_digit, is_alpha, upper, length, ◌==◌, ==_iff, &&_split,
}
use mathlib.Core.List.{append_assoc}
use mock_sim.Decimal.{str_nat, digits_value, zero_pad, all_digits}
use mock_sim.Decimal.Padding.{Padded, Padded_lem, digits_value-append}
use mock_sim.Iban.{char_digits, numeric, iban_checksum, numeric?, validate_iban}

-- Letters and digits only.
abbrev pub IsAlnum : Text → Type 0
IsAlnum [] = Unit
IsAlnum (c ∷ s) = ((is_digit c || is_alpha c) ≡ true) × IsAlnum s

-- The same as a test, for texts that are given.
unfoldable pub all_alnum : Text → Bool
all_alnum [] = true
all_alnum (c ∷ s) = (is_digit c || is_alpha c) && all_alnum s

pub all_alnum-IsAlnum : (s : Text) → all_alnum s ≡ true → IsAlnum s
unfolding all_alnum
all_alnum-IsAlnum [] h = tt
all_alnum-IsAlnum (c ∷ s) h =
    let (first, rest) = &&_split (is_digit c || is_alpha c) (all_alnum s) h in
    (first, all_alnum-IsAlnum s rest)

pub IsAlnum-append : (s t : Text) → IsAlnum s → IsAlnum t → IsAlnum (s ++ t)
IsAlnum-append [] t hs ht = ht
IsAlnum-append (c ∷ s) t hs ht = (hs.0, IsAlnum-append s t hs.1 ht)

all_digits-IsAlnum : (s : Text) → all_digits s ≡ true → IsAlnum s
unfolding all_digits
all_digits-IsAlnum [] h = tt
all_digits-IsAlnum (c ∷ s) h = ground (arith, all_digits-IsAlnum s)

upper-IsAlnum : (s : Text) → IsAlnum s → IsAlnum (upper s)
unfolding upper is_digit is_alpha
upper-IsAlnum [] h = tt
upper-IsAlnum (c ∷ s) h = (ground arith, upper-IsAlnum s h.1)

upper-append : (s t : Text) → upper (s ++ t) ≡ upper s ++ upper t
unfolding upper
upper-append [] t = refl
upper-append (c ∷ s) t = rw (upper-append s t)

numeric-append : (s t : Text) → numeric (s ++ t) ≡ numeric s ++ numeric t
unfolding numeric
numeric-append [] t = refl
numeric-append (c ∷ s) t = rw (numeric-append s t, append_assoc)

-- On letters and digits the validator's loop reads what the checksum's loop reads.
numeric?-IsAlnum : (s : Text) → IsAlnum s → numeric? s ≡ some (numeric s)
unfolding numeric? numeric char_digits
numeric?-IsAlnum [] h = refl
numeric?-IsAlnum (c ∷ s) h = ground (arith, numeric?-IsAlnum s)

-- Digits stand for themselves.
numeric-digits : (s : Text) → all_digits s ≡ true → numeric (upper s) ≡ s
unfolding numeric char_digits upper all_digits is_digit
numeric-digits [] h = refl
numeric-digits (c ∷ s) h = ground (arith, numeric-digits s)

-- The number that country and BBAN stand for, in the order of the check.
abbrev pub iban_number : Text → Text → ℕ
iban_number country bban = digits_value 0 (numeric (upper (bban ++ country)))

-- Digits at the end of the rearranged text end the number.
number-append :
    (country bban k : Text)
    → all_digits k ≡ true
    → digits_value 0 (numeric (upper (bban ++ country ++ k)))
      ≡ digits_value (iban_number country bban) k
number-append country bban k h = rw (
  upper-append (bban ++ country) k,
  numeric-append (upper (bban ++ country)) (upper k),
  numeric-digits k h,
  digits_value-append 0 (numeric (upper (bban ++ country))) k,
)

accepts : Option Text → Bool
accepts none = false
accepts (some []) = false
accepts (some (c ∷ t)) = digits_value 0 (c ∷ t) % 97 == 1

-- The empty text is refused as the number 0 would be.
accepts-some : (s : Text) → accepts (some s) ≡ (digits_value 0 s % 97 == 1)
unfolding accepts digits_value
accepts-some [] = refl
accepts-some (c ∷ t) = refl

validate_iban-accepts :
    (c d x y : ℕ) (bban : Text)
    → validate_iban (c ∷ d ∷ x ∷ y ∷ bban) ≡ accepts (numeric? (upper (bban ++ c ∷ d ∷ x ∷ y ∷ [])))
unfolding validate_iban accepts
validate_iban-accepts c d x y bban = ground arith

-- What the validator computes for two check digits.
validate_iban-digits :
    (c d : ℕ) (k bban : Text)
    → length k ≡ 2
    → all_digits k ≡ true
    → IsAlnum (c ∷ d ∷ [])
    → IsAlnum bban
    → validate_iban (c ∷ d ∷ (k ++ bban))
      ≡ (digits_value (iban_number (c ∷ d ∷ []) bban) k % 97 == 1)
validate_iban-digits c d [] bban l h a b = absurd (omega arith)
validate_iban-digits c d (x ∷ []) bban l h a b = absurd (omega arith)
validate_iban-digits c d (x ∷ y ∷ []) bban l h a b = rw (
  validate_iban-accepts c d x y bban,
  ← append_assoc bban (c ∷ d ∷ []) (x ∷ y ∷ []),
  numeric?-IsAlnum (upper (bban ++ c ∷ d ∷ [] ++ x ∷ y ∷ [])) (
      upper-IsAlnum (bban ++ c ∷ d ∷ [] ++ x ∷ y ∷ []) (
        IsAlnum-append (bban ++ c ∷ d ∷ []) (x ∷ y ∷ []) (IsAlnum-append bban (c ∷ d ∷ []) b a)
          (all_digits-IsAlnum (x ∷ y ∷ []) h))),
  accepts-some,
  number-append (c ∷ d ∷ []) bban (x ∷ y ∷ []) h,
)
validate_iban-digits c d (x ∷ y ∷ z ∷ k) bban l h a b = absurd (omega arith)

check_number :
    (v n : ℕ) → n ≡ (v * 10 + 0) * 10 + 0 → ((v * 10 ^ 2 + (98 - n % 97)) % 97 == 1) ≡ true
check_number v n e = (==_iff _ 1).1 (omega arith)

-- The check digits that the generator writes: two digits, for a number that the validator accepts.
pub iban_checksum-accepted :
    (c d : ℕ) (bban : Text)
    → IsAlnum (c ∷ d ∷ [])
    → IsAlnum bban
    → (length (iban_checksum (c ∷ d ∷ []) bban) ≡ 2)
      × (validate_iban (c ∷ d ∷ (iban_checksum (c ∷ d ∷ []) bban ++ bban)) ≡ true)
unfolding iban_checksum
iban_checksum-accepted c d bban a b =
    let v : ℕ = iban_number (c ∷ d ∷ []) bban in
    let n : ℕ = digits_value 0 (numeric (upper (bban ++ c ∷ d ∷ [] ++ codes "00"))) in
    let zeros_at_end : n ≡ digits_value v (codes "00") =
      number-append (c ∷ d ∷ []) bban (codes "00") (unfold all_digits is_digit in refl) in
    let padded : Padded 2 (98 - n % 97) = Padded_lem 1 (98 - n % 97) (omega arith) in
    (
      padded.width,
      rw
          (
            validate_iban-digits c d (zero_pad 2 (str_nat (98 - n % 97))) bban padded.width
                padded.shown a b,
            padded.reads v,
          )
          (check_number v n (zeros_at_end ∙ unfold digits_value in refl)),
    )
